-- ===== src/Ml/Floats.antt =====
-- The floats of Python as far as quickapi/ml uses them: literals, arithmetic, comparisons. A literal
-- `lit m k` is m / 10 ^ k as it is written, and `value` is a float as a JSON value.
use quick_api.Base.{ℕ, Value, Bool, true, false, List, [], ◌∷◌, ◌≡◌, if◌then◌else◌}

pub record Floats (F : Type 0) : Type 0 where
  pub lit : ℕ → ℕ → F
  pub of_int : ℕ → F
  pub plus : F → F → F
  pub times : F → F → F
  pub over : F → F → F
  pub lt : F → F → Bool
  pub le : F → F → Bool
  pub log10 : F → F
  pub round4 : F → F
  pub value : F → Value

module _ {F : Type 0} ⦃n : Floats F⦄ where
  -- `min(a, b)` and `max(a, b)`
  abbrev pub min_of : F → F → F
  min_of a b = if n.lt b a then b else a

  abbrev pub max_of : F → F → F
  max_of a b = if n.lt a b then b else a

  -- `sum(xs)`, from the left
  unfoldable pub sum_from : F → List F → F
  sum_from acc [] = acc
  sum_from acc (x ∷ xs) = sum_from (n.plus acc x) xs

-- What the strict order of floats does, for numbers and for what is not a number.
pub record IsOrdered {F : Type 0} (n : Floats F) : Type 0 where
  pub lt_irrefl : (a : F) → n.lt a a ≡ false
  pub lt_trans : (a b c : F) → n.lt a b ≡ true → n.lt b c ≡ true → n.lt a c ≡ true
