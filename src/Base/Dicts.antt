-- ===== src/Base/Dicts.antt =====
-- Python's `dict` with `str` keys: an association list in insertion order.
use mathlib.Core.Path.{◌≡◌, refl}
use mathlib.Core.Bool.{Bool}
use mathlib.Core.Option.{Option, none, some}
use mathlib.Core.List.{List, [], ◌∷◌}
use mathlib.Core.Logic.{inl, inr}
use native.Mathlib.Omega.{arith}
use quick_api.Base.Tests.{if◌then◌else◌, ◌==◌, is_some, Bool-cases}
use quick_api.Base.Strings.{Text, text_eq, str_iff}

abbrev pub Dict {ℓ} : Type ℓ → Type ℓ
Dict V = List (Text × V)

module _ {ℓ} {V : Type ℓ} where
  -- `d.get(k)`
  unfoldable pub get : Dict V → Text → Option V
  get [] k = none
  get ((j, v) ∷ d) k = if j == k then some v else get d k

  -- `k in d`
  unfoldable pub has : Dict V → Text → Bool
  unfolding get
  has d k = is_some (get d k)

  -- `d[k] = v`: a key that is there keeps its place
  unfoldable pub put : Dict V → Text → V → Dict V
  put [] k v = (k, v) ∷ []
  put ((j, w) ∷ d) k v = if j == k then (j, v) ∷ d else (j, w) ∷ put d k v

  -- `d.setdefault(k, v)`
  unfoldable pub set_default : Dict V → Text → V → Dict V
  unfolding put has
  set_default d k v = if has d k then d else put d k v

  -- `d.pop(k, None)`
  unfoldable pub pop : Dict V → Text → Dict V
  pop [] k = []
  pop ((j, w) ∷ d) k = let rest = pop d k in if j == k then rest else (j, w) ∷ rest

  unfoldable pub keys : Dict V → List Text
  keys [] = []
  keys ((j, w) ∷ d) = j ∷ keys d

  unfoldable pub values : Dict V → List V
  values [] = []
  values ((j, w) ∷ d) = w ∷ values d

  pub get-put :
      (map : Dict V) (key other : Text) (value : V)
      → get (put map key value) other ≡ (if key == other then some value else get map other)
  unfolding get put
  get-put [] k j v = refl
  get-put ((i, w) ∷ d) k j v =
      ground (arith, str_iff k j, str_iff i k, str_iff i j, get-put d k j v)

  pub get-own : (map : Dict V) (key : Text) (value : V) → get (put map key value) key ≡ some value
  get-own map key value = ground (arith, get-put map key key value, str_iff key key)

  pub get-pop :
      (map : Dict V) (key other : Text)
      → get (pop map key) other ≡ (if key == other then none else get map other)
  unfolding get pop
  get-pop [] k j = ground arith
  get-pop ((i, w) ∷ d) k j = ground (arith, str_iff k j, str_iff i k, str_iff i j, get-pop d k j)

-- No key stands twice.
abbrev pub IsDistinct {ℓ} : {V : Type ℓ} → Dict V → Type ℓ
IsDistinct [] = Unit
IsDistinct ((j, w) ∷ d) = (get d j ≡ none) × IsDistinct d

module _ {ℓ} {V : Type ℓ} where
  pub put-IsDistinct : (d : Dict V) (k : Text) (v : V) → IsDistinct d → IsDistinct (put d k v)
  unfolding get put
  put-IsDistinct [] k v h = (refl, tt)
  put-IsDistinct ((j, w) ∷ d) k v (n, h) = elim (Bool-cases (j == k)) [
    | inl e ↦ rw e (n, h)
    | inr e ↦
        rw e (rw get-put (ground (arith, n, e, str_iff k j, str_iff j k)), put-IsDistinct d k v h)
  ]

  pub pop-IsDistinct : (d : Dict V) (k : Text) → IsDistinct d → IsDistinct (pop d k)
  unfolding get pop
  pop-IsDistinct [] k h = tt
  pop-IsDistinct ((j, w) ∷ d) k (n, h) = elim (Bool-cases (j == k)) [
    | inl e ↦ rw e (pop-IsDistinct d k h)
    | inr e ↦ rw e (rw get-pop (ground (arith, n)), pop-IsDistinct d k h)
  ]

pub ruleset dict_laws = (get-put, get-pop)
