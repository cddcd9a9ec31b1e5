-- ===== src/Base/Strings.antt =====
-- Python's `str` as the list of its code points, and the methods that the program calls. Letter
-- case is that of ASCII: a letter outside it is left alone.
use Prim.Native.Nat.{ℕ, ◌+◌, ◌-◌}
use Prim.Native.Char.{code}
use Prim.Native.String.{String}
use mathlib.Core.Path.{◌≡◌, refl}
use mathlib.Core.Logic.{◌↔◌}
use mathlib.Core.Bool.{Bool, true, false, ◌&&◌, ◌||◌}
use mathlib.Core.List.{List, [], ◌∷◌, ◌++◌, map, reverse}
use mathlib.Core.Option.{Option, none, some}
use native.Mathlib.Omega.{arith}
use native.Mathlib.Decide.{ℕ_discrete}
use quick_api.Base.Tests.{leb, nat_beq, if◌then◌else◌, Eq}

abbrev pub Text : Type 0
Text = List ℕ

-- A literal. It stays shut, so that a proof does not carry its characters about.
unfoldable pub codes : String → Text
codes String.[] = []
codes (String.◌∷◌ c s) = code c ∷ codes s

unfoldable pub str_beq : Text → Text → Bool
str_beq [] [] = true
str_beq [] (d ∷ t) = false
str_beq (c ∷ s) [] = false
str_beq (c ∷ s) (d ∷ t) = nat_beq c d && str_beq s t

pub str_iff : (s t : Text) → (str_beq s t ≡ true) ↔ (s ≡ t)
unfolding str_beq
str_iff [] [] = ground arith
str_iff [] (d ∷ t) = ground arith
str_iff (c ∷ s) [] = ground arith
str_iff (c ∷ s) (d ∷ t) = ground (arith, str_iff s t)

instance abbrev pub text_eq : Eq Text
text_eq = record { same = str_beq; same_iff = str_iff }

pub text_discrete : Discrete Text
text_discrete = hlevel ℕ_discrete

-- `str.lower`, `str.upper`
unfoldable pub lower_char : ℕ → ℕ
lower_char c = if leb b'A' c && leb c b'Z' then c + 32 else c

unfoldable pub upper_char : ℕ → ℕ
upper_char c = if leb b'a' c && leb c b'z' then c - 32 else c

unfoldable pub lower : Text → Text
unfolding lower_char
lower = map lower_char

unfoldable pub upper : Text → Text
unfolding upper_char
upper = map upper_char

-- `s.startswith(p)`
unfoldable pub starts_with : Text → Text → Bool
starts_with s [] = true
starts_with [] (d ∷ p) = false
starts_with (c ∷ s) (d ∷ p) = nat_beq c d && starts_with s p

-- `p in s`
unfoldable pub contains : Text → Text → Bool
unfolding starts_with
contains p [] = starts_with [] p
contains p (c ∷ s) = starts_with (c ∷ s) p || contains p s

-- `str.isspace` of one character, over ASCII
unfoldable pub is_space : ℕ → Bool
is_space c = nat_beq c 32 || (leb 9 c && leb c 13) || (leb 28 c && leb c 31)

-- `str.lstrip`, `str.strip`
unfoldable pub lstrip : Text → Text
unfolding is_space
lstrip [] = []
lstrip (c ∷ s) = let rest = lstrip s in if is_space c then rest else c ∷ s

unfoldable pub strip : Text → Text
unfolding lstrip
strip s = reverse (lstrip (reverse (lstrip s)))

-- `s.split(sep)` for one character
unfoldable pub split_from : ℕ → Text → Text → List Text
split_from sep cur [] = cur ∷ []
split_from sep cur (c ∷ s) =
    let cut = cur ∷ split_from sep [] s in
    let longer = split_from sep (cur ++ c ∷ []) s in if nat_beq c sep then cut else longer

unfoldable pub split : ℕ → Text → List Text
unfolding split_from
split sep s = split_from sep [] s

-- `sep.join(parts)`
unfoldable pub join : Text → List Text → Text
join sep [] = []
join sep (p ∷ []) = p
join sep (p ∷ q ∷ ps) = p ++ sep ++ join sep (q ∷ ps)

upper_idem_char : (c : ℕ) → upper_char (upper_char c) ≡ upper_char c
unfolding upper_char
upper_idem_char c = ground arith

-- Upper case once is upper case twice.
pub upper_idem : (s : Text) → upper (upper s) ≡ upper s
unfolding upper
upper_idem [] = refl
upper_idem (c ∷ s) = ground (arith, upper_idem s, upper_idem_char c)

-- `x or d` for an optional text: the empty text counts as absent.
abbrev pub text_or : Option Text → Text → Text
text_or none d = d
text_or (some []) d = d
text_or (some (c ∷ t)) d = c ∷ t
