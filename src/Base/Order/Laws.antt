-- ===== src/Base/Order/Laws.antt =====
-- `sorted(set(...))` is strictly increasing, and has the members of its argument.
use mathlib.Core.Path.{◌≡◌, refl}
use mathlib.Core.Bool.{true, false, ◌||◌}
use mathlib.Core.Logic.{inl, inr}
use mathlib.Core.List.{List, [], ◌∷◌}
use native.Mathlib.Omega.{arith}
use quick_api.Base.Tests.{Bool-cases}
use quick_api.Base.Strings.{Text, text_eq, str_beq, str_iff}
use quick_api.Base.Order.{mem, text_ltb, insert_sorted, sorted_set}

text_ltb_trichotomy : (s t : Text) → text_ltb s t ≡ false → text_ltb t s ≡ false → s ≡ t
unfolding text_ltb
text_ltb_trichotomy [] [] p q = refl
text_ltb_trichotomy [] (d ∷ t) p q = cc
text_ltb_trichotomy (c ∷ s) [] p q = cc
text_ltb_trichotomy (c ∷ s) (d ∷ t) p q = ground (arith, text_ltb_trichotomy s t)

pub text_ltb_trans :
    (s t u : Text) → text_ltb s t ≡ true → text_ltb t u ≡ true → text_ltb s u ≡ true
unfolding text_ltb
text_ltb_trans s t [] p q = q
text_ltb_trans [] t (e ∷ u) p q = refl
text_ltb_trans (c ∷ s) [] (e ∷ u) p q = cc
text_ltb_trans (c ∷ s) (d ∷ t) (e ∷ u) p q = ground (arith, text_ltb_trans s t u)

pub text_ltb_irrefl : (s : Text) → text_ltb s s ≡ false
unfolding text_ltb
text_ltb_irrefl [] = refl
text_ltb_irrefl (c ∷ s) = ground (arith, text_ltb_irrefl s)

-- Strictly increasing, so with no text twice.
abbrev pub IsAbove : Text → List Text → Type 0
IsAbove t [] = Unit
IsAbove t (u ∷ us) = text_ltb t u ≡ true

abbrev pub IsIncreasing : List Text → Type 0
IsIncreasing [] = Unit
IsIncreasing (t ∷ ts) = IsAbove t ts × IsIncreasing ts

insert_sorted-IsAbove :
    (t u : Text) (us : List Text)
    → text_ltb u t ≡ true
    → IsAbove u us
    → IsAbove u (insert_sorted t us)
unfolding insert_sorted
insert_sorted-IsAbove t u [] p h = p
insert_sorted-IsAbove t u (v ∷ us) p h = ground arith

insert_sorted-IsIncreasing :
    (t : Text) (us : List Text) → IsIncreasing us → IsIncreasing (insert_sorted t us)
unfolding insert_sorted
insert_sorted-IsIncreasing t [] h = (tt, tt)
insert_sorted-IsIncreasing t (u ∷ us) (a, h) = elim (Bool-cases (text_ltb t u)) [
  | inl below ↦ rw below (below, (a, h))
  | inr e ↦ elim (Bool-cases (text_ltb u t)) [
    | inl above ↦
        rw (e, above) (insert_sorted-IsAbove t u us above a, insert_sorted-IsIncreasing t us h)
    | inr same ↦ rw (e, same) (a, h)
  ]
]

pub sorted_set-IsIncreasing : (ts : List Text) → IsIncreasing (sorted_set ts)
unfolding sorted_set
sorted_set-IsIncreasing [] = tt
sorted_set-IsIncreasing (t ∷ ts) =
    insert_sorted-IsIncreasing t (sorted_set ts) (sorted_set-IsIncreasing ts)

mem-insert_sorted :
    (x t : Text) (us : List Text) → mem x (insert_sorted t us) ≡ (str_beq x t || mem x us)
unfolding insert_sorted
mem-insert_sorted x t [] = refl
mem-insert_sorted x t (u ∷ us) =
    ground (arith, mem-insert_sorted x t us, str_iff x t, str_iff x u, text_ltb_trichotomy t u)

pub mem-sorted_set : (x : Text) (ts : List Text) → mem x (sorted_set ts) ≡ mem x ts
unfolding sorted_set
mem-sorted_set x [] = refl
mem-sorted_set x (t ∷ ts) =
    ground (arith, mem-insert_sorted x t (sorted_set ts), mem-sorted_set x ts)
