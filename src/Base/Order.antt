-- ===== src/Base/Order.antt =====
-- The order of texts by code points, and `sorted(set(...))`.
pub mod Laws
use quick_api.Base.Strings.{Text, str_beq}
use mathlib.Core.Bool.{Bool, true, false, ◌&&◌, ◌||◌}
use mathlib.Core.List.{List, [], ◌∷◌}
use quick_api.Base.Tests.{ltb, nat_beq, if◌then◌else◌}

-- `t in ts`
abbrev pub mem : Text → List Text → Bool
mem t [] = false
mem t (u ∷ us) = str_beq t u || mem t us

unfoldable pub text_ltb : Text → Text → Bool
text_ltb s [] = false
text_ltb [] (d ∷ t) = true
text_ltb (c ∷ s) (d ∷ t) = ltb c d || (nat_beq c d && text_ltb s t)

-- A text that is there is not put in again.
unfoldable pub insert_sorted : Text → List Text → List Text
unfolding text_ltb
insert_sorted t [] = t ∷ []
insert_sorted t (u ∷ us) =
    let later = insert_sorted t us in
    if text_ltb t u then t ∷ u ∷ us else if text_ltb u t then u ∷ later else u ∷ us

unfoldable pub sorted_set : List Text → List Text
unfolding insert_sorted
sorted_set [] = []
sorted_set (t ∷ ts) = insert_sorted t (sorted_set ts)
