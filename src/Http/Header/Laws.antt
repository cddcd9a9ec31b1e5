-- ===== src/Http/Header/Laws.antt =====
-- Header lookup does not depend on the case in which a name is written.
use quick_api.Base.{
  ℕ, Text, get-put, upper, lower, split, join, some, List, [], ◌∷◌, ◌++◌, map, ◌≡◌, refl, ap, sym,
  ◌∙◌, Bool-cases, inl, inr, ◌==◌, text_eq, if◌then◌else◌, arith, nat_beq, str_iff,
}
use mathlib.Core.Path.{ap₂}
use mathlib.Core.List.{map-append}
use quick_api.Base.Strings.{upper_char, lower_char, split_from}
use quick_api.Http.Header.{capitalize, normalize, set_item, get_header, Headers}

-- Reading a header after a write: the written value if the names agree up to case, else as before.
pub get_header-set_item :
    (h : Headers) (key name value : Text)
    → get_header (set_item h key value) name
      ≡ (if normalize key == normalize name then some value else get_header h name)
unfolding get_header set_item
get_header-set_item h key name value =
    unfold get_header in get-put h (normalize key) (normalize name) value

lower_char-upper_char : (c : ℕ) → lower_char (upper_char c) ≡ lower_char c
unfolding lower_char upper_char
lower_char-upper_char c = ground arith

upper_char-lower_char : (c : ℕ) → upper_char (lower_char c) ≡ upper_char c
unfolding lower_char upper_char
upper_char-lower_char c = ground arith

lower_char-lower_char : (c : ℕ) → lower_char (lower_char c) ≡ lower_char c
unfolding lower_char
lower_char-lower_char c = ground arith

upper_char-upper_char : (c : ℕ) → upper_char (upper_char c) ≡ upper_char c
unfolding upper_char
upper_char-upper_char c = ground arith

lower-lower : (s : Text) → lower (lower s) ≡ lower s
unfolding lower
lower-lower [] = refl
lower-lower (c ∷ s) = ground (arith, lower-lower s, lower_char-lower_char c)

lower-upper : (s : Text) → lower (upper s) ≡ lower s
unfolding lower upper
lower-upper [] = refl
lower-upper (c ∷ s) = ground (arith, lower-upper s, lower_char-upper_char c)

capitalize-lower : (s : Text) → capitalize (lower s) ≡ capitalize s
unfolding capitalize
capitalize-lower [] = refl
capitalize-lower (c ∷ s) = ground (arith, lower-lower s, upper_char-lower_char c)

capitalize-upper : (s : Text) → capitalize (upper s) ≡ capitalize s
unfolding capitalize upper
capitalize-upper [] = refl
capitalize-upper (c ∷ s) = ground (arith, lower-upper s, upper_char-upper_char c)

-- Splitting a text whose letters were mapped, where the map neither makes nor removes a separator.
module _ (f : ℕ → ℕ) (sep : ℕ) (stable : (c : ℕ) → nat_beq (f c) sep ≡ nat_beq c sep) where
  split_from-map :
      (cur s : Text) → split_from sep (map f cur) (map f s) ≡ map (map f) (split_from sep cur s)
  unfolding split_from
  split_from-map cur [] = refl
  split_from-map cur (c ∷ s) =
      let shift : map f cur ++ f c ∷ [] ≡ map f (cur ++ c ∷ []) = sym (map-append f cur (c ∷ [])) in
      let grown =
        ap (λ (r : Text). split_from sep r (map f s)) shift ∙ split_from-map (cur ++ c ∷ []) s in
      let cut = ap (λ (r : List Text). map f cur ∷ r) (split_from-map [] s) in
      elim (Bool-cases (nat_beq c sep)) [
        | inl e ↦ rw (stable c, e) cut
        | inr e ↦ rw (stable c, e) grown
      ]

map-capitalize :
    (f : Text → Text)
    → ((s : Text) → capitalize (f s) ≡ capitalize s)
    → (ps : List Text) → map capitalize (map f ps) ≡ map capitalize ps
map-capitalize f h [] = refl
map-capitalize f h (p ∷ ps) = ap₂ ◌∷◌ (h p) (map-capitalize f h ps)

lower_dash : (c : ℕ) → nat_beq (lower_char c) b'-' ≡ nat_beq c b'-'
unfolding lower_char
lower_dash c = ground arith

upper_dash : (c : ℕ) → nat_beq (upper_char c) b'-' ≡ nat_beq c b'-'
unfolding upper_char
upper_dash c = ground arith

pub normalize-lower : (key : Text) → normalize (lower key) ≡ normalize key
unfolding normalize split lower
normalize-lower key = ap (join (b'-' ∷ [])) (
    ap (map capitalize) (split_from-map lower_char b'-' lower_dash [] key)
    ∙ map-capitalize lower capitalize-lower (split_from b'-' [] key))

pub normalize-upper : (key : Text) → normalize (upper key) ≡ normalize key
unfolding normalize split upper
normalize-upper key = ap (join (b'-' ∷ [])) (
    ap (map capitalize) (split_from-map upper_char b'-' upper_dash [] key)
    ∙ map-capitalize upper capitalize-upper (split_from b'-' [] key))

-- A header that is set under one spelling of a name is read back under every spelling that has the
-- same lower case.
get_header-set_item_caseless :
    (h : Headers) (key name value : Text)
    → lower key ≡ lower name
    → get_header (set_item h key value) name ≡ some value
get_header-set_item_caseless h key name value same =
    let e : normalize key ≡ normalize name =
      sym (normalize-lower key) ∙ ap normalize same ∙ normalize-lower name in
    rw get_header-set_item (ground (arith, e, str_iff (normalize key) (normalize name)))
