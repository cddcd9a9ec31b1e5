-- ===== src/Routing/Template/Laws.antt =====
-- Matching and spelling a path are inverse, and what a template without groups matches.
use quick_api.Base.{
  Text, Dict, keys, none, some, List, ◌∷◌, ◌++◌, ◌≡◌, ◌↔◌, refl, sym, ◌∙◌, ap, arith, Option-cases,
  inl, inr,
}
use mathlib.Core.Path.{ap₂}
use quick_api.Routing.Template.{Piece, match_pieces}
use quick_api.Routing.Template.Derivation.{Fits, done, char, part, tail, spell, group_names}
use quick_api.Routing.Template.Sound.{match_pieces_sound}
use quick_api.Routing.Template.Complete.{match_pieces_complete}

spell_of_Fits : {ps : List Piece} {s : Text} {d : Dict Text} → Fits ps s d → spell ps d ≡ s
unfolding spell
spell_of_Fits done = refl
spell_of_Fits (char same f) = ap₂ ◌∷◌ same (spell_of_Fits f)
spell_of_Fits (part {t} run spelled f) = ap (λ (r : Text). t ++ r) (spell_of_Fits f) ∙ sym spelled
spell_of_Fits (tail {t} run spelled f) = ap (λ (r : Text). t ++ r) (spell_of_Fits f) ∙ sym spelled

keys_of_Fits : {ps : List Piece} {s : Text} {d : Dict Text} → Fits ps s d → keys d ≡ group_names ps
unfolding keys group_names
keys_of_Fits done = refl
keys_of_Fits (char same f) = keys_of_Fits f
keys_of_Fits (part {name} run spelled f) = ap (λ (r : List Text). name ∷ r) (keys_of_Fits f)
keys_of_Fits (tail {name} run spelled f) = ap (λ (r : List Text). name ∷ r) (keys_of_Fits f)

-- Reverse routing: putting the captured texts back into the template gives the path that was
-- matched, and the captures are those of the template's groups, in order.
pub spell-match_pieces :
    (ps : List Piece) (s : Text) (d : Dict Text)
    → match_pieces ps s ≡ some d
    → (spell ps d ≡ s) × (keys d ≡ group_names ps)
spell-match_pieces ps s d e =
    let f = match_pieces_sound ps s d e in (spell_of_Fits f, keys_of_Fits f)

-- A path is refused exactly when it fits the template in no way.
pub match_pieces-none_iff :
    (ps : List Piece) (s : Text) → (match_pieces ps s ≡ none) ↔ ((d : Dict Text) → ¬ (Fits ps s d))
match_pieces-none_iff ps s = (
  λ e d f. ground (arith, e, match_pieces_complete f),
  λ h. elim (Option-cases (match_pieces ps s)) [
    | inl miss ↦ miss
    | inr (d, hit) ↦ absurd (h d (match_pieces_sound ps s d hit))
  ],
)
