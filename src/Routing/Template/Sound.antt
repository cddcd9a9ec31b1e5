-- ===== src/Routing/Template/Sound.antt =====
-- What `match_pieces` returns is a way in which the path fits.
use mathlib.Core.List.{append_assoc}
use quick_api.Base.{
  ℕ, Text, Dict, Bool, true, Option, some, List, [], ◌∷◌, ◌++◌, ◌≡◌, refl, All, All-append, arith,
  Bool-cases, Option-cases, inl, inr,
}
use quick_api.Routing.Template.{
  Piece, lit, one, many, not_slash, not_newline, finish, grow, match_pieces,
}
use quick_api.Routing.Template.Derivation.{IsRun, Fits, done, char, part, tail}

-- What a group has found: its text, the rest of the path, and the captures of the rest.
pub record Found (ok : ℕ → Bool) (name : Text) (rest : Text → Option (Dict Text)) (u : Text)
    (d : Dict Text) : Type 0 where
  pub taken : Text
  pub left : Text
  pub found : Dict Text
  pub run : IsRun ok taken
  pub spelled : u ≡ taken ++ left
  pub matched : rest left ≡ some found
  pub listed : d ≡ (name, taken) ∷ found

module _ (ok : ℕ → Bool) (name : Text) (rest : Text → Option (Dict Text)) where
  finish-Found :
      (t s : Text) (d : Dict Text)
      → All (λ c. ok c ≡ true) t
      → finish name rest t s ≡ some d
      → Found ok name rest (t ++ s) d
  unfolding finish
  finish-Found [] s d h e = cc
  finish-Found (c ∷ t) s d h e = elim (Option-cases (rest s)) [
    | inl miss ↦ absurd (ground arith)
    | inr (found, hit) ↦ record {
      taken = c ∷ t;
      left = s;
      found = found;
      run = ((λ w. cc), h);
      spelled = refl;
      matched = hit;
      listed = ground arith;
    }
  ]

  grow-Found :
      (t s : Text) (d : Dict Text)
      → All (λ c. ok c ≡ true) t
      → grow ok name rest t s ≡ some d
      → Found ok name rest (t ++ s) d
  unfolding grow
  grow-Found t [] d h e = finish-Found t [] d h e
  grow-Found t (c ∷ s) d h e = elim (Bool-cases (ok c)) [
    | inl good ↦ elim (Option-cases (grow ok name rest (t ++ c ∷ []) s)) [
      | inl miss ↦ finish-Found t (c ∷ s) d h (ground arith)
      | inr (found, hit) ↦ rw append_assoc at (
          grow-Found (t ++ c ∷ []) s d (All-append (λ c. ok c ≡ true) t (c ∷ []) h (good, tt))
            (ground arith))
    ]
    | inr bad ↦ finish-Found t (c ∷ s) d h (ground arith)
  ]

  pub group-Found :
      (s : Text) (d : Dict Text) → grow ok name rest [] s ≡ some d → Found ok name rest s d
  group-Found s d e = grow-Found [] s d tt e

-- Whatever `match_pieces` returns for a path is a way in which the path fits the template: the
-- literal characters and the captured texts, in order, spell the path; an ordinary group captured
-- a text without slash, a wildcard one without line break, and neither is empty.
pub match_pieces_sound :
    (ps : List Piece) (s : Text) (d : Dict Text) → match_pieces ps s ≡ some d → Fits ps s d
unfolding match_pieces
match_pieces_sound [] [] d e = let empty : d ≡ [] = ground arith in rw empty done
match_pieces_sound [] (c ∷ s) d e = absurd (ground arith)
match_pieces_sound (lit a ∷ ps) [] d e = absurd (ground arith)
match_pieces_sound (lit a ∷ ps) (c ∷ s) d e =
    char (ground arith) (match_pieces_sound ps s d (ground arith))
match_pieces_sound (one name ∷ ps) s d e =
    let f = group-Found not_slash name (match_pieces ps) s d e in
    rw f.listed (part f.run f.spelled (match_pieces_sound ps f.left f.found f.matched))
match_pieces_sound (many name ∷ ps) s d e =
    let f = group-Found not_newline name (match_pieces ps) s d e in
    rw f.listed (tail f.run f.spelled (match_pieces_sound ps f.left f.found f.matched))
