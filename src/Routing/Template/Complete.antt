-- ===== src/Routing/Template/Complete.antt =====
-- If the path fits the template in some way, `match_pieces` finds a way.
use mathlib.Core.List.{append_assoc}
use quick_api.Base.{
  ℕ, Text, Dict, Bool, true, Option, List, [], ◌∷◌, ◌++◌, ◌≡◌, ◌≢◌, refl, All, arith, is_some,
}
use quick_api.Routing.Template.{Piece, not_slash, not_newline, finish, grow, match_pieces}
use quick_api.Routing.Template.Derivation.{Fits, done, char, part, tail}

module _ (ok : ℕ → Bool) (name : Text) (rest : Text → Option (Dict Text)) where
  -- A group that holds a character and whose rest matches is found, whatever it tries before.
  finish-is_some :
      (c : ℕ) (t s : Text) → is_some (rest s) ≡ true → is_some (finish name rest (c ∷ t) s) ≡ true
  unfolding finish
  finish-is_some c t s h = ground arith

  here-is_some :
      (c : ℕ) (t s : Text) → is_some (rest s) ≡ true → is_some (grow ok name rest (c ∷ t) s) ≡ true
  unfolding grow
  here-is_some c t [] h = finish-is_some c t [] h
  here-is_some c t (b ∷ s) h = ground (arith, finish-is_some c t (b ∷ s) h)

  grow-is_some :
      (taken more s : Text)
      → taken ++ more ≢ []
      → All (λ c. ok c ≡ true) more
      → is_some (rest s) ≡ true
      → is_some (grow ok name rest taken (more ++ s)) ≡ true
  unfolding grow
  grow-is_some [] [] s n h r = absurd (n refl)
  grow-is_some (c ∷ t) [] s n h r = here-is_some c t s r
  grow-is_some taken (c ∷ more) s n (good, h) r =
      ground (arith, grow-is_some (taken ++ c ∷ []) more s (rw append_assoc n) h r)

-- A path that fits the template in any way is matched: giving back characters tries every way.
pub match_pieces_complete :
    {ps : List Piece} {s : Text} {d : Dict Text} → Fits ps s d → is_some (match_pieces ps s) ≡ true
unfolding match_pieces
match_pieces_complete done = refl
match_pieces_complete (char same f) = ground (arith, match_pieces_complete f)
match_pieces_complete (part run spelled f) =
    rw spelled (grow-is_some not_slash _ _ [] _ _ run.0 run.1 (match_pieces_complete f))
match_pieces_complete (tail run spelled f) =
    rw spelled (grow-is_some not_newline _ _ [] _ _ run.0 run.1 (match_pieces_complete f))
