-- ===== src/Routing/Template/Derivation.antt =====
-- When a path fits a template, as a relation: what each group captured, and how the captures and
-- the literal characters spell the path.
use quick_api.Base.{ℕ, Text, Dict, Bool, true, List, [], ◌∷◌, ◌++◌, ◌≡◌, ◌≢◌, All}
use quick_api.Routing.Template.{Piece, lit, one, many, not_slash, not_newline}

-- The text that a group may capture: it is not empty, and has allowed characters only.
abbrev pub IsRun : (ℕ → Bool) → Text → Type 0
IsRun ok t = (t ≢ []) × All (λ c. ok c ≡ true) t

pub data Fits : List Piece → Text → Dict Text → Type 0 where
  done : Fits [] [] []
  char :
      {a c : ℕ} {ps : List Piece} {s : Text} {d : Dict Text}
      → a ≡ c
      → Fits ps s d
      → Fits (lit a ∷ ps) (c ∷ s) d
  part :
      {name t : Text} {ps : List Piece} {s u : Text} {d : Dict Text}
      → IsRun not_slash t
      → u ≡ t ++ s
      → Fits ps s d
      → Fits (one name ∷ ps) u ((name, t) ∷ d)
  tail :
      {name t : Text} {ps : List Piece} {s u : Text} {d : Dict Text}
      → IsRun not_newline t
      → u ≡ t ++ s
      → Fits ps s d
      → Fits (many name ∷ ps) u ((name, t) ∷ d)

-- The path that a template and captured texts spell, read in order.
unfoldable pub spell : List Piece → Dict Text → Text
spell [] d = []
spell (lit c ∷ ps) d = c ∷ spell ps d
spell (one name ∷ ps) [] = []
spell (one name ∷ ps) ((k, t) ∷ d) = t ++ spell ps d
spell (many name ∷ ps) [] = []
spell (many name ∷ ps) ((k, t) ∷ d) = t ++ spell ps d

-- The names of the groups, in order.
unfoldable pub group_names : List Piece → List Text
group_names [] = []
group_names (lit c ∷ ps) = group_names ps
group_names (one name ∷ ps) = name ∷ group_names ps
group_names (many name ∷ ps) = name ∷ group_names ps
