-- ===== src/Routing/Template.antt =====
-- `Route._compile_path` and `Route.match` of quickapi/routing/route.py. A template is read into the
-- pieces of the regular expression that the code builds: an escaped character, `(?P<name>[^/]+)`
-- or `(?P<name>.+)`. `match_pieces` is `fullmatch` on such an expression: each group takes as much
-- as it can, and gives back one character at a time.
pub mod Derivation
pub mod Sound
pub mod Complete
pub mod Laws
pub mod Print
use quick_api.Base.{
  ℕ, zero, suc, Text, Dict, Bool, true, false, not, ◌&&◌, ◌||◌, Option, none, some, List, [], ◌∷◌,
  ◌++◌, leb, nat_beq, if◌then◌else◌, starts_with, drop,
}

pub data Piece : Type 0 where
  lit : ℕ → Piece
  -- `{name}`
  one : Text → Piece
  -- `{name:path}`
  many : Text → Piece

-- `[a-zA-Z_]` and `[a-zA-Z0-9_]`
unfoldable pub name_start : ℕ → Bool
name_start c = (leb b'a' c && leb c b'z') || (leb b'A' c && leb c b'Z') || nat_beq c b'_'

unfoldable pub name_char : ℕ → Bool
unfolding name_start
name_char c = name_start c || (leb b'0' c && leb c b'9')

-- The longest run of name characters, and what follows it.
unfoldable pub span_name : Text → Text × Text
unfolding name_char
span_name [] = ([], [])
span_name (c ∷ s) =
    let (run, rest) = span_name s in if name_char c then (c ∷ run, rest) else ([], c ∷ s)

-- `:path}`
abbrev pub wildcard_end : Text
wildcard_end = b':' ∷ b'p' ∷ b'a' ∷ b't' ∷ b'h' ∷ b'}' ∷ []

-- What stands behind a name: `}` ends an ordinary group and `:path}` a wildcard.
unfoldable pub close : Text → Text → Option (Piece × Text)
unfolding starts_with
close name s =
    if starts_with s (b'}' ∷ [])
    then some (one name, drop 1 s)
    else if starts_with s wildcard_end
    then some (many name, drop 6 s)
    else none

-- A group whose `{` has been read.
unfoldable pub group : Text → Option (Piece × Text)
unfolding span_name close name_start
group [] = none
group (c ∷ s) = let (run, rest) = span_name s in if name_start c then close (c ∷ run) rest else none

abbrev pub next_piece : ℕ → Text → Option (Piece × Text) → Piece × Text
next_piece c s none = (lit c, s)
next_piece c s (some found) = found

-- The first piece of `c ∷ s`, with the text behind it.
unfoldable pub piece : ℕ → Text → Piece × Text
unfolding group
piece c s = next_piece c s (if nat_beq c b'{' then group s else none)

-- Each round reads a character at least, so a round for each character is enough.
unfoldable pub compile_from : ℕ → Text → List Piece
unfolding piece
compile_from zero s = []
compile_from (suc fuel) [] = []
compile_from (suc fuel) (c ∷ s) = let (p, rest) = piece c s in p ∷ compile_from fuel rest

-- `[^/]` and `.`
unfoldable pub not_slash : ℕ → Bool
not_slash c = not (nat_beq c b'/')

unfoldable pub not_newline : ℕ → Bool
not_newline c = not (nat_beq c 10)

-- A group that has taken `taken` ends here: it holds a character at least, and the rest matches.
unfoldable pub finish : Text → (Text → Option (Dict Text)) → Text → Text → Option (Dict Text)
finish name rest [] s = none
finish name rest (c ∷ taken) s = elim (rest s) [
  | none ↦ none
  | some found ↦ some ((name, c ∷ taken) ∷ found)
]

abbrev pub first_match : Option (Dict Text) → Option (Dict Text) → Option (Dict Text)
first_match none later = later
first_match (some found) later = some found

-- A greedy group: one more character is tried first.
unfoldable pub grow :
    (ℕ → Bool) → Text → (Text → Option (Dict Text)) → Text → Text → Option (Dict Text)
unfolding finish
grow ok name rest taken [] = finish name rest taken []
grow ok name rest taken (c ∷ s) =
    let longer = grow ok name rest (taken ++ c ∷ []) s in
    let here = finish name rest taken (c ∷ s) in if ok c then first_match longer here else here

unfoldable pub match_pieces : List Piece → Text → Option (Dict Text)
unfolding grow not_slash not_newline
match_pieces [] [] = some []
match_pieces [] (c ∷ s) = none
match_pieces (lit a ∷ ps) [] = none
match_pieces (lit a ∷ ps) (c ∷ s) =
    let rest = match_pieces ps s in if nat_beq a c then rest else none
match_pieces (one name ∷ ps) s = grow not_slash name (match_pieces ps) [] s
match_pieces (many name ∷ ps) s = grow not_newline name (match_pieces ps) [] s
