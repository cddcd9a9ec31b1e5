-- ===== src/Routing/Template/Print.antt =====
-- Reading a template loses nothing: its pieces spell it.
use quick_api.Base.{
  ℕ, zero, suc, ◌≤◌, Text, Bool, true, false, Option, none, some, List, [], ◌∷◌, ◌++◌, ◌≡◌, refl,
  ap, ◌∙◌, arith, nat_beq, length, drop, starts_with, if◌then◌else◌, Bool-cases, inl, inr, ok,
}
use mathlib.Core.Path.{subst}
use mathlib.Core.List.{append_assoc}
use quick_api.Routing.Template.{
  Piece, lit, one, many, name_start, span_name, close, group, piece, next_piece, compile_from,
  wildcard_end,
}
use quick_api.Routing.Route.{compile_path}

unfoldable pub show_piece : Piece → Text
show_piece (lit c) = c ∷ []
show_piece (one name) = b'{' ∷ name ++ b'}' ∷ []
show_piece (many name) = b'{' ∷ name ++ b':' ∷ b'p' ∷ b'a' ∷ b't' ∷ b'h' ∷ b'}' ∷ []

unfoldable pub show_pieces : List Piece → Text
unfolding show_piece
show_pieces [] = []
show_pieces (p ∷ ps) = show_piece p ++ show_pieces ps

span_name_lem :
    (s : Text) → ((span_name s).0 ++ (span_name s).1 ≡ s) × (length (span_name s).1 ≤ length s)
unfolding span_name
span_name_lem [] = (refl, omega arith)
span_name_lem (c ∷ s) = ground (arith, span_name_lem s)

-- What a reader of a piece from `s` says: the piece and the rest spell what was read.
abbrev Reads : Text → Text → Option (Piece × Text) → Type 0
Reads before s none = Unit
Reads before s (some (p, rest)) = (show_piece p ++ rest ≡ before ++ s) × (length rest ≤ length s)

starts_with-drop : (s p : Text) → starts_with s p ≡ true → p ++ drop (length p) s ≡ s
unfolding starts_with
starts_with-drop s [] e = refl
starts_with-drop [] (d ∷ p) e = cc
starts_with-drop (c ∷ s) (d ∷ p) e = ground (arith, starts_with-drop s p)

length-drop-le {ℓ} : {A : Type ℓ} (n : ℕ) (xs : List A) → length (drop n xs) ≤ length xs
length-drop-le zero xs = omega arith
length-drop-le (suc n) [] = omega arith
length-drop-le (suc n) (x ∷ xs) = omega (arith, length-drop-le n xs)

Reads-if :
    (b : Bool) (before s rest : Text) (p : Piece) (other : Option (Piece × Text))
    → (b ≡ true → Reads before s (some (p, rest)))
    → Reads before s other
    → Reads before s (if b then some (p, rest) else other)
Reads-if true before s rest p other h k = h refl
Reads-if false before s rest p other h k = k

close_lem : (name s : Text) → Reads (b'{' ∷ name) s (close name s)
unfolding close show_piece
close_lem name s =
    Reads-if (starts_with s (b'}' ∷ [])) (b'{' ∷ name) s (drop 1 s) (one name) _
      (λ e. (
        ap (λ t. b'{' ∷ t)
            (append_assoc name (b'}' ∷ []) (drop 1 s)
              ∙ ap (λ t. name ++ t) (starts_with-drop s (b'}' ∷ []) e)),
        length-drop-le 1 s,
      ))
      (Reads-if (starts_with s wildcard_end) (b'{' ∷ name) s (drop 6 s) (many name) none
        (λ e. (
          ap (λ t. b'{' ∷ t)
              (append_assoc name wildcard_end (drop 6 s)
                ∙ ap (λ t. name ++ t) (starts_with-drop s wildcard_end e)),
          length-drop-le 6 s,
        ))
        tt)

Reads-shift :
    (before run rest s : Text) (o : Option (Piece × Text))
    → run ++ rest ≡ s
    → length rest ≤ length s
    → Reads (before ++ run) rest o
    → Reads before s o
Reads-shift before run rest s none e l h = tt
Reads-shift before run rest s (some (p, t)) e l h =
    (h.0 ∙ append_assoc before run rest ∙ ap (λ u. before ++ u) e, omega (arith, h.1))

group_lem : (s : Text) → Reads (b'{' ∷ []) s (group s)
unfolding group
group_lem [] = tt
group_lem (c ∷ s) = elim (Bool-cases (name_start c)) [
  | inl e ↦ rw e (
      Reads-shift (b'{' ∷ []) (c ∷ (span_name s).0) (span_name s).1 (c ∷ s) _
        (ap (λ t. c ∷ t) (span_name_lem s).0) (omega (arith, (span_name_lem s).1))
        (close_lem (c ∷ (span_name s).0) (span_name s).1))
  | inr e ↦ rw e tt
]

next_piece_lem :
    (c : ℕ) (s : Text) (o : Option (Piece × Text))
    → Reads (c ∷ []) s o
    → (show_piece (next_piece c s o).0 ++ (next_piece c s o).1 ≡ c ∷ s)
      × (length (next_piece c s o).1 ≤ length s)
unfolding show_piece
next_piece_lem c s none h = (refl, omega arith)
next_piece_lem c s (some (p, rest)) h = h

piece_lem :
    (c : ℕ) (s : Text)
    → (show_piece (piece c s).0 ++ (piece c s).1 ≡ c ∷ s) × (length (piece c s).1 ≤ length s)
unfolding piece
piece_lem c s = elim (Bool-cases (nat_beq c b'{')) [
  | inl e ↦
      let brace : b'{' ≡ c = ground (arith, e) in
      rw e (
        next_piece_lem c s (group s)
          (subst (λ (d : ℕ). Reads (d ∷ []) s (group s)) brace (group_lem s)))
  | inr e ↦ rw e (next_piece_lem c s none tt)
]

show_pieces-compile_from :
    (fuel : ℕ) (s : Text) → length s ≤ fuel → show_pieces (compile_from fuel s) ≡ s
unfolding compile_from show_pieces
show_pieces-compile_from zero [] h = refl
show_pieces-compile_from zero (c ∷ s) h = absurd (omega arith)
show_pieces-compile_from (suc fuel) [] h = refl
show_pieces-compile_from (suc fuel) (c ∷ s) h =
    ap (λ t. show_piece (piece c s).0 ++ t)
      (show_pieces-compile_from fuel (piece c s).1 (omega (arith, (piece_lem c s).1)))
    ∙ (piece_lem c s).0

-- A template that compiles is spelled by its pieces, so no part of it is lost or read twice.
pub show_pieces-compile_path :
    (path : Text) (ps : List Piece) → compile_path path ≡ ok ps → show_pieces ps ≡ path
unfolding compile_path
show_pieces-compile_path path ps e =
    let same : compile_from (length path) path ≡ ps = ground (arith, e) in
    rw (← same) (show_pieces-compile_from (length path) path (omega arith))
