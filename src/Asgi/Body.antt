-- ===== src/Asgi/Body.antt =====
-- What the reading of a body keeps, and its bound.
use quick_api.Base.{
  ℕ, ◌+◌, Bool, true, false, List, [], ◌∷◌, ◌++◌, length, length-append, ltb, if◌then◌else◌, ◌≡◌,
  refl, sym, ap, ◌∙◌, arith, inl, inr, Bool-cases,
}
use quick_api.Asgi.{
  Message, part, disconnect, unknown, Reading, waiting, too_large, complete, read_from, read_body,
}

-- The parts of a body, up to the one that says that none follows, or the end of the connection.
abbrev pub parts_of : List Message → List ℕ
parts_of [] = []
parts_of (disconnect ∷ ms) = []
parts_of (unknown ∷ ms) = parts_of ms
parts_of (part body true ∷ ms) = body ++ parts_of ms
parts_of (part body false ∷ ms) = body

-- Some message ends the body.
abbrev pub is_ended : List Message → Bool
is_ended [] = false
is_ended (disconnect ∷ ms) = true
is_ended (unknown ∷ ms) = is_ended ms
is_ended (part body true ∷ ms) = is_ended ms
is_ended (part body false ∷ ms) = true

-- What a body of these bytes comes to.
abbrev pub judged : ℕ → Bool → List ℕ → Reading
judged max_bytes ended bytes =
    if ltb max_bytes (length bytes) then too_large else if ended then complete bytes else waiting

append_nil {ℓ} : {A : Type ℓ} (xs : List A) → xs ++ [] ≡ xs
append_nil [] = refl
append_nil (x ∷ xs) = ap (λ r. x ∷ r) (append_nil xs)

append_assoc {ℓ} : {A : Type ℓ} (xs ys zs : List A) → (xs ++ ys) ++ zs ≡ xs ++ (ys ++ zs)
append_assoc [] ys zs = refl
append_assoc (x ∷ xs) ys zs = ap (λ r. x ∷ r) (append_assoc xs ys zs)

judged-large :
    (max_bytes : ℕ) (ended : Bool) (bytes : List ℕ)
    → ltb max_bytes (length bytes) ≡ true
    → judged max_bytes ended bytes ≡ too_large
judged-large max_bytes ended bytes large = rw (large) refl

judged-small :
    (max_bytes : ℕ) (ended : Bool) (bytes : List ℕ)
    → ltb max_bytes (length bytes) ≡ false
    → judged max_bytes ended bytes ≡ (if ended then complete bytes else waiting)
judged-small max_bytes ended bytes small = rw (small) refl

read_from-judged :
    (max_bytes : ℕ) (chunks : List ℕ) (total : ℕ) (ms : List Message)
    → total ≡ length chunks
    → ltb max_bytes total ≡ false
    → read_from max_bytes chunks total ms ≡ judged max_bytes (is_ended ms) (chunks ++ parts_of ms)
unfolding read_from
read_from-judged max_bytes chunks total [] e small =
    rw (append_nil) (sym (judged-small max_bytes false chunks (ground (arith, e, small))))
read_from-judged max_bytes chunks total (disconnect ∷ ms) e small =
    rw (append_nil) (sym (judged-small max_bytes true chunks (ground (arith, e, small))))
read_from-judged max_bytes chunks total (unknown ∷ ms) e small =
    read_from-judged max_bytes chunks total ms e small
read_from-judged max_bytes chunks total (part body true ∷ ms) e small =
    elim (Bool-cases (ltb max_bytes (total + length body))) [
      | inl large ↦ rw (large) (
          sym (
            judged-large max_bytes (is_ended ms) (chunks ++ (body ++ parts_of ms)) (
              ground (
                arith,
                e,
                large,
                length-append chunks (body ++ parts_of ms),
                length-append body (parts_of ms),
              ))))
      | inr fits ↦ rw (fits) (
          read_from-judged max_bytes (chunks ++ body) (total + length body) ms
            (omega (arith, e, length-append chunks body)) fits
          ∙ ap (judged max_bytes (is_ended ms)) (append_assoc chunks body (parts_of ms)))
    ]
read_from-judged max_bytes chunks total (part body false ∷ ms) e small =
    elim (Bool-cases (ltb max_bytes (total + length body))) [
      | inl large ↦ rw (large) (
          sym (
            judged-large max_bytes true (chunks ++ body)
              (ground (arith, e, large, length-append chunks body))))
      | inr fits ↦ rw (fits) (
          sym (
            judged-small max_bytes true (chunks ++ body)
              (ground (arith, e, fits, length-append chunks body))))
    ]

-- The reading of a body keeps exactly the parts that were sent, in their order, up to the last one
-- or to the end of the connection, and never more than the limit: it is refused as too large when
-- they are more than the limit, before or after it has ended, and otherwise waits until it has
-- ended.
pub read_body-judged :
    (max_bytes : ℕ) (ms : List Message)
    → read_body max_bytes ms ≡ judged max_bytes (is_ended ms) (parts_of ms)
unfolding read_body
read_body-judged max_bytes ms = read_from-judged max_bytes [] 0 ms refl (ground (arith))
