-- ===== src/Response/Chunks.antt =====
-- `JSONResponse.iter_bytes`: the payload in chunks of a fixed size.
use quick_api.Base.{
  ℕ, zero, suc, ◌≤◌, List, [], ◌∷◌, ◌++◌, ◌≡◌, ◌≢◌, refl, ap, ◌∙◌, arith, length, take, drop, All,
}
use mathlib.Core.List.{flatten}

-- `range(0, len(payload), chunk_size)`, one slice for each offset; a round for each byte is enough.
unfoldable pub chunks_from : ℕ → ℕ → List ℕ → List (List ℕ)
chunks_from zero chunk_size payload = []
chunks_from (suc fuel) chunk_size [] = []
chunks_from (suc fuel) chunk_size (b ∷ payload) =
    take chunk_size (b ∷ payload) ∷ chunks_from fuel chunk_size (drop chunk_size (b ∷ payload))

unfoldable pub iter_bytes : ℕ → List ℕ → List (List ℕ)
unfolding chunks_from flatten
iter_bytes chunk_size payload = chunks_from (length payload) chunk_size payload

take-drop {ℓ} : {A : Type ℓ} (n : ℕ) (xs : List A) → take n xs ++ drop n xs ≡ xs
take-drop zero xs = refl
take-drop (suc n) [] = refl
take-drop (suc n) (x ∷ xs) = ap (λ r. x ∷ r) (take-drop n xs)

length-drop-le {ℓ} : {A : Type ℓ} (n : ℕ) (xs : List A) → length (drop n xs) ≤ length xs
length-drop-le zero xs = omega arith
length-drop-le (suc n) [] = omega arith
length-drop-le (suc n) (x ∷ xs) = omega (arith, length-drop-le n xs)

length-take-le {ℓ} : {A : Type ℓ} (n : ℕ) (xs : List A) → length (take n xs) ≤ n
length-take-le zero xs = omega arith
length-take-le (suc n) [] = omega arith
length-take-le (suc n) (x ∷ xs) = omega (arith, length-take-le n xs)

flatten-chunks_from :
    (fuel k : ℕ) (payload : List ℕ)
    → length payload ≤ fuel
    → flatten (chunks_from fuel (suc k) payload) ≡ payload
unfolding chunks_from flatten
flatten-chunks_from zero k [] h = refl
flatten-chunks_from zero k (b ∷ payload) h = absurd (omega arith)
flatten-chunks_from (suc fuel) k [] h = refl
flatten-chunks_from (suc fuel) k (b ∷ payload) h =
    ap (λ (r : List ℕ). b ∷ take k payload ++ r)
      (flatten-chunks_from fuel k (drop k payload) (omega (arith, length-drop-le k payload)))
    ∙ ap (λ (r : List ℕ). b ∷ r) (take-drop k payload)

chunks_from-le :
    (fuel k : ℕ) (payload : List ℕ)
    → All (λ c. (length c ≤ suc k) × (c ≢ [])) (chunks_from fuel (suc k) payload)
unfolding chunks_from flatten
chunks_from-le zero k payload = tt
chunks_from-le (suc fuel) k [] = tt
chunks_from-le (suc fuel) k (b ∷ payload) =
    ((omega (arith, length-take-le k payload), (λ e. cc)), chunks_from-le fuel k (drop k payload))

-- The chunks of a payload, in order, are the payload; each holds a byte at least and the chunk
-- size at most. The chunk size is not 0.
pub iter_bytes_lem :
    (k : ℕ) (payload : List ℕ)
    → (flatten (iter_bytes (suc k) payload) ≡ payload)
      × All (λ c. (length c ≤ suc k) × (c ≢ [])) (iter_bytes (suc k) payload)
unfolding iter_bytes
iter_bytes_lem k payload = (
  flatten-chunks_from (length payload) k payload (omega arith),
  chunks_from-le (length payload) k payload,
)
