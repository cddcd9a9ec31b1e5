-- ===== src/Webhooks/Signed.antt =====
-- What the signature of a webhook guards.
use quick_api.Base.{
  ℕ, ap, ◌∙◌, Text, codes, get, get-own, Value, true, false, ◌&&◌, Option, some, List, [], ◌∷◌,
  ◌++◌, ◌≡◌, refl, text_eq, str_iff, starts_with, Option-cases, arith, ◌||◌, leb, Bool, sym, ok,
  Result-cases, ok_eq, All, inl, inr,
}
use quick_api.Webhooks.{
  WebhookResult, WebhookProcessor, Handler, register, remove_from, received, compare_digest,
  handled, verify, deliver, dispatch, is_ascii,
}

compare_digest-true : (a b : Text) → compare_digest a b ≡ ok true → a ≡ b
unfolding compare_digest
compare_digest-true a b e = ground (arith, e, str_iff a b)

-- The characters of a hexadecimal digest.
abbrev pub is_hex : ℕ → Bool
is_hex c = (leb b'0' c && leb c b'9') || (leb b'a' c && leb c b'f')

remove_from-hex : (t : Text) → All (λ c. is_hex c ≡ true) t → remove_from (codes "sha256=") 0 t ≡ t
unfolding remove_from codes starts_with
remove_from-hex [] h = refl
remove_from-hex (c ∷ t) (h, k) = ground (arith, h, remove_from-hex t k)

received-hex :
    (t : Text) → All (λ c. is_hex c ≡ true) t → received (some (codes "sha256=" ++ t)) ≡ t
unfolding received codes remove_from starts_with
received-hex t h = remove_from-hex t h

hex_ascii : (t : Text) → All (λ c. is_hex c ≡ true) t → is_ascii t ≡ true
hex_ascii [] h = refl
hex_ascii (c ∷ t) (h, k) = ground (arith, h, hex_ascii t k)

compare_digest-same : (t : Text) → is_ascii t ≡ true → compare_digest t t ≡ ok true
unfolding compare_digest
compare_digest-same t h = ground (arith, h, str_iff t t)

deliver-register :
    (w : WebhookProcessor) (event : Text) (handler : Handler) (payload : Value)
    (secret : Option Text)
    → deliver (register w event handler secret) event payload ≡ handled event (handler payload)
unfolding deliver register
deliver-register w event handler payload secret =
    rw (get-own w.handlers event handler, deliver) refl

deliver-accepted :
    (w : WebhookProcessor) (event : Text) (payload : Value) (result : WebhookResult)
    → deliver w event payload ≡ result
    → result.accepted ≡ true
    → (handler : Handler) × (get w.handlers event ≡ some handler)
      × (handler payload ≡ ok result.output)
unfolding deliver
deliver-accepted w event payload result e good = elim (Option-cases (get w.handlers event)) [
  | inl gone ↦ absurd (cc (ap (λ r. r.accepted) (rw (gone, deliver) at e), good))
  | inr (handler, there) ↦
      let same : handled event (handler payload) ≡ result = rw (there, deliver) at e in
      elim (Result-cases (handler payload)) [
        | inl (v, fine) ↦ (handler, there, fine ∙ ap (λ r. ok r.output) (rw fine at same))
        | inr (x, bad) ↦ absurd (cc (ap (λ r. r.accepted) (rw bad at same), good))
      ]
]

module _ (digest : Text → List ℕ → Text) where
  verify-true :
      (w : WebhookProcessor) (event : Text) (raw_body : List ℕ) (signature : Option Text) (c : ℕ)
      (s : Text)
      → get w.secrets event ≡ some (c ∷ s)
      → verify digest w event raw_body signature ≡ ok true
      → received signature ≡ digest (c ∷ s) raw_body
  unfolding verify
  verify-true w event raw_body signature c s known e =
      sym (compare_digest-true _ _ (rw (known, verify) at e))

  verify-register :
      (w : WebhookProcessor) (event : Text) (handler : Handler) (raw_body : List ℕ) (c : ℕ)
      (s : Text)
      → ((key : Text) (bytes : List ℕ) → All (λ x. is_hex x ≡ true) (digest key bytes))
      → verify digest
          (register w event handler (some (c ∷ s)))
          event
          raw_body
          (some (codes "sha256=" ++ digest (c ∷ s) raw_body))
        ≡ ok true
  unfolding verify register
  verify-register w event handler raw_body c s hex =
      rw
        (
          get-own w.secrets event (c ∷ s),
          received-hex (digest (c ∷ s) raw_body) (hex (c ∷ s) raw_body),
          verify,
        )
        (compare_digest-same (digest (c ∷ s) raw_body)
          (hex_ascii (digest (c ∷ s) raw_body) (hex (c ∷ s) raw_body)))

  -- When a secret that is not empty is registered for an event, a dispatch that succeeds had the
  -- digest of the raw body under that secret as its signature, and its output is what the
  -- event's handler returned on the payload.
  pub dispatch-signed :
      (w : WebhookProcessor) (event : Text) (payload : Value) (raw_body : List ℕ)
      (signature : Option Text) (c : ℕ) (s : Text) (result : WebhookResult)
      → get w.secrets event ≡ some (c ∷ s)
      → dispatch digest w event payload raw_body signature ≡ ok result
      → result.accepted ≡ true
      → (received signature ≡ digest (c ∷ s) raw_body)
        × ((handler : Handler) × (get w.handlers event ≡ some handler)
            × (handler payload ≡ ok result.output))
  unfolding dispatch
  dispatch-signed w event payload raw_body signature c s result known e good =
      elim (Result-cases (verify digest w event raw_body signature)) [
        | inr (x, bad) ↦ absurd (ground (arith, e, bad))
        | inl (true, right) ↦
            let same : deliver w event payload ≡ result = ok_eq _ _ (rw (right, dispatch) at e) in
            (
              verify-true w event raw_body signature c s known right,
              deliver-accepted w event payload result same good,
            )
        | inl (false, wrong) ↦
            let same = ok_eq _ _ (rw (wrong, dispatch) at e) in absurd (cc (same, good))
      ]

  -- A handler that is registered with a secret gets the payload of every dispatch whose signature
  -- is `sha256=` and the digest of the raw body under the secret, the digest being hexadecimal;
  -- what it returns or raises is the result.
  pub dispatch-register :
      (w : WebhookProcessor) (event : Text) (handler : Handler) (payload : Value)
      (raw_body : List ℕ) (c : ℕ) (s : Text)
      → ((key : Text) (bytes : List ℕ) → All (λ x. is_hex x ≡ true) (digest key bytes))
      → dispatch digest
          (register w event handler (some (c ∷ s)))
          event
          payload
          raw_body
          (some (codes "sha256=" ++ digest (c ∷ s) raw_body))
        ≡ ok (handled event (handler payload))
  unfolding dispatch register
  dispatch-register w event handler payload raw_body c s hex =
      rw
        (
          verify-register w event handler raw_body c s hex,
          deliver-register w event handler payload (some (c ∷ s)),
          dispatch,
        )
        refl
