-- ===== src/Security/Guard/Laws.antt =====
-- What a request that the guard lets through satisfies, and what a rejection leaves unchanged.
use quick_api.Base.{
  ℕ, ◌≤◌, Text, codes, lower, contains, Value, Bool, Option, some, true, false, not, none, List, [],
  ◌∷◌, ◌++◌, ◌≡◌, refl, ◌⊎◌, inl, inr, if◌then◌else◌, length, ltb, any, All, arith, Bool-cases,
  Option-cases, is_none, ◌&&◌,
}
use quick_api.Http.{Request}
use quick_api.Http.Header.{Headers}
use quick_api.Security.RateLimit.{allow, preset_of}
use quick_api.Security.Guard.{
  suspicious_path_tokens, suspicious_body_tokens, suspicious_header_tokens, first_token, bad_header,
  body_text, detect, wrong_content_type, SecurityGuard, check, check_rate,
}

first_token-none :
    (ts : List Text) (text : Text)
    → first_token ts text ≡ none
    → All (λ t. contains t text ≡ false) ts
unfolding first_token
first_token-none [] text e = tt
first_token-none (t ∷ ts) text e = ground (arith, e, first_token-none ts text)

bad_header-none :
    (h : Headers)
    → bad_header h ≡ none
    → All (λ e. any (λ t. contains t (e.0 ++ codes ": " ++ e.1)) suspicious_header_tokens ≡ false) h
unfolding bad_header
bad_header-none [] e = tt
bad_header-none ((key, content) ∷ h) e = ground (arith, e, bad_header-none h)

-- The four gates of `check`: what is left of the state behind them.
gated :
    {R S : Type 0} (big on : Bool) (found : Option Value) (wrong : Bool) (too_big media : Option R)
    (report : Value → Option R) (g : S) (last : Option R × S)
    → (let answer : Option R × S =
          if big
          then (too_big, g)
          else if not on
          then (none, g)
          else elim found [ some v ↦ (report v, g) | none ↦ if wrong then (media, g) else last ] in
        answer.1)
      ≡ (if not big && on && is_none found && not wrong then last.1 else g)
gated true on found wrong too_big media report g last = refl
gated false false found wrong too_big media report g last = refl
gated false true (some v) wrong too_big media report g last = refl
gated false true none true too_big media report g last = refl
gated false true none false too_big media report g last = refl

module _ (shown : Value → Text) (decode : List ℕ → Text) where
  -- No blocked pattern in the path, the header lines and the searched text of the body.
  pub record IsClean (req : Request) : Type 0 where
    pub path : All (λ t. contains t (lower req.path) ≡ false) suspicious_path_tokens
    pub headers :
        All
          (λ e. any (λ t. contains t (e.0 ++ codes ": " ++ e.1)) suspicious_header_tokens ≡ false)
          req.headers
    pub body : All (λ t. contains t (body_text shown decode req) ≡ false) suspicious_body_tokens

  detect_parts :
      (req : Request)
      → detect shown decode req ≡ none
      → (first_token suspicious_path_tokens (lower req.path) ≡ none)
        × (bad_header req.headers ≡ none)
        × (first_token suspicious_body_tokens (body_text shown decode req) ≡ none)
  unfolding detect
  detect_parts req e = ground (arith, e)

  detect-IsClean : (req : Request) → detect shown decode req ≡ none → IsClean req
  detect-IsClean req e =
      let (p, h, b) = detect_parts req e in
      record {
        path = first_token-none suspicious_path_tokens (lower req.path) p;
        headers = bad_header-none req.headers h;
        body = first_token-none suspicious_body_tokens (body_text shown decode req) b;
      }

  -- What an admitted request satisfies: the size always, the rest when the guard is enabled.
  pub record IsAdmitted (g : SecurityGuard) (now : ℕ) (req : Request) : Type 0 where
    pub fits : length req.raw_body ≤ g.max_body_size
    pub guarded :
        (g.enabled ≡ false)
        ⊎ (IsClean req
            × (wrong_content_type req ≡ false)
            × ((allow (preset_of (codes "default")) g.buckets now req.ip).0 ≡ true))

  module _ (new_id : Text) where
    check_rate-none :
        (g : SecurityGuard) (now : ℕ) (req : Request)
        → (check_rate shown decode new_id g now req).0 ≡ none
        → (allow (preset_of (codes "default")) g.buckets now req.ip).0 ≡ true
    unfolding check_rate
    check_rate-none g now req e = ground (arith, e)

    check_parts :
        (g : SecurityGuard) (now : ℕ) (req : Request)
        → (check shown decode new_id g now req).0 ≡ none
        → (ltb g.max_body_size (length req.raw_body) ≡ false)
          × ((g.enabled ≡ false)
              ⊎ ((detect shown decode req ≡ none)
                  × (wrong_content_type req ≡ false)
                  × ((check_rate shown decode new_id g now req).0 ≡ none)))
    unfolding check
    check_parts g now req e = elim (Bool-cases (ltb g.max_body_size (length req.raw_body))) [
      | inl big ↦ cc (rw (big, check) at e)
      | inr small ↦ elim (Bool-cases g.enabled) [
        | inr off ↦ (small, inl off)
        | inl on ↦ elim (Option-cases (detect shown decode req)) [
          | inr (v, found) ↦ cc (rw (small, on, found, check) at e)
          | inl clean ↦ elim (Bool-cases (wrong_content_type req)) [
            | inl wrong ↦ cc (rw (small, on, clean, wrong, check) at e)
            | inr right ↦ (small, inr (clean, right, rw (small, on, clean, right, check) at e))
          ]
        ]
      ]
    ]

    -- A request that the guard lets through has a body within the limit; and if the guard is
    -- enabled, no blocked pattern in its path, its header lines or the text of the first 4096 bytes
    -- of its body (of the printed body where no bytes came), a JSON content type where its method
    -- and body ask for one, and the rate limiter's consent.
    pub check-IsAdmitted :
        (g : SecurityGuard) (now : ℕ) (req : Request)
        → (check shown decode new_id g now req).0 ≡ none
        → IsAdmitted g now req
    check-IsAdmitted g now req e =
        let (fits, rest) = check_parts g now req e in
        record {
          fits = ground (arith, fits);
          guarded = elim rest [
            | inl off ↦ inl off
            | inr (clean, media, rate) ↦
                inr (detect-IsClean req clean, media, check_rate-none g now req rate)
          ];
        }

    -- The settings never change, and a request uses up a place of the rate limiter only if the
    -- guard is enabled and neither its size, nor a blocked pattern, nor its content type rejects it.
    pub check-buckets :
        (g : SecurityGuard) (now : ℕ) (req : Request)
        → (check shown decode new_id g now req).1 ≡ (
            if not (ltb g.max_body_size (length req.raw_body))
              && g.enabled
              && is_none (detect shown decode req)
              && not (wrong_content_type req)
            then record g { buckets = (allow (preset_of (codes "default")) g.buckets now req.ip).1 }
            else g)
    unfolding check check_rate
    check-buckets g now req =
        gated (ltb g.max_body_size (length req.raw_body)) g.enabled (detect shown decode req)
          (wrong_content_type req) _ _ _ g _
