-- ===== src/Ml/Finders/Critical.antt =====
-- Which finders of the guard answer with a critical signal.
use quick_api.Base.{
  Text, codes, lower, contains, Bool, true, ◌&&◌, ◌||◌, List, [], ◌∷◌, ◌++◌, ◌≡◌, inl, inr, refl,
  any, keep, ltb, take, arith, Bool-cases,
}
use quick_api.Http.{Request}
use quick_api.Http.Header.{Headers}
use quick_api.Ml.Tokens.{TokenGroup, token_groups}
use quick_api.Ml.Floats.{Floats}
use quick_api.Ml.Signals.{GuardSignal, is_critical}
use quick_api.Ml.Shapes.{GuardLimits}
use quick_api.Ml.Profile.{Codecs, RequestProfile, raw_of}
use quick_api.Ml.Finders.{
  agent_signals, type_signals, route_signals, query_signals, size_signals, profile_signals,
  header_signals, control_signals, payload_signals, group_signal, group_signals,
}
use quick_api.Ml.Score.{GuardConfig}

any-append {ℓ} :
    {A : Type ℓ} (p : A → Bool) (xs ys : List A) → any p (xs ++ ys) ≡ any p xs || any p ys
any-append p [] ys = refl
any-append p (x ∷ xs) ys = ground (arith, any-append p xs ys)

-- Some header line has a carriage return, a line feed or a null character.
abbrev pub has_control : Headers → Bool
has_control h =
    any
      (λ e.
        any (λ t. contains t (e.0 ++ (codes ": " ++ e.1))) ((13 ∷ []) ∷ (10 ∷ []) ∷ (0 ∷ []) ∷ []))
      h

-- Some group of a critical severity has a token that the text contains.
abbrev pub has_token : List TokenGroup → Text → Bool
has_token ts text = any (λ t. is_critical t.severity && any (λ w. contains w text) t.tokens) ts

-- The text that the guard searches for tokens: the path and the start of the body.
abbrev pub payload_text : Codecs → Request → RequestProfile → Text
payload_text c req p = lower p.path ++ (codes " " ++ lower (c.decode (take 16_384 (raw_of c req))))

module _ {F : Type 0} ⦃n : Floats F⦄ where
  abbrev pub grave : GuardSignal F → Bool
  grave s = is_critical s.severity

  pub in_left :
      (p : GuardSignal F → Bool) (xs ys : List (GuardSignal F))
      → any p xs ≡ true
      → any p (xs ++ ys) ≡ true
  in_left p xs ys e = ground (arith, any-append p xs ys, e)

  pub in_right :
      (p : GuardSignal F → Bool) (xs ys : List (GuardSignal F))
      → any p ys ≡ true
      → any p (xs ++ ys) ≡ true
  in_right p xs ys e = ground (arith, any-append p xs ys, e)

  control_signals-critical :
      (g : GuardConfig F) (h : Headers)
      → has_control h ≡ true
      → any grave (control_signals h) ≡ true
  unfolding control_signals
  control_signals-critical g [] e = absurd (cc e)
  control_signals-critical g ((key, content) ∷ h) e =
      elim (Bool-cases (
        any (λ t. contains t (key ++ (codes ": " ++ content)))
          ((13 ∷ []) ∷ (10 ∷ []) ∷ (0 ∷ []) ∷ []))) [
            | inl bad ↦ rw (bad) refl
            | inr fine ↦ rw (fine) (control_signals-critical g h (ground (arith, e, fine)))
          ]

  pub header_signals-critical :
      (g : GuardConfig F) (req : Request) (p : RequestProfile)
      → has_control req.headers ≡ true
      → any grave (header_signals req p) ≡ true
  unfolding header_signals
  header_signals-critical g req p e =
      in_right grave (agent_signals p) (type_signals p ++ control_signals req.headers) (
        in_right grave (type_signals p) (control_signals req.headers)
          (control_signals-critical g req.headers e))

  pub profile_signals-critical :
      (g : GuardConfig F) (lim : GuardLimits) (p : RequestProfile)
      → ltb lim.max_body_size p.body_bytes ≡ true
      → any grave (profile_signals lim p) ≡ true
  unfolding profile_signals size_signals
  profile_signals-critical g lim p e =
      in_right grave (route_signals p) (size_signals lim p ++ query_signals p)
        (in_left grave (size_signals lim p) (query_signals p) (rw (e) refl))

  group_signal-critical :
      (g : GuardConfig F) (t : TokenGroup) (text : Text) (tokens : List Text)
      → is_critical t.severity ≡ true
      → any (λ w. contains w text) tokens ≡ true
      → any grave (group_signal t (keep (λ w. contains w text) tokens)) ≡ true
  unfolding keep
  group_signal-critical g t text [] c e = absurd (cc e)
  group_signal-critical g t text (w ∷ ws) c e = elim (Bool-cases (contains w text)) [
    | inl found ↦ rw (found, c) refl
    | inr other ↦ rw (other) (group_signal-critical g t text ws c (ground (arith, e, other)))
  ]

  group_signals-critical :
      (g : GuardConfig F) (ts : List TokenGroup) (text : Text)
      → has_token ts text ≡ true
      → any grave (group_signals ts text) ≡ true
  unfolding group_signals
  group_signals-critical g [] text e = absurd (cc e)
  group_signals-critical g (t ∷ ts) text e =
      elim (Bool-cases (is_critical t.severity && any (λ w. contains w text) t.tokens)) [
        | inl found ↦
            in_left grave (group_signal t (keep (λ w. contains w text) t.tokens))
              (group_signals ts text)
              (group_signal-critical g t text t.tokens (ground (arith, found))
                (ground (arith, found)))
        | inr other ↦
            in_right grave (group_signal t (keep (λ w. contains w text) t.tokens))
              (group_signals ts text) (group_signals-critical g ts text (ground (arith, e, other)))
      ]

  pub payload_signals-critical :
      (g : GuardConfig F) (c : Codecs) (req : Request) (p : RequestProfile)
      → has_token token_groups (payload_text c req p) ≡ true
      → any grave (payload_signals c req p) ≡ true
  unfolding payload_signals
  payload_signals-critical g c req p e =
      in_left grave (group_signals token_groups (payload_text c req p)) _
        (group_signals-critical g token_groups (payload_text c req p) e)
