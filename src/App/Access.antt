-- ===== src/App/Access.antt =====
-- Who passes the authorisation of a route.
use quick_api.Base.{
  ap, sym, Text, codes, Value, truthy, true, false, Option, none, some, List, [], ◌∷◌, ◌≡◌, ◌≢◌,
  ◌⊎◌, inl, inr, mem, Result, ok, Bool-cases, Option-cases, Result-cases, ok_eq,
}
use quick_api.Http.{Request}
use quick_api.Routing.Route.{Route}
use quick_api.Security.Tokens.{token_from_header}
use quick_api.App.Authorize.{
  AuthConfig, allowed_tokens, auth_entry, auth_of, ask_validator, check_tokens, authorize_token,
  authorize, full_text,
}

-- What lets a token pass, and what the handler then sees of it.
pub data IsGranted (config : AuthConfig) (auth_env token_env : Option Text) (token : Text)
    (req after : Request) : Type 0 where
  by_validator :
      (validator : Text → Request → Result Value) (v : Value)
      → config.auth_validator ≡ some validator
      → validator token req ≡ ok v
      → truthy v ≡ true
      → after ≡ record req { auth = some (auth_of token v) }
      → IsGranted config auth_env token_env token req after
  by_token :
      config.auth_validator ≡ none
      → mem token (allowed_tokens config auth_env token_env) ≡ true
      → after ≡ record req { auth = some (auth_entry token (codes "bearer")) }
      → IsGranted config auth_env token_env token req after

check_tokens-none :
    (tokens : List Text) (new_id token : Text) (req after : Request)
    → check_tokens tokens new_id token req ≡ (none, after)
    → (mem token tokens ≡ true)
      × (after ≡ record req { auth = some (auth_entry token (codes "bearer")) })
unfolding check_tokens
check_tokens-none [] new_id token req after e = absurd (cc (ap (λ r. r.0) e))
check_tokens-none (t ∷ ts) new_id token req after e = elim (Bool-cases (mem token (t ∷ ts))) [
  | inl known ↦ (known, sym (ap (λ r. r.1) (rw (known, check_tokens) at e)))
  | inr strange ↦ absurd (cc (ap (λ r. r.0) (rw (strange, check_tokens) at e)))
]

ask_validator-none :
    (validator : Text → Request → Result Value) (new_id token : Text) (req after : Request)
    → ask_validator validator new_id token req ≡ ok (none, after)
    → (v : Value) × (validator token req ≡ ok v)
      × (truthy v ≡ true)
      × (after ≡ record req { auth = some (auth_of token v) })
unfolding ask_validator
ask_validator-none validator new_id token req after e = elim (Result-cases (validator token req)) [
  | inr (x, bad) ↦ absurd (cc (rw (bad, ask_validator) at e))
  | inl (v, fine) ↦
      let same = ok_eq _ _ (rw (fine, ask_validator) at e) in
      elim (Bool-cases (truthy v)) [
        | inl good ↦ (v, fine, good, sym (ap (λ r. r.1) (rw good at same)))
        | inr empty ↦ absurd (cc (ap (λ r. r.0) (rw empty at same)))
      ]
]

authorize_token-none :
    (config : AuthConfig) (auth_env token_env : Option Text) (new_id token : Text)
    (req after : Request)
    → authorize_token config auth_env token_env new_id token req ≡ ok (none, after)
    → IsGranted config auth_env token_env token req after
unfolding authorize_token
authorize_token-none config auth_env token_env new_id token req after e =
    elim (Option-cases config.auth_validator) [
      | inr (validator, there) ↦
          let (v, fine, good, seen) =
            ask_validator-none validator new_id token req after
              (rw (there, authorize_token) at e) in
          by_validator validator v there fine good seen
      | inl no_validator ↦
          let (known, seen) =
            check_tokens-none (allowed_tokens config auth_env token_env) new_id token req after
              (ok_eq _ _ (rw (no_validator, authorize_token) at e)) in
          by_token no_validator known seen
    ]

full_text-some : (o : Option Text) (t : Text) → full_text o ≡ some t → (o ≡ some t) × (t ≢ [])
full_text-some none t e = absurd (cc e)
full_text-some (some []) t e = absurd (cc e)
full_text-some (some (c ∷ s)) t e = (e, λ empty. cc (e, empty))

-- When `_authorize` lets a request pass, either the route asks for no token and the request is
-- unchanged, or the request has a token that is not empty and that the validator accepts or, with
-- no validator, that is among the configured tokens and the environment's; the handler sees
-- what the validator returned, if that is an object, and else the token and the method.
pub authorize-IsGranted :
    (config : AuthConfig) (auth_env token_env : Option Text) (new_id : Text) (route : Route)
    (req after : Request)
    → authorize config auth_env token_env new_id route req ≡ ok (none, after)
    → ((route.metadata.auth ≡ false) × (after ≡ req))
      ⊎ ((token : Text) × (token_from_header req.headers ≡ some token)
          × (token ≢ [])
          × IsGranted config auth_env token_env token req after)
unfolding authorize
authorize-IsGranted config auth_env token_env new_id route req after e =
    elim (Bool-cases route.metadata.auth) [
      | inr public ↦ inl (public, sym (ap (λ r. r.1) (ok_eq _ _ (rw (public, authorize) at e))))
      | inl guarded ↦ elim (Option-cases (full_text (token_from_header req.headers))) [
        | inl missing ↦
            absurd (cc (ap (λ r. r.0) (ok_eq _ _ (rw (guarded, missing, authorize) at e))))
        | inr (token, there) ↦
            let (sent, full) = full_text-some (token_from_header req.headers) token there in
            inr (
              token,
              sent,
              full,
              authorize_token-none config auth_env token_env new_id token req after
                  (rw (guarded, there, authorize) at e),
            )
      ]
    ]
