-- ===== src/Webhooks.antt =====
-- `WebhookProcessor` of quickapi/webhooks/processor.py. `digest` is the hexadecimal HMAC-SHA256 of a
-- body under a secret. A handler's effects outside the processor are not kept.
pub mod Signed
use quick_api.Base.{
  ℕ, zero, suc, ◌-◌, Text, codes, starts_with, Dict, get, put, keys, Value, null, bool, str, obj_of,
  arr_of, Bool, true, false, not, ◌&&◌, Option, none, some, List, [], ◌∷◌, map, ◌==◌, text_eq,
  if◌then◌else◌, or_else, length, all, ltb, Raised, Result, ok, raise, sorted_set,
}

-- `output` is the field `data`.
pub record WebhookResult : Type 0 where
  pub accepted : Bool
  pub event : Text
  pub output : Value
  pub error : Option Value

abbrev pub Handler : Type 0
Handler = Value → Result Value

pub record WebhookProcessor : Type 0 where
  pub handlers : Dict Handler
  pub secrets : Dict Text

-- `if secret: self._secrets[event] = secret`
abbrev with_secret : Dict Text → Text → Option Text → Dict Text
with_secret secrets event none = secrets
with_secret secrets event (some []) = secrets
with_secret secrets event (some (c ∷ s)) = put secrets event (c ∷ s)

-- `register`; without a secret, one that was registered before stays
unfoldable pub register : WebhookProcessor → Text → Handler → Option Text → WebhookProcessor
unfolding put
register w event handler secret = record {
  handlers = put w.handlers event handler;
  secrets = with_secret w.secrets event secret;
}

-- `s.replace(pattern, "")` for a pattern that is not empty; `skip` characters of a match are left.
unfoldable pub remove_from : Text → ℕ → Text → Text
unfolding starts_with
remove_from pattern skip [] = []
remove_from pattern (suc skip) (c ∷ s) = remove_from pattern skip s
remove_from pattern zero (c ∷ s) =
    let inside = remove_from pattern (length pattern - 1) s in
    let after = c ∷ remove_from pattern 0 s in if starts_with (c ∷ s) pattern then inside else after

-- The signature as it is compared.
unfoldable pub received : Option Text → Text
unfolding remove_from codes
received signature = remove_from (codes "sha256=") 0 (or_else signature [])

abbrev pub is_ascii : Text → Bool
is_ascii s = all (λ c. ltb c 128) s

-- `hmac.compare_digest` on two strings, which takes ASCII only
unfoldable pub compare_digest : Text → Text → Result Bool
unfolding codes
compare_digest a b =
    if is_ascii a && is_ascii b
    then ok (a == b)
    else raise (record {
      kind = codes "TypeError";
      message = codes "comparing strings with non-ASCII characters is not supported";
    })

abbrev failed : Text → Dict Value → WebhookResult
failed event error = record {
  accepted = false;
  event = event;
  output = null;
  error = some (obj_of error);
}

-- `handler(payload)`, whose exceptions are caught
abbrev pub handled : Text → Result Value → WebhookResult
handled event (ok v) = record { accepted = true; event = event; output = v; error = none }
handled event (raise e) =
    failed event ((codes "type", str e.kind) ∷ (codes "message", str e.message) ∷ [])

unfoldable pub to_dict : WebhookResult → Dict Value
unfolding codes
to_dict r =
    (codes "ok", bool r.accepted)
    ∷ (codes "event", str r.event)
    ∷ (codes "data", r.output)
    ∷ (codes "error", or_else r.error null)
    ∷ []

-- `dispatch`, behind the signature
unfoldable pub deliver : WebhookProcessor → Text → Value → WebhookResult
unfolding get keys sorted_set codes
deliver w event payload = elim (get w.handlers event) [
  | none ↦ failed event (
      (codes "code", str (codes "WEBHOOK_HANDLER_NOT_FOUND"))
      ∷ (codes "available", arr_of (map str (sorted_set (keys w.handlers))))
      ∷ [])
  | some handler ↦ handled event (handler payload)
]

module _ (digest : Text → List ℕ → Text) where
  unfoldable pub verify : WebhookProcessor → Text → List ℕ → Option Text → Result Bool
  unfolding get compare_digest received
  verify w event raw_body signature = elim (get w.secrets event) [
    | none ↦ ok true
    | some secret ↦ elim secret [
      | [] ↦ ok true
      | c ∷ s ↦ compare_digest (digest (c ∷ s) raw_body) (received signature)
    ]
  ]

  unfoldable pub dispatch :
      WebhookProcessor → Text → Value → List ℕ → Option Text → Result WebhookResult
  unfolding verify deliver codes
  dispatch w event payload raw_body signature = elim (verify w event raw_body signature) [
    | raise e ↦ raise e
    | ok b ↦ ok (
        if b
        then deliver w event payload
        else failed event ((codes "code", str (codes "WEBHOOK_SIGNATURE_INVALID")) ∷ []))
  ]
