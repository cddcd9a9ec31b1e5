-- ===== src/Ml/Intent.antt =====
-- quickapi/ml/intent.py and `MLGuard._route_sensitivity` of quickapi/ml/guard.py: what the path and
-- the text of a request say of it.
use quick_api.Base.{
  ℕ, ◌+◌, Text, codes, lower, upper, contains, Bool, true, false, Option, none, some, List, [], ◌∷◌,
  ◌++◌, if◌then◌else◌, any, mem, take, ltb,
}
use quick_api.Routing.Route.{Route}

-- `INTENT_RULES`
abbrev pub intent_rules : List (Text × List Text)
intent_rules =
    (
      codes "payment_attempt",
      codes "payment" ∷ codes "checkout" ∷ codes "billing" ∷ codes "invoice" ∷ codes "card" ∷ [],
    )
    ∷ (
      codes "auth",
      codes "login"
          ∷ codes "logout"
          ∷ codes "auth"
          ∷ codes "token"
          ∷ codes "session"
          ∷ codes "password"
          ∷ [],
    )
    ∷ (
      codes "upload",
      codes "upload" ∷ codes "file" ∷ codes "media" ∷ codes "audio" ∷ codes "image" ∷ [],
    )
    ∷ (codes "download", codes "download" ∷ codes "static" ∷ codes "asset" ∷ codes "export" ∷ [])
    ∷ (codes "cart_add", codes "cart/add" ∷ codes "basket/add" ∷ [])
    ∷ (codes "cart", codes "cart" ∷ codes "basket" ∷ [])
    ∷ (codes "admin", codes "admin" ∷ codes "dashboard" ∷ codes "manage" ∷ [])
    ∷ (codes "search", codes "search" ∷ codes "query" ∷ codes "filter" ∷ [])
    ∷ []

-- the first rule one of whose tokens the text contains
unfoldable pub first_rule : List (Text × List Text) → Text → Text → Text
unfolding contains
first_rule [] text default = default
first_rule ((intent, tokens) ∷ rules) text default =
    let later = first_rule rules text default in
    if any (λ t. contains t text) tokens then intent else later

-- `infer_intent`
unfoldable pub infer_intent : Text → Text → Text → Text
unfolding lower upper codes first_rule
infer_intent path method body_text =
    first_rule intent_rules
      (lower method ++ (codes " " ++ (lower path ++ (codes " " ++ lower (take 512 body_text)))))
      (if mem (upper method) (codes "POST" ∷ codes "PUT" ∷ codes "PATCH" ∷ [])
        then codes "write_request"
        else codes "read_request")

-- `score += n` under a test
abbrev pub when : Bool → ℕ → ℕ
when true n = n
when false n = 0

abbrev capped : ℕ → ℕ → ℕ
capped limit n = if ltb n limit then n else limit

abbrev route_flag : (Route → Bool) → Option Route → Bool
route_flag f none = false
route_flag f (some r) = f r

abbrev hits : Text → List Text → Bool
hits text tokens = any (λ t. contains t text) tokens

-- `_route_sensitivity`
unfoldable pub route_sensitivity : Text → Text → Option Route → ℕ
unfolding lower contains codes
route_sensitivity path method route = capped 8 (
    when (mem method (codes "POST" ∷ codes "PUT" ∷ codes "PATCH" ∷ codes "DELETE" ∷ [])) 1
    + when
        (hits (lower path) (
          codes "/admin"
          ∷ codes "/internal"
          ∷ codes "/system"
          ∷ codes "/debug"
          ∷ codes "/ops"
          ∷ []))
        3
    + when
        (hits (lower path) (
          codes "/auth"
          ∷ codes "/login"
          ∷ codes "/logout"
          ∷ codes "/token"
          ∷ codes "/session"
          ∷ codes "/users"
          ∷ []))
        2
    + when
        (hits (lower path) (
          codes "/payment"
          ∷ codes "/checkout"
          ∷ codes "/orders"
          ∷ codes "/invoice"
          ∷ codes "/billing"
          ∷ []))
        2
    + when
        (hits (lower path) (
          codes "/quick/tools"
          ∷ codes "/quick/plugins"
          ∷ codes "/quick/agents"
          ∷ codes "/quick/llm"
          ∷ codes "/quick/webhooks"
          ∷ []))
        3
    + when
        (hits (lower path) (
          codes "/upload"
          ∷ codes "/download"
          ∷ codes "/file"
          ∷ codes "/media"
          ∷ codes "/convert"
          ∷ []))
        1
    + when (route_flag (λ r. r.metadata.auth) route) 1
    + when (route_flag (λ r. r.metadata.native) route) 1
    + when (route_flag (λ r. r.metadata.ml_check) route) 1)
