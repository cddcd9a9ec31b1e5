-- ===== src/App/Authorize.antt =====
-- `QuickAPI._authorize` of quickapi/app/application.py, with the parts of quickapi/app/config.py
-- that it reads. The two environment variables are arguments; `new_id` is the drawn request id.
use quick_api.Base.{
  Text, codes, Dict, Value, str, obj, obj_of, truthy, Option, none, some, List, [], ◌∷◌, ◌++◌,
  if◌then◌else◌, mem, Result, ok, raise,
}
use quick_api.Http.{Request}
use quick_api.Response.{failure, unauthorized, forbidden}
use quick_api.Routing.Route.{Route}
use quick_api.Security.Tokens.{token_from_header}

pub record AuthConfig : Type 0 where
  pub auth_tokens : List Text
  pub auth_validator : Option (Text → Request → Result Value)

-- `os.environ.get("QUICKAPI_AUTH_TOKEN") or os.environ.get("QUICKAPI_TOKEN")`
abbrev pub first_env : Option Text → Option Text → Option Text
first_env none other = other
first_env (some []) other = other
first_env (some (c ∷ t)) other = some (c ∷ t)

-- the tokens that are allowed, the one of the environment among them
abbrev with_env : List Text → Option Text → List Text
with_env tokens none = tokens
with_env tokens (some []) = tokens
with_env tokens (some (c ∷ t)) = tokens ++ (c ∷ t) ∷ []

unfoldable pub allowed_tokens : AuthConfig → Option Text → Option Text → List Text
allowed_tokens config auth_env token_env =
    with_env config.auth_tokens (first_env auth_env token_env)

unfoldable pub auth_entry : Text → Text → Value
unfolding codes
auth_entry token method = obj_of ((codes "token", str token) ∷ (codes "method", str method) ∷ [])

-- `result if isinstance(result, dict) else {...}`
abbrev pub auth_of : Text → Value → Value
auth_of token (obj fields) = obj fields
auth_of token v = auth_entry token (codes "validator")

unfoldable pub required_answer : Text → Dict Value
unfolding failure codes
required_answer new_id = failure new_id unauthorized (some (codes "Authentication required")) (
    obj_of (
      (codes "where", str (codes "headers.Authorization"))
      ∷ (codes "expected", str (codes "Bearer <token>"))
      ∷ (codes "hint", str (codes "Send an Authorization header or disable auth for this route."))
      ∷ []))

-- A `forbidden` answer of `_authorize`.
unfoldable pub refusal : Text → Text → Text → Text → Dict Value
unfolding failure codes
refusal new_id message where_text hint =
    failure new_id forbidden (some message)
      (obj_of ((codes "where", str where_text) ∷ (codes "hint", str hint) ∷ []))

unfoldable pub rejected_answer : Text → Dict Value
unfolding refusal codes
rejected_answer new_id =
    refusal new_id (codes "Token rejected") (codes "headers.Authorization")
      (codes "The configured auth validator rejected this token.")

unfoldable pub unconfigured_answer : Text → Dict Value
unfolding refusal codes
unconfigured_answer new_id =
    refusal new_id (codes "Auth is not configured") (codes "app.config.auth_tokens")
      (codes "Pass QuickAPI(..., auth_tokens={'secret'}) or auth_validator=callable.")

unfoldable pub invalid_answer : Text → Dict Value
unfolding refusal codes
invalid_answer new_id =
    refusal new_id (codes "Invalid token") (codes "headers.Authorization")
      (codes "Bearer token did not match configured auth tokens.")

abbrev pub Authorized : Type 0
Authorized = Option (Dict Value) × Request

-- with a validator
unfoldable pub ask_validator :
    (Text → Request → Result Value) → Text → Text → Request → Result Authorized
unfolding rejected_answer auth_entry truthy
ask_validator validator new_id token req = elim (validator token req) [
  | raise e ↦ raise e
  | ok v ↦ ok (
      if truthy v
      then (none, record req { auth = some (auth_of token v) })
      else (some (rejected_answer new_id), req))
]

-- with the tokens of the configuration and of the environment
unfoldable pub check_tokens : List Text → Text → Text → Request → Authorized
unfolding unconfigured_answer invalid_answer auth_entry codes
check_tokens [] new_id token req = (some (unconfigured_answer new_id), req)
check_tokens (t ∷ ts) new_id token req =
    if mem token (t ∷ ts)
    then (none, record req { auth = some (auth_entry token (codes "bearer")) })
    else (some (invalid_answer new_id), req)

-- `_authorize` for a route that asks for a token, which is not empty
unfoldable pub authorize_token :
    AuthConfig → Option Text → Option Text → Text → Text → Request → Result Authorized
unfolding ask_validator check_tokens allowed_tokens
authorize_token config auth_env token_env new_id token req = elim (config.auth_validator) [
  | some validator ↦ ask_validator validator new_id token req
  | none ↦ ok (check_tokens (allowed_tokens config auth_env token_env) new_id token req)
]

abbrev pub full_text : Option Text → Option Text
full_text none = none
full_text (some []) = none
full_text (some (c ∷ t)) = some (c ∷ t)

-- `_authorize`: the answer that ends the request, if any, and the request after it
unfoldable pub authorize :
    AuthConfig → Option Text → Option Text → Text → Route → Request → Result Authorized
unfolding required_answer authorize_token token_from_header
authorize config auth_env token_env new_id route req =
    if route.metadata.auth
    then elim (full_text (token_from_header req.headers)) [
      | none ↦ ok (some (required_answer new_id), req)
      | some token ↦ authorize_token config auth_env token_env new_id token req
    ]
    else ok (none, req)
