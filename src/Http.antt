-- ===== src/Http.antt =====
-- quickapi/http: status names, headers whose names are in canonical case, methods and requests.
pub mod Header
use quick_api.Base.{
  ℕ, Text, codes, strip, upper, Dict, Value, null, Option, none, some, List, [], ◌∷◌, ◌≡◌, refl,
  ◌==◌, nat_eq, if◌then◌else◌, is_none, or_else,
}
use quick_api.Http.Header.{Headers, normalize_headers}

-- The pair that `HTTP_STATUS` has at a status: the code's name and the message.
unfoldable pub http_status : ℕ → Option (Text × Text)
http_status status =
    if status == 200
    then some (codes "OK", codes "OK")
    else if status == 201
    then some (codes "CREATED", codes "Created")
    else if status == 202
    then some (codes "ACCEPTED", codes "Accepted")
    else if status == 204
    then some (codes "NO_CONTENT", codes "No content")
    else if status == 400
    then some (codes "BAD_REQUEST", codes "Bad request")
    else if status == 401
    then some (codes "UNAUTHORIZED", codes "Unauthorized")
    else if status == 402
    then some (codes "PAYMENT_REQUIRED", codes "Payment required")
    else if status == 403
    then some (codes "FORBIDDEN", codes "Forbidden")
    else if status == 404
    then some (codes "NOT_FOUND", codes "Not found")
    else if status == 405
    then some (codes "METHOD_NOT_ALLOWED", codes "Method not allowed")
    else if status == 409
    then some (codes "CONFLICT", codes "Conflict")
    else if status == 415
    then some (codes "UNSUPPORTED_MEDIA_TYPE", codes "Unsupported media type")
    else if status == 422
    then some (codes "VALIDATION_ERROR", codes "Validation error")
    else if status == 429
    then some (codes "TOO_MANY_REQUESTS", codes "Too many requests")
    else if status == 500
    then some (codes "INTERNAL_SERVER_ERROR", codes "Internal server error")
    else if status == 502
    then some (codes "BAD_GATEWAY", codes "Bad gateway")
    else if status == 503
    then some (codes "SERVICE_UNAVAILABLE", codes "Service unavailable")
    else if status == 504
    then some (codes "GATEWAY_TIMEOUT", codes "Gateway timeout")
    else none

unfoldable pub status_code_name : ℕ → Text
unfolding http_status
status_code_name status = (or_else (http_status status) (codes "UNKNOWN", codes "Unknown")).0

unfoldable pub status_message : ℕ → Text
unfolding http_status
status_message status = (or_else (http_status status) (codes "UNKNOWN", codes "Unknown")).1

unfoldable pub normalize_method : Text → Text
normalize_method method = upper (strip method)

-- `auth` is what the authorisation step leaves for the handler, `dependencies` what the resolver
-- leaves; `raw_body` is a list of bytes.
pub record Request : Type 0 where
  pub method : Text
  pub path : Text
  pub body : Value
  pub query : Dict Value
  pub headers : Headers
  pub ip : Text
  pub request_id : Text
  pub raw_body : List ℕ
  pub auth : Option Value
  pub synaptic : Option Value
  pub dependencies : Dict Value
  pub state : Dict Value

-- `Request.build`
unfoldable pub build :
    Text → Text → Value → Dict Value → List (Text × Text) → Text → Text → List ℕ → Request
unfolding normalize_headers upper
build method path body query headers ip request_id raw_body = record {
  method = upper method;
  path = path;
  body = body;
  query = query;
  headers = normalize_headers headers;
  ip = ip;
  request_id = request_id;
  raw_body = raw_body;
  auth = none;
  synaptic = none;
  dependencies = [];
  state = [];
}
