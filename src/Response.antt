-- ===== src/Response.antt =====
-- quickapi/response: the success and error envelopes, the response factory `q`, and the answers
-- that a handler may give. `new_id` is the request id that `new_request_id` draws.
pub mod Chunks
pub mod Envelope
use quick_api.Base.{
  ℕ, String, Text, codes, Dict, get, put, set_default, Value, null, bool, int, dec, str, obj, arr,
  ℤ, pos, obj_of, Bool, true, false, Option, none, some, List, [], ◌∷◌, or_else,
}
use quick_api.Http.{status_code_name}
use quick_api.Http.Header.{Headers}

-- `make_meta` without its optional arguments
unfoldable pub make_meta : Text → Dict Value
make_meta new_id =
    (codes "request_id", str new_id)
    ∷ (codes "time_ms", dec (pos 0) 1)
    ∷ (codes "engine", str (codes "quickapi"))
    ∷ []

unfoldable pub format_success : Text → Value → ℕ → Text → Text → Dict Value
unfolding make_meta
format_success new_id payload status code message =
    (codes "ok", bool true)
    ∷ (codes "status", int (pos status))
    ∷ (codes "code", str code)
    ∷ (codes "message", str message)
    ∷ (codes "data", payload)
    ∷ (codes "error", null)
    ∷ (codes "meta", obj_of (make_meta new_id))
    ∷ []

unfoldable pub format_error : Text → ℕ → Text → Text → Value → Text → Dict Value
unfolding make_meta
format_error new_id status code message detail error_type =
    (codes "ok", bool false)
    ∷ (codes "status", int (pos status))
    ∷ (codes "code", str code)
    ∷ (codes "message", str message)
    ∷ (codes "data", null)
    ∷ (codes "error", obj_of ((codes "type", str error_type) ∷ (codes "detail", detail) ∷ []))
    ∷ (codes "meta", obj_of (make_meta new_id))
    ∷ []

-- The factory's methods that answer with success, and their status.
pub data Success : Type 0 where
  ok created accepted no_content : Success

unfoldable pub success_status : Success → ℕ
success_status Success.ok = 200
success_status created = 201
success_status accepted = 202
success_status no_content = 204

unfoldable pub success_message : Success → Text
success_message Success.ok = codes "Success"
success_message created = codes "Created"
success_message accepted = codes "Accepted"
success_message no_content = codes "No content"

-- `no_content` takes no data.
unfoldable pub success : Text → Success → Value → Text → Dict Value
unfolding format_success success_status status_code_name
success new_id no_content payload message =
    format_success new_id null (success_status no_content)
      (status_code_name (success_status no_content)) message
success new_id kind payload message =
    format_success new_id payload (success_status kind) (status_code_name (success_status kind))
      message

-- The factory's methods that answer with an error.
pub data Failure : Type 0 where
  bad_request unauthorized payment_required forbidden not_found method_not_allowed : Failure
  conflict unsupported_media_type validation too_many_requests server_error : Failure
  bad_gateway service_unavailable timeout : Failure

unfoldable pub failure_status : Failure → ℕ
failure_status bad_request = 400
failure_status unauthorized = 401
failure_status payment_required = 402
failure_status forbidden = 403
failure_status not_found = 404
failure_status method_not_allowed = 405
failure_status conflict = 409
failure_status unsupported_media_type = 415
failure_status validation = 422
failure_status too_many_requests = 429
failure_status server_error = 500
failure_status bad_gateway = 502
failure_status service_unavailable = 503
failure_status timeout = 504

unfoldable pub failure_code : Failure → Text
failure_code bad_request = codes "BAD_REQUEST"
failure_code unauthorized = codes "UNAUTHORIZED"
failure_code payment_required = codes "PAYMENT_REQUIRED"
failure_code forbidden = codes "FORBIDDEN"
failure_code not_found = codes "NOT_FOUND"
failure_code method_not_allowed = codes "METHOD_NOT_ALLOWED"
failure_code conflict = codes "CONFLICT"
failure_code unsupported_media_type = codes "UNSUPPORTED_MEDIA_TYPE"
failure_code validation = codes "VALIDATION_ERROR"
failure_code too_many_requests = codes "TOO_MANY_REQUESTS"
failure_code server_error = codes "INTERNAL_SERVER_ERROR"
failure_code bad_gateway = codes "BAD_GATEWAY"
failure_code service_unavailable = codes "SERVICE_UNAVAILABLE"
failure_code timeout = codes "GATEWAY_TIMEOUT"

unfoldable pub failure_message : Failure → Text
failure_message bad_request = codes "Bad request"
failure_message unauthorized = codes "Unauthorized"
failure_message payment_required = codes "Payment required"
failure_message forbidden = codes "Forbidden"
failure_message not_found = codes "Not found"
failure_message method_not_allowed = codes "Method not allowed"
failure_message conflict = codes "Conflict"
failure_message unsupported_media_type = codes "Unsupported media type"
failure_message validation = codes "Validation error"
failure_message too_many_requests = codes "Too many requests"
failure_message server_error = codes "Internal server error"
failure_message bad_gateway = codes "Bad gateway"
failure_message service_unavailable = codes "Service unavailable"
failure_message timeout = codes "Gateway timeout"

unfoldable pub failure_type : Failure → Text
failure_type not_found = codes "route_error"
failure_type method_not_allowed = codes "route_error"
failure_type validation = codes "validation_error"
failure_type too_many_requests = codes "rate_limit_error"
failure_type server_error = codes "server_error"
failure_type timeout = codes "gateway_error"
failure_type _ = codes "api_error"

-- A factory call with its own message, or with the default one.
unfoldable pub failure : Text → Failure → Option Text → Value → Dict Value
unfolding format_error failure_status failure_code failure_message failure_type
failure new_id kind message detail =
    format_error new_id (failure_status kind) (failure_code kind)
      (or_else message (failure_message kind)) detail (failure_type kind)

-- `QuickAPIError`, and `handle_exception` on it and on any other exception
pub data Exception : Type 0 where
  quick_api_error : (message : Text) (status : ℕ) (code : Text) (detail : Value) → Exception
  other : (message : Text) → Exception

unfoldable pub handle_exception : Text → Exception → Dict Value
unfolding failure format_error
handle_exception new_id (quick_api_error message status code detail) =
    format_error new_id status code message detail (codes "api_error")
handle_exception new_id (other message) = failure new_id server_error none (str message)

-- `JSONResponse`: the body is a value, or a text or bytes that are sent as they are.
pub data Body : Type 0 where
  json : Value → Body
  raw : Text → Body

pub record JsonResponse : Type 0 where
  pub body : Body
  pub status : ℤ
  pub headers : Dict Text

unfoldable pub content_type_json : Text
content_type_json = codes "application/json; charset=utf-8"

-- The constructor of `JSONResponse`.
unfoldable pub make_json : Body → ℤ → Dict Text → JsonResponse
unfolding content_type_json set_default
make_json body status headers = record {
  body = body;
  status = status;
  headers = set_default headers (codes "Content-Type") content_type_json;
}

-- `FileResponse`, by its path, status and headers; the file system stays outside.
pub record FileResponse : Type 0 where
  pub path : Text
  pub status : ℕ
  pub headers : Dict Text

-- What a handler may return. A dictionary that has the envelope's keys is a `value` like others.
pub data Answer : Type 0 where
  value : Value → Answer
  response : JsonResponse → Answer
  file : FileResponse → Answer
