-- ===== src/Asgi/Call.antt =====
-- `QuickASGIApp.__call__` of quickapi/asgi.py for a request. The JSON parser, `parse_qs`, the decoding of
-- a scope's bytes and the bytes of a response are parameters; `handle` is `handle_async`.
use quick_api.Base.{
  ℕ, Text, codes, Dict, Value, null, str, int, pos, ℤ, obj_of, arr_of, set_default, Option, none,
  some, or_else, List, [], ◌∷◌, map, Raised, Result, raise, ◌>>=◌,
}
use quick_api.Response.{json, make_json, failure, bad_request, format_error}
use quick_api.App.Finalize.{Final, answered, streamed}
use quick_api.Asgi.{Message, Reading, waiting, too_large, complete, read_body, Sent, send_response}

-- The parts of a scope that are read, decoded.
pub record Scope : Type 0 where
  pub method : Option Text
  pub path : Option Text
  pub query_string : Text
  pub headers : Dict Text
  pub client : Option Text

-- The arguments of `handle_async`.
pub record Asked : Type 0 where
  pub method : Text
  pub path : Text
  pub body : Value
  pub query : Dict Value
  pub headers : Dict Text
  pub ip : Text
  pub raw_body : List ℕ

-- What the JSON parser makes of bytes: a value, an error at a place, or another exception.
pub data Parsed : Type 0 where
  parsed : Value → Parsed
  malformed : (line column position : ℕ) → Parsed
  broken : Raised → Parsed

-- What the adapter is put together from.
pub record Adapter (W : Type 0) : Type 0 where
  pub max_body_size : ℕ
  pub cors : Dict Text
  pub parse_json : List ℕ → Parsed
  pub parse_qs : Text → Dict (List Text)
  -- an exception where what it returned is no response
  pub handle : Asked → W → Result Final × W
  pub bytes_of : Final → List ℕ
  pub chunk_size : Final → ℕ
  -- what encoding a header beyond latin1 raises
  pub cannot : Text → Raised

-- the values of a key of the query: one as it is, and several as a list
abbrev one_or_all : List Text → Value
one_or_all (t ∷ []) = str t
one_or_all ts = arr_of (map str ts)

-- `response.headers.setdefault(key, value)` for each header
unfoldable pub with_defaults : Dict Text → Dict Text → Dict Text
unfolding set_default
with_defaults headers [] = headers
with_defaults headers ((k, v) ∷ defaults) = with_defaults (set_default headers k v) defaults

abbrev status_of : Final → ℤ
status_of (answered r) = r.status
status_of (streamed f) = pos f.status

abbrev headers_of : Final → Dict Text
headers_of (answered r) = r.headers
headers_of (streamed f) = f.headers

-- A response as it is.
abbrev sent_as : {W : Type 0} → Adapter W → Final → Dict Text → Result (List Sent)
sent_as a f headers = send_response a.cannot (a.chunk_size f) (status_of f) headers (a.bytes_of f)

-- an error that the adapter answers itself
abbrev refused_with : {W : Type 0} → Adapter W → ℕ → Dict Value → Result (List Sent)
refused_with a status d =
    let f = answered (make_json (json (obj_of d)) (pos status) a.cors) in sent_as a f (headers_of f)

unfoldable pub too_large_answer : Text → ℕ → Dict Value
unfolding format_error codes
too_large_answer new_id max_body_size =
    format_error new_id 413 (codes "PAYLOAD_TOO_LARGE") (codes "Request body is too large")
      (obj_of (
        (codes "where", str (codes "body"))
        ∷ (codes "hint", str (codes "ASGI body exceeded QuickAPI max_body_size."))
        ∷ (codes "max_body_size", int (pos max_body_size))
        ∷ []))
      (codes "api_error")

unfoldable pub malformed_answer : Text → ℕ → ℕ → ℕ → Dict Value
unfolding failure codes
malformed_answer new_id line column position =
    failure new_id bad_request (some (codes "Invalid JSON body")) (
      obj_of (
        (codes "where", str (codes "body"))
        ∷ (codes "line", int (pos line))
        ∷ (codes "column", int (pos column))
        ∷ (codes "position", int (pos position))
        ∷ (codes "hint", str (codes "Fix the JSON syntax at the reported line and column."))
        ∷ []))

abbrev body_of : {W : Type 0} → Adapter W → List ℕ → Parsed
body_of a [] = parsed null
body_of a (b ∷ bytes) = a.parse_json (b ∷ bytes)

abbrev asked_for : {W : Type 0} → Adapter W → Scope → Value → List ℕ → Asked
asked_for a scope v raw_body = record {
  method = or_else scope.method (codes "GET");
  path = or_else scope.path (codes "/");
  body = v;
  query = map (λ e. (e.0, one_or_all e.1)) (a.parse_qs scope.query_string);
  headers = scope.headers;
  ip = or_else scope.client (codes "127.0.0.1");
  raw_body = raw_body;
}

module _ {W : Type 0} (a : Adapter W) (new_id : Text) where
  -- a body that was read and parsed
  unfoldable pub answer_parsed : Scope → List ℕ → Parsed → W → Result (List Sent) × W
  unfolding malformed_answer make_json send_response with_defaults
  answer_parsed scope raw_body (broken e) w = (raise e, w)
  answer_parsed scope raw_body (malformed line column position) w =
      (refused_with a 400 (malformed_answer new_id line column position), w)
  answer_parsed scope raw_body (parsed v) w =
      let (r, w') = a.handle (asked_for a scope v raw_body) w in
      (r >>= (λ f. sent_as a f (with_defaults (headers_of f) a.cors)), w')

  -- a body that was read, or none while it is waited for
  unfoldable pub answer_read : Scope → Reading → W → Option (Result (List Sent)) × W
  unfolding answer_parsed too_large_answer make_json send_response
  answer_read scope waiting w = (none, w)
  answer_read scope too_large w =
      (some (refused_with a 413 (too_large_answer new_id a.max_body_size)), w)
  answer_read scope (complete raw_body) w =
      let (sent, w') = answer_parsed scope raw_body (body_of a raw_body) w in (some sent, w')

  -- `__call__` for a request
  unfoldable pub call : Scope → List Message → W → Option (Result (List Sent)) × W
  unfolding answer_read read_body
  call scope ms w = answer_read scope (read_body a.max_body_size ms) w
