-- ===== src/App/Finalize.antt =====
-- `QuickAPI._finalize` of quickapi/app/application.py: how what a handler answers becomes the
-- response that leaves. `parse` is Python's `int` of a text, `time_ms` the time that has passed.
pub mod Marked
use quick_api.Base.{
  class_name, ℕ, zero, suc, ◌+◌, ◌*◌, ◌/◌, Text, codes, Dict, get, put, has, set_default, Value,
  Fields, ℤ, pos, negsuc, null, bool, int, dec, str, obj, arr, to_dict, obj_of, Bool, true, false,
  ◌&&◌, Option, none, some, or_else, List, [], ◌∷◌, ◌++◌, if◌then◌else◌, all, Raised, Result, ok,
  raise,
}
use quick_api.Response
use quick_api.Response.{
  Answer, value, response, file, Body, json, raw, JsonResponse, FileResponse, make_json, success,
  failure, server_error,
}

-- What leaves the application.
pub data Final : Type 0 where
  answered : JsonResponse → Final
  streamed : FileResponse → Final

abbrev power : ℕ → ℕ
power zero = 1
power (suc k) = 10 * power k

abbrev negated : ℕ → ℤ
negated zero = pos zero
negated (suc k) = negsuc k

-- `int` of a float, which cuts its fraction off
abbrev truncated : ℤ → ℕ → ℤ
truncated (pos m) k = pos (m / power k)
truncated (negsuc m) k = negated (suc m / power k)

abbrev not_a_number : Value → Raised
not_a_number v = record {
  kind = codes "TypeError";
  message =
      codes "int() argument must be a string, a bytes-like object or a real number, not '"
      ++ (class_name v ++ codes "'");
}

unfoldable pub as_int : (Text → Result ℤ) → Value → Result ℤ
unfolding class_name codes
as_int parse (int z) = ok z
as_int parse (bool true) = ok (pos 1)
as_int parse (bool false) = ok (pos 0)
as_int parse (dec z k) = ok (truncated z k)
as_int parse (str t) = parse t
as_int parse v = raise (not_a_number v)

abbrev pub envelope_keys : List Text
envelope_keys =
    codes "ok"
    ∷ codes "status"
    ∷ codes "code"
    ∷ codes "message"
    ∷ codes "data"
    ∷ codes "error"
    ∷ codes "meta"
    ∷ []

abbrev pub every_key : Dict Value → List Text → Bool
every_key d [] = true
every_key d (k ∷ ks) = has d k && every_key d ks

-- `body["meta"].update(...)`, on the value that is there
unfoldable pub update_meta : Text → Value → Option Value → Result Value
unfolding put class_name codes
update_meta id time (some (obj meta)) = ok (
    obj_of (
      put (put (put (to_dict meta) (codes "request_id") (str id)) (codes "time_ms") time)
        (codes "engine") (str (codes "quickapi"))))
update_meta id time (some v) = raise (record {
  kind = codes "AttributeError";
  message = codes "'" ++ (class_name v ++ codes "' object has no attribute 'update'");
})
update_meta id time none = raise (record { kind = codes "KeyError"; message = codes "'meta'" })

abbrev sealed : Dict Value → ℤ → Dict Text → Result Value → Result Final
sealed body status headers (raise e) = raise e
sealed body status headers (ok meta) =
    ok (answered (make_json (json (obj_of (put body (codes "meta") meta))) status headers))

-- the end of `_finalize`, for a body that is a dict
unfoldable pub seal : Text → Value → Dict Value → ℤ → Dict Text → Result Final
unfolding update_meta set_default get put make_json codes
seal id time body status headers =
    let full = set_default body (codes "meta") (obj_of []) in
    sealed full status headers (update_meta id time (get full (codes "meta")))

abbrev pub status_or_200 : Option Value → Value
status_or_200 none = int (pos 200)
status_or_200 (some v) = v

abbrev with_status : (ℤ → Result Final) → Result ℤ → Result Final
with_status f (raise e) = raise e
with_status f (ok z) = f z

-- The dict that a value is, if it has the keys of an envelope.
abbrev pub envelope_of : Value → Option (Dict Value)
envelope_of (obj fields) =
    if every_key (to_dict fields) envelope_keys then some (to_dict fields) else none
envelope_of v = none

-- A value that is no envelope is the data of one.
unfoldable pub wrapped : Text → Text → Value → Value → Result Final
unfolding seal success codes
wrapped new_id id time v =
    seal id time (success new_id Response.ok v (codes "Success")) (pos 200) []

-- for a value that is no response object
unfoldable pub finalize_value : (Text → Result ℤ) → Text → Text → Value → Value → Result Final
unfolding seal as_int wrapped get has codes
finalize_value parse new_id id time v = elim (envelope_of v) [
  | some d ↦
      with_status (λ status. seal id time d status [])
        (as_int parse (status_or_200 (get d (codes "status"))))
  | none ↦ wrapped new_id id time v
]

-- The dict that a body is.
abbrev pub dict_of : Body → Option (Dict Value)
dict_of (json (obj fields)) = some (to_dict fields)
dict_of body = none

-- for a response object
unfoldable pub finalize_response : Text → Value → JsonResponse → Result Final
unfolding seal make_json
finalize_response id time r = elim (dict_of r.body) [
  | some d ↦ seal id time d r.status r.headers
  | none ↦ ok (answered (make_json r.body r.status r.headers))
]

-- `_finalize`; `shown_time` is the time as a text
unfoldable pub finalize : (Text → Result ℤ) → Text → Text → Value → Text → Answer → Result Final
unfolding finalize_value finalize_response set_default codes
finalize parse new_id id time shown_time (value v) = finalize_value parse new_id id time v
finalize parse new_id id time shown_time (response r) = finalize_response id time r
finalize parse new_id id time shown_time (file f) = ok (
    streamed (record f {
      headers =
          set_default (set_default f.headers (codes "X-Request-ID") id) (codes "X-Response-Time-MS")
            shown_time;
    }))

-- `q.server_error(detail=str(exc))`
unfoldable pub error_answer : Text → Raised → Answer
unfolding failure
error_answer new_id e = value (obj_of (failure new_id server_error none (str e.message)))

-- a block that answers within `try`, and its `except`
unfoldable pub settle :
    (Text → Result ℤ) → Text → Text → Value → Text → Result Answer → Result Final
unfolding finalize error_answer
settle parse new_id id time shown_time (raise e) =
    finalize parse new_id id time shown_time (error_answer new_id e)
settle parse new_id id time shown_time (ok a) = elim (finalize parse new_id id time shown_time a) [
  | ok f ↦ ok f
  | raise e ↦ finalize parse new_id id time shown_time (error_answer new_id e)
]
