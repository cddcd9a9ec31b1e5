-- ===== src/App/Finalize/Marked.antt =====
-- Every response that leaves the application is marked with its request.
use quick_api.Base.{
  Text, codes, Dict, get, put, has, set_default, Value, ℤ, pos, obj, str, null, bool, int, dec, arr,
  to_dict, obj_of, true, Option, none, some, is_some, [], ◌≡◌, inl, inr, refl, sym, ap, Raised,
  Result, ok, raise, Option-cases, Bool-cases, Result-cases, ok_eq, get-put, get-own, str_beq, ◌==◌,
  text_eq,
}
use quick_api.Base.Values.{to_dict-to_fields}
use quick_api.Response
use quick_api.Response.{
  success, Answer, value, response, file, Body, json, raw, JsonResponse, FileResponse, make_json,
  failure, server_error,
}
use quick_api.App.Finalize.{
  Final, answered, streamed, update_meta, seal, finalize_value, finalize_response, finalize,
  error_answer, settle, as_int, envelope_of, dict_of, wrapped, status_or_200,
}

-- A body that is an object carries the request id in its `meta`.
abbrev pub IsMarkedBody : Text → Body → Type 0
IsMarkedBody id (json (obj fields)) =
    (meta : Dict Value) × (get (to_dict fields) (codes "meta") ≡ some (obj_of meta))
    × (get meta (codes "request_id") ≡ some (str id))
IsMarkedBody id other = Unit

-- A response whose body is an object carries the request id in its `meta`, and a file has the header
-- of the request id.
abbrev pub IsMarked : Text → Final → Type 0
IsMarked id (answered r) = IsMarkedBody id r.body
IsMarked id (streamed f) = has f.headers (codes "X-Request-ID") ≡ true

has-set_default {ℓ} :
    {V : Type ℓ} (d : Dict V) (k : Text) (v : V) → has (set_default d k v) k ≡ true
unfolding set_default has
has-set_default d k v = elim (Bool-cases (is_some (get d k))) [
  | inl there ↦ rw (there) there
  | inr missing ↦ rw (missing, get-own) refl
]

has-set_default_kept {ℓ} :
    {V : Type ℓ} (d : Dict V) (k j : Text) (v : V)
    → has d k ≡ true
    → has (set_default d j v) k ≡ true
unfolding set_default has
has-set_default_kept d k j v there = elim (Bool-cases (is_some (get d j))) [
  | inl known ↦ rw (known) there
  | inr missing ↦
      rw (missing, get-put d j k v)
        (elim (Bool-cases (j == k)) [ inl same ↦ rw (same) refl | inr other ↦ rw (other) there ])
]

update_meta-marks :
    (id : Text) (time : Value) (old : Option Value) (v : Value)
    → update_meta id time old ≡ ok v
    → (meta : Dict Value) × (v ≡ obj_of meta) × (get meta (codes "request_id") ≡ some (str id))
unfolding update_meta codes str_beq
update_meta-marks id time (some (obj fields)) v e = (
  put (put (put (to_dict fields) (codes "request_id") (str id)) (codes "time_ms") time)
      (codes "engine") (str (codes "quickapi")),
  sym (ok_eq _ _ e),
  rw (get-put, get-put, get-own) refl,
)
update_meta-marks id time (some other) v e = absurd (cc e)
update_meta-marks id time none v e = absurd (cc e)

error_answer-ok :
    (parse : Text → Result ℤ) (new_id id : Text) (time : Value) (shown_time : Text) (e : Raised)
    → (f : Final) × (finalize parse new_id id time shown_time (error_answer new_id e) ≡ ok f)
unfolding finalize error_answer codes str_beq obj_of
error_answer-ok parse new_id id time shown_time e = (_, refl)

made-IsMarked :
    (id : Text) (full : Dict Value) (v : Value) (meta : Dict Value) (status : ℤ)
    (headers : Dict Text)
    → v ≡ obj_of meta
    → get meta (codes "request_id") ≡ some (str id)
    → IsMarked id (answered (make_json (json (obj_of (put full (codes "meta") v))) status headers))
unfolding make_json obj_of
made-IsMarked id full v meta status headers same carried =
    (meta, rw (to_dict-to_fields, get-own) (ap some same), carried)

seal-marks :
    (id : Text) (time : Value) (body : Dict Value) (status : ℤ) (headers : Dict Text) (f : Final)
    → seal id time body status headers ≡ ok f
    → IsMarked id f
unfolding seal
seal-marks id time body status headers f e =
    let full = set_default body (codes "meta") (obj_of []) in
    elim (Result-cases (update_meta id time (get full (codes "meta")))) [
      | inr (x, bad) ↦ absurd (cc (rw (bad, seal) at e))
      | inl (v, fine) ↦
          let (meta, same, carried) = update_meta-marks id time (get full (codes "meta")) v fine in
          rw (sym (ok_eq _ _ (rw (fine, seal) at e)))
            (made-IsMarked id full v meta status headers same carried)
    ]

finalize_value-marks :
    (parse : Text → Result ℤ) (new_id id : Text) (time : Value) (v : Value) (f : Final)
    → finalize_value parse new_id id time v ≡ ok f
    → IsMarked id f
unfolding finalize_value wrapped
finalize_value-marks parse new_id id time v f e = elim (Option-cases (envelope_of v)) [
  | inl other ↦
      seal-marks id time (success new_id Response.ok v (codes "Success")) (pos 200) [] f
        (rw (other, finalize_value) at e)
  | inr (d, whole) ↦ elim (Result-cases (as_int parse (status_or_200 (get d (codes "status"))))) [
    | inl (status, fine) ↦ seal-marks id time d status [] f (rw (whole, fine, finalize_value) at e)
    | inr (x, bad) ↦ absurd (cc (rw (whole, bad, finalize_value) at e))
  ]
]

-- Only an object must carry the id.
dict_of-IsMarkedBody : (id : Text) (body : Body) → dict_of body ≡ none → IsMarkedBody id body
dict_of-IsMarkedBody id (json (obj fields)) e = absurd (cc e)
dict_of-IsMarkedBody id (json null) e = tt
dict_of-IsMarkedBody id (json (bool b)) e = tt
dict_of-IsMarkedBody id (json (int z)) e = tt
dict_of-IsMarkedBody id (json (dec z k)) e = tt
dict_of-IsMarkedBody id (json (str t)) e = tt
dict_of-IsMarkedBody id (json (arr items)) e = tt
dict_of-IsMarkedBody id (raw t) e = tt

finalize_response-marks :
    (id : Text) (time : Value) (r : JsonResponse) (f : Final)
    → finalize_response id time r ≡ ok f
    → IsMarked id f
unfolding finalize_response make_json
finalize_response-marks id time r f e = elim (Option-cases (dict_of r.body)) [
  | inl other ↦
      rw (sym (ok_eq _ _ (rw (other, finalize_response) at e)))
        (dict_of-IsMarkedBody id r.body other)
  | inr (d, whole) ↦ seal-marks id time d r.status r.headers f (rw (whole, finalize_response) at e)
]

finalize-marks :
    (parse : Text → Result ℤ) (new_id id : Text) (time : Value) (shown_time : Text) (a : Answer)
    (f : Final)
    → finalize parse new_id id time shown_time a ≡ ok f
    → IsMarked id f
unfolding finalize
finalize-marks parse new_id id time shown_time (value v) f e =
    finalize_value-marks parse new_id id time v f e
finalize-marks parse new_id id time shown_time (response r) f e =
    finalize_response-marks id time r f e
finalize-marks parse new_id id time shown_time (file g) f e = rw (sym (ok_eq _ _ e)) (
    has-set_default_kept (set_default g.headers (codes "X-Request-ID") id) (codes "X-Request-ID")
      (codes "X-Response-Time-MS") shown_time (has-set_default g.headers (codes "X-Request-ID") id))

pub error_answer-IsMarked :
    (parse : Text → Result ℤ) (new_id id : Text) (time : Value) (shown_time : Text) (e : Raised)
    → (f : Final) × (finalize parse new_id id time shown_time (error_answer new_id e) ≡ ok f)
      × IsMarked id f
error_answer-IsMarked parse new_id id time shown_time e =
    let (f, done) = error_answer-ok parse new_id id time shown_time e in
    (f, done, finalize-marks parse new_id id time shown_time (error_answer new_id e) f done)

-- Whatever a handler answers or raises, the block that answers a request ends with a response, never
-- with an exception, and the response is marked with the request: a body that is an object carries
-- the request id in its `meta`, and a file has the header of the request id.
pub settle-IsMarked :
    (parse : Text → Result ℤ) (new_id id : Text) (time : Value) (shown_time : Text)
    (r : Result Answer)
    → (f : Final) × (settle parse new_id id time shown_time r ≡ ok f) × IsMarked id f
unfolding settle
settle-IsMarked parse new_id id time shown_time (raise e) =
    error_answer-IsMarked parse new_id id time shown_time e
settle-IsMarked parse new_id id time shown_time (ok a) =
    elim (Result-cases (finalize parse new_id id time shown_time a)) [
      | inl (f, fine) ↦
          (f, rw (fine, settle) refl, finalize-marks parse new_id id time shown_time a f fine)
      | inr (e, bad) ↦
          let (f, done, marked) = error_answer-IsMarked parse new_id id time shown_time e in
          (f, rw (bad, settle) done, marked)
    ]
