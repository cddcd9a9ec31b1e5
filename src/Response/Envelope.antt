-- ===== src/Response/Envelope.antt =====
-- The contract of the envelopes: which keys, and what they agree on.
use quick_api.Base.{
  ℕ, Text, codes, Dict, get, keys, Value, null, bool, int, str, pos, false, Option, some, List, [],
  ◌∷◌, ◌≡◌, refl, ap, or_else, str_beq,
}
use quick_api.Http.{status_code_name, status_message}
use quick_api.Response.{Failure, failure, failure_status, failure_code, failure_message}

-- The keys that a client may rely on, in order.
abbrev pub envelope_keys : List Text
envelope_keys =
    codes "ok"
    ∷ codes "status"
    ∷ codes "code"
    ∷ codes "message"
    ∷ codes "data"
    ∷ codes "error"
    ∷ codes "meta"
    ∷ []

-- An envelope of an error with this status and message.
pub record IsFailure (d : Dict Value) (status : ℕ) (message : Text) : Type 0 where
  pub shape : keys d ≡ envelope_keys
  pub not_ok : get d (codes "ok") ≡ some (bool false)
  pub stated : get d (codes "status") ≡ some (int (pos status))
  pub code : get d (codes "code") ≡ some (str (status_code_name status))
  pub told : get d (codes "message") ≡ some (str message)
  pub no_data : get d (codes "data") ≡ some null

-- The code that the factory writes is the one that `HTTP_STATUS` lists for the status.
failure_code_lem : (kind : Failure) → failure_code kind ≡ status_code_name (failure_status kind)
unfolding failure_code status_code_name failure_status
failure_code_lem Failure.bad_request = refl
failure_code_lem _ = refl

failure_message_lem : (kind : Failure) → failure_message kind ≡ status_message (failure_status kind)
unfolding failure_message status_message failure_status
failure_message_lem Failure.bad_request = refl
failure_message_lem _ = refl

-- Every error that the factory builds has exactly the envelope's keys, says `ok: false`, has no
-- data, and carries the status of its method, the code that `HTTP_STATUS` lists for that status,
-- and the message given or, with none given, the listed one.
failure-IsFailure :
    (new_id : Text) (kind : Failure) (message : Option Text) (detail : Value)
    → IsFailure
        (failure new_id kind message detail)
        (failure_status kind)
        (or_else message (status_message (failure_status kind)))
unfolding failure get keys codes str_beq
failure-IsFailure new_id kind message detail = record {
  shape = refl;
  not_ok = refl;
  stated = refl;
  code = ap (λ t. some (str t)) (failure_code_lem kind);
  told = ap (λ t. some (str (or_else message t))) (failure_message_lem kind);
  no_data = refl;
}
