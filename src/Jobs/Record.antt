-- ===== src/Jobs/Record.antt =====
-- `JobRecord` of quickapi/jobs/queue.py and its statuses.
use quick_api.Base.{
  ℕ, Text, codes, Dict, Value, null, int, pos, str, Bool, true, false, Option, none, some, [], ◌∷◌,
  or_else, nat_eq,
}

pub data Status : Type 0 where
  queued running done failed cancelled : Status

-- `status in TERMINAL_STATES`
abbrev pub is_terminal : Status → Bool
is_terminal queued = false
is_terminal running = false
is_terminal done = true
is_terminal failed = true
is_terminal cancelled = true

unfoldable pub status_name : Status → Text
status_name queued = codes "queued"
status_name running = codes "running"
status_name done = codes "done"
status_name failed = codes "failed"
status_name cancelled = codes "cancelled"

-- `attached` says that the `future` field has been assigned.
pub record JobRecord : Type 0 where
  pub id : Text
  pub name : Text
  pub status : Status
  pub created_at : ℕ
  pub started_at : Option ℕ
  pub finished_at : Option ℕ
  pub duration_ms : Option ℕ
  pub result : Value
  pub error : Option Value
  pub attached : Bool

abbrev number_or_null : Option ℕ → Value
number_or_null none = null
number_or_null (some n) = int (pos n)

abbrev result_if_done : Status → Value → Value
result_if_done done v = v
result_if_done _ v = null

unfoldable pub to_dict : JobRecord → Dict Value
unfolding status_name
to_dict r =
    (codes "id", str r.id)
    ∷ (codes "name", str r.name)
    ∷ (codes "status", str (status_name r.status))
    ∷ (codes "created_at", int (pos r.created_at))
    ∷ (codes "started_at", number_or_null r.started_at)
    ∷ (codes "finished_at", number_or_null r.finished_at)
    ∷ (codes "duration_ms", number_or_null r.duration_ms)
    ∷ (codes "result", result_if_done r.status r.result)
    ∷ (codes "error", or_else r.error null)
    ∷ []
