-- ===== src/Jobs.antt =====
-- `JobQueue` of quickapi/jobs/queue.py. The thread pool is the standard library's: the model
-- keeps how far each job is, by its id, and whether the pool was shut down; the pool refuses a job
-- after that only. A time is a number; `now` is what `now_iso()` or `perf_counter()` read. A locked
-- block, a call of the semaphore, and a change of a future are one operation each, which
-- `Jobs.Steps` interleaves; `submit` and `run` are theirs in a row, for one thread alone.
mod Record
pub mod Listing
pub mod Trim
pub mod Steps
use quick_api.Base.{
  ℕ, zero, suc, ◌+◌, ◌-◌, Text, codes, Dict, get, put, pop, values, Value, null, int, pos, str,
  obj_of, bool, Bool, true, false, not, ◌&&◌, ◌||◌, Option, none, some, List, [], ◌∷◌, ◌++◌, map,
  if◌then◌else◌, length, take, leb, ltb, keep, or_else, nat_eq, ◌==◌, Raised,
}
unfoldable pub use Record.{status_name, to_dict}
pub use Record.{Status, JobRecord, is_terminal, queued, running, done, failed, cancelled}

-- How far the threads are with a job. Its submission holds a permit, has entered the history, or
-- was refused by the pool and has withdrawn the job, and has then given the permit back. Its future
-- is pending, taken by a worker that has not marked the record yet, active, closing once the outcome
-- is written, leaving once the count is lowered, and finished once the permit is back; or it was
-- dropped before it started; or the worker found no record.
pub data Stage : Type 0 where
  holding entered withdrawn rejected : Stage
  pending taken active closing leaving finished dropped crashed : Stage

pub record JobQueue : Type 0 where
  pub max_history : ℕ
  pub max_pending : ℕ
  pub jobs : Dict JobRecord
  pub inflight : ℕ
  -- the value of the semaphore
  pub permits : ℕ
  pub stages : Dict Stage
  -- whether the pool was shut down
  pub shut : Bool

-- `BoundedSemaphore(max(1, max_pending))`
abbrev pub capacity : ℕ → ℕ
capacity max_pending = if leb 1 max_pending then max_pending else 1

-- `__init__`
unfoldable pub new : ℕ → ℕ → JobQueue
new max_history max_pending = record {
  max_history = max_history;
  max_pending = max_pending;
  jobs = [];
  inflight = 0;
  permits = capacity max_pending;
  stages = [];
  shut = false;
}

-- The stable sort by `created_at`.
unfoldable pub insert_by_age : JobRecord → List JobRecord → List JobRecord
insert_by_age r [] = r ∷ []
insert_by_age r (q ∷ qs) =
    let later = q ∷ insert_by_age r qs in
    if leb r.created_at q.created_at then r ∷ q ∷ qs else later

unfoldable pub sort_by_age : List JobRecord → List JobRecord
unfolding insert_by_age
sort_by_age [] = []
sort_by_age (r ∷ rs) = insert_by_age r (sort_by_age rs)

unfoldable pub pop_all : Dict JobRecord → List JobRecord → Dict JobRecord
unfolding pop
pop_all jobs [] = jobs
pop_all jobs (r ∷ rs) = pop_all (pop jobs r.id) rs

unfoldable pub removable : Dict JobRecord → List JobRecord
unfolding sort_by_age keep values
removable jobs = sort_by_age (keep (λ r. is_terminal r.status) (values jobs))

-- `_trim_locked`
unfoldable pub trim : ℕ → Dict JobRecord → Dict JobRecord
unfolding removable pop_all
trim max_history jobs =
    if leb (length jobs) max_history
    then jobs
    else pop_all jobs (take (length jobs - max_history) (removable jobs))

-- The record that `submit` makes.
unfoldable pub fresh : Text → Text → ℕ → JobRecord
fresh id name now = record {
  id = id;
  name = name;
  status = queued;
  created_at = now;
  started_at = none;
  finished_at = none;
  duration_ms = none;
  result = null;
  error = none;
  attached = false;
}

unfoldable pub queue_full : ℕ → Text → Text → ℕ → JobRecord
unfolding fresh
queue_full max_pending id name now = record (fresh id name now) {
  status = failed;
  finished_at = some now;
  error = some (
      obj_of (
        (codes "code", str (codes "JOB_QUEUE_FULL"))
        ∷ (codes "message", str (codes "Job queue is full. Retry later."))
        ∷ (codes "max_pending", int (pos max_pending))
        ∷ []));
}

unfoldable pub error_value : Raised → Value
error_value e = obj_of ((codes "type", str e.kind) ∷ (codes "message", str e.message) ∷ [])

-- What the pool's `submit` raises once it was shut down.
abbrev pub after_shutdown : Raised
after_shutdown = record {
  kind = codes "RuntimeError";
  message = codes "cannot schedule new stages after shutdown";
}

-- `self._pending.acquire(blocking=False)`, when a permit is free; `id` is the drawn `uuid4().hex`.
unfoldable pub acquire : JobQueue → Text → JobQueue
unfolding put
acquire q id = record q { permits = q.permits - 1; stages = put q.stages id holding }

-- The locked block of `submit`.
unfoldable pub enter : JobQueue → Text → Text → ℕ → JobQueue
unfolding fresh trim put
enter q id name now = record q {
  jobs = trim q.max_history (put q.jobs id (fresh id name now));
  inflight = q.inflight + 1;
  stages = put q.stages id entered;
}

-- `self._executor.submit(...)`, which takes the job.
unfoldable pub hand_over : JobQueue → Text → JobQueue
unfolding put
hand_over q id = record q { stages = put q.stages id pending }

unfoldable pub refused_record : JobRecord → ℕ → JobRecord
unfolding error_value
refused_record r now = record r {
  status = failed;
  finished_at = some now;
  error = some (error_value after_shutdown);
}

-- The locked block after the pool raised.
unfoldable pub withdraw : JobQueue → Text → ℕ → JobQueue
unfolding get put refused_record
withdraw q id now =
    let lowered = record q { inflight = q.inflight - 1; stages = put q.stages id withdrawn } in
    elim (get q.jobs id) [
      | none ↦ lowered
      | some r ↦ record lowered { jobs = put q.jobs id (refused_record r now) }
    ]

-- `self._pending.release()`, after which the job is at the given stage. Above its bound the
-- semaphore raises a ValueError and keeps its value.
unfoldable pub release : JobQueue → Text → Stage → JobQueue
unfolding put
release q id stage = record q {
  permits = if ltb q.permits (capacity q.max_pending) then q.permits + 1 else q.permits;
  stages = put q.stages id stage;
}

-- `submit` after its locked block, when no other thread comes between
unfoldable pub place : JobQueue → Text → Text → ℕ → JobQueue × JobRecord
unfolding hand_over withdraw release fresh refused_record
place q id name now =
    if q.shut
    then (release (withdraw q id now) id rejected, refused_record (fresh id name now) now)
    else (hand_over q id, fresh id name now)

-- `submit` up to the assignment of the `future` field, when no other thread comes between.
unfoldable pub submit : JobQueue → Text → Text → ℕ → JobQueue × JobRecord
unfolding queue_full acquire enter place
submit q id name now = elim (q.permits) [
  | zero ↦ (q, queue_full q.max_pending id name now)
  | suc free ↦ place (enter (acquire q id) id name now) id name now
]

-- `record.future = future`
unfoldable pub attach : JobQueue → Text → JobQueue
unfolding get put
attach q id = elim (get q.jobs id) [
  | none ↦ q
  | some r ↦ record q { jobs = put q.jobs id (record r { attached = true }) }
]

-- `future.cancel()`: a job that waits, or was cancelled before, is cancelled.
abbrev pub can_cancel : Option Stage → Bool
can_cancel (some pending) = true
can_cancel (some dropped) = true
can_cancel _ = false

abbrev pub running_error : Value
running_error =
    obj_of (
      (codes "message", str (codes "Job is already running and cannot be interrupted safely."))
      ∷ [])

abbrev pub cancelled_record : JobRecord → ℕ → JobRecord
cancelled_record r now = record r { status = cancelled; finished_at = some now }

-- `cancel`, once the record was found
unfoldable pub cancel_record : JobQueue → JobRecord → Text → ℕ → JobQueue × JobRecord
unfolding get put
cancel_record q r id now =
    if is_terminal r.status
    then (q, r)
    else if r.attached && can_cancel (get q.stages id)
    then (
      record q { jobs = put q.jobs id (cancelled_record r now); stages = put q.stages id dropped },
      cancelled_record r now,
    )
    else (
      record q { jobs = put q.jobs id (record r { error = some running_error }) },
      record r { error = some running_error },
    )

unfoldable pub cancel : JobQueue → Text → ℕ → JobQueue × Option JobRecord
unfolding cancel_record get
cancel q id now = elim (get q.jobs id) [
  | none ↦ (q, none)
  | some r ↦ let (q', r') = cancel_record q r id now in (q', some r')
]

-- A worker takes the future, which marks it as running.
unfoldable pub take_up : JobQueue → Text → JobQueue
unfolding put
take_up q id = record q { stages = put q.stages id taken }

-- The first locked block of `_run`. A job that the history lacks is a KeyError, which ends the
-- future and gives nothing back.
unfoldable pub start : JobQueue → Text → ℕ → JobQueue
unfolding get put
start q id now = elim (get q.jobs id) [
  | none ↦ record q { stages = put q.stages id crashed }
  | some r ↦ record q {
    jobs = put q.jobs id (record r { status = running; started_at = some now });
    stages = put q.stages id active;
  }
]

-- What the job's function did, when it returned or raised an Exception.
pub data Outcome : Type 0 where
  returned : Value → Outcome
  raised : Raised → Outcome

abbrev pub settled : JobRecord → Outcome → JobRecord
settled r (returned v) = record r { result = v; status = done }
settled r (raised e) = record r { status = failed; error = some (error_value e) }

-- The locked block that writes the outcome.
unfoldable pub settle : JobQueue → Text → Outcome → JobQueue
unfolding get put
settle q id outcome = elim (get q.jobs id) [
  | none ↦ record q { stages = put q.stages id closing }
  | some r ↦ record q { jobs = put q.jobs id (settled r outcome); stages = put q.stages id closing }
]

-- What is raised and is no Exception passes both blocks by.
unfoldable pub escape : JobQueue → Text → JobQueue
unfolding put
escape q id = record q { stages = put q.stages id closing }

-- The locked block of `finally`; a record that was trimmed meanwhile is changed for nobody.
unfoldable pub conclude : JobQueue → Text → ℕ → ℕ → JobQueue
unfolding get put
conclude q id now duration =
    let lowered = record q { inflight = q.inflight - 1; stages = put q.stages id leaving } in
    elim (get q.jobs id) [
      | none ↦ lowered
      | some r ↦ record lowered {
        jobs = put q.jobs id (record r { finished_at = some now; duration_ms = some duration });
      }
    ]

-- `_run` from the worker that takes the future to its end, when no other thread comes between.
unfoldable pub run : JobQueue → Text → Outcome → ℕ → ℕ → ℕ → JobQueue
unfolding take_up start settle conclude release
run q id outcome now later duration =
    release (conclude (settle (start (take_up q id) id now) id outcome) id later duration) id
      finished

abbrev pub drop_pending : Stage → Stage
drop_pending pending = dropped
drop_pending f = f

unfoldable pub drop_all : Dict Stage → Dict Stage
drop_all [] = []
drop_all ((id, f) ∷ fs) = (id, drop_pending f) ∷ drop_all fs

-- `shutdown`, which cancels the stages that wait
unfoldable pub shutdown : JobQueue → JobQueue
unfolding drop_all
shutdown q = record q { stages = drop_all q.stages; shut = true }
