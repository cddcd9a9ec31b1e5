-- ===== src/Jobs/Steps/Completion.antt =====
-- A job that waits can be run to its end.
use quick_api.Base.{
  ℕ, ◌+◌, ◌-◌, ◌<◌, Text, get, get-own, Option, none, some, true, ◌≡◌, refl, sym, ap, ◌∙◌, arith,
}
use quick_api.Jobs.{
  JobRecord, JobQueue, is_terminal, Stage, pending, taken, active, closing, leaving, finished, new,
  capacity, take_up, start, settle, conclude, release, run, settled, Outcome, returned, raised,
  running,
}
use quick_api.Jobs.Steps.{taking, starting, settling, concluding, releasing, Reach, next}
use quick_api.Jobs.Steps.Stages.{counted, total-put}
use quick_api.Jobs.Steps.Linked.{Reach-Linked}
use quick_api.Jobs.Steps.Fits.{fits}
use quick_api.Jobs.Steps.Slots.{Reach-IsAccounted}

settled-terminal :
    (r : JobRecord) (outcome : Outcome) → is_terminal (settled r outcome).status ≡ true
settled-terminal r (returned v) = refl
settled-terminal r (raised e) = refl

-- What the run of a job leaves: its record has ended, and its slot is given back.
pub record IsCompleted (q t : JobQueue) (id : Text) : Type 0 where
  pub entry : JobRecord
  pub held : get t.jobs id ≡ some entry
  pub over : is_terminal entry.status ≡ true
  pub permits : t.permits ≡ q.permits + 1
  pub inflight : t.inflight + 1 ≡ q.inflight

-- A state in which the job has this stage, its record is this one, and the numbers are these.
record IsAt (q : JobQueue) (id : Text) (f : Stage) (r : JobRecord) (permits inflight max : ℕ)
    : Type 0 where
  stage : get q.stages id ≡ some f
  entry : get q.jobs id ≡ some r
  free : q.permits ≡ permits
  count : q.inflight ≡ inflight
  bound : q.max_pending ≡ max

module _ (id : Text) {r : JobRecord} {permits inflight max : ℕ} where
  take_up-IsAt :
      (q : JobQueue) (f : Stage)
      → IsAt q id f r permits inflight max
      → IsAt (take_up q id) id taken r permits inflight max
  unfolding take_up
  take_up-IsAt q f h = record {
    stage = get-own q.stages id taken;
    entry = h.entry;
    free = h.free;
    count = h.count;
    bound = h.bound;
  }

  start-IsAt :
      (q : JobQueue) (f : Stage) (now : ℕ)
      → IsAt q id f r permits inflight max
      → IsAt
          (start q id now)
          id
          active
          (record r { status = running; started_at = some now })
          permits
          inflight
          max
  unfolding start
  start-IsAt q f now h =
      rw (h.entry, start)
        (record {
          stage = get-own q.stages id active;
          entry = get-own q.jobs id _;
          free = h.free;
          count = h.count;
          bound = h.bound;
        })

  settle-IsAt :
      (q : JobQueue) (f : Stage) (outcome : Outcome)
      → IsAt q id f r permits inflight max
      → IsAt (settle q id outcome) id closing (settled r outcome) permits inflight max
  unfolding settle
  settle-IsAt q f outcome h =
      rw (h.entry, settle)
        (record {
          stage = get-own q.stages id closing;
          entry = get-own q.jobs id _;
          free = h.free;
          count = h.count;
          bound = h.bound;
        })

  conclude-IsAt :
      (q : JobQueue) (f : Stage) (now duration : ℕ)
      → IsAt q id f r permits inflight max
      → IsAt
          (conclude q id now duration)
          id
          leaving
          (record r { finished_at = some now; duration_ms = some duration })
          permits
          (inflight - 1)
          max
  unfolding conclude
  conclude-IsAt q f now duration h =
      rw (h.entry, conclude)
        (record {
          stage = get-own q.stages id leaving;
          entry = get-own q.jobs id _;
          free = h.free;
          count = ap (λ n. n - 1) h.count;
          bound = h.bound;
        })

  release-IsAt :
      (q : JobQueue) (f : Stage)
      → IsAt q id f r permits inflight max
      → permits < capacity max
      → IsAt (release q id finished) id finished r (permits + 1) inflight max
  unfolding release
  release-IsAt q f h room = record {
    stage = get-own q.stages id finished;
    entry = h.entry;
    free = ground (arith, h.free, h.bound, room);
    count = h.count;
    bound = h.bound;
  }

fits-queued : (o : Option JobRecord) → fits (some pending) o ≡ true → (r : JobRecord) × (o ≡ some r)
fits-queued none e = absurd (cc e)
fits-queued (some r) e = (r, refl)

-- A job that waits in the pool of a state that the queue can reach can be run to its end: a worker
-- takes it, its function returns or raises an Exception, and the worker goes through the locked
-- blocks and the release, in five steps, after which its record is in the history with a status
-- that has ended, one more permit is free, and one job less is in flight.
pub Reach-completes :
    (max_history max_pending : ℕ) (q : JobQueue) (id : Text) (outcome : Outcome)
    (now later duration : ℕ)
    → Reach (new max_history max_pending) q
    → get q.stages id ≡ some pending
    → Reach (new max_history max_pending) (run q id outcome now later duration)
      × IsCompleted q (run q id outcome now later duration) id
unfolding run
Reach-completes max_history max_pending q id outcome now later duration reach waits =
    let linked = Reach-Linked max_history max_pending q reach in
    let (books, within) = Reach-IsAccounted max_history max_pending q reach in
    let (r, there) =
      fits-queued (get q.jobs id)
        (ap (λ f. fits f (get q.jobs id)) (sym waits) ∙ linked.fitting id) in
    let h0 : IsAt q id pending r q.permits q.inflight q.max_pending = record {
      stage = waits;
      entry = there;
      free = refl;
      count = refl;
      bound = refl;
    } in
    let h1 = take_up-IsAt id q pending h0 in
    let h2 = start-IsAt id (take_up q id) taken now h1 in
    let h3 = settle-IsAt id (start (take_up q id) id now) active outcome h2 in
    let h4 =
      conclude-IsAt id (settle (start (take_up q id) id now) id outcome) closing later duration
        h3 in
    let h5 =
      release-IsAt id (conclude (settle (start (take_up q id) id now) id outcome) id later duration)
        leaving h4 (within id pending waits refl) in
    (
      next
          (next
            (next (next (next reach (taking id waits)) (starting id now h1.stage))
              (settling id outcome h2.stage))
            (concluding id later duration h3.stage))
          (releasing id h4.stage),
      record {
        entry = _;
        held = h5.entry;
        over = settled-terminal (record r { status = running; started_at = some now }) outcome;
        permits = h5.free;
        inflight =
            omega (
              arith,
              h5.count,
              books.inflight,
              total-put counted q.stages id finished pending waits,
            );
      },
    )
