-- ===== src/Jobs/Steps/Linked.antt =====
-- What the history says of a job, at each stage of it, in every state that the threads reach.
use quick_api.Base.{
  ℕ, Text, get, true, ◌&&◌, Option, none, some, ◌≡◌, refl, sym, ◌∙◌, ap, text_eq, Bool-cases,
  Option-cases, inl, inr,
}
use quick_api.Jobs.{
  JobRecord, JobQueue, is_terminal, Stage, holding, entered, withdrawn, rejected, pending, taken,
  active, closing, leaving, finished, dropped, new, acquire, enter, hand_over, withdraw, release,
  attach, cancel, cancel_record, can_cancel, take_up, start, settle, escape, conclude, shutdown,
  refused_record, Outcome, fresh,
}
use quick_api.Jobs.Steps.{
  Step, acquiring, entering, handing, withdrawing, rejecting, attaching, cancelling, taking,
  starting, settling, escaping, concluding, releasing, stopping, Reach, here, next,
}
use quick_api.Jobs.Steps.Fits.{
  fits, fits_of_status, settled-id, settled-was_run, running-was_run, named_at, IsLinked-both,
  IsLinked-job, IsLinked-stage, IsLinked-trim, IsLinked-drop_all, Linked,
}

-- What the history holds of a job at a known stage.
at_stage :
    (q : JobQueue) (id : Text) (f : Stage)
    → Linked q
    → get q.stages id ≡ some f
    → fits (some f) (get q.jobs id) ≡ true
at_stage q id f h e = ap (λ g. fits g (get q.jobs id)) (sym e) ∙ h.fitting id

module _ (q : JobQueue) (h : Linked q) where
  acquire-Linked : (id : Text) → get q.stages id ≡ none → Linked (acquire q id)
  unfolding acquire
  acquire-Linked id unused = elim (Option-cases (get q.jobs id)) [
    | inl gone ↦ IsLinked-stage h id holding (rw gone refl)
    | inr (r, there) ↦ absurd (cc (rw (unused, there) at (h.fitting id)))
  ]

  enter-Linked :
      (id name : Text) (now : ℕ) → get q.stages id ≡ some holding → Linked (enter q id name now)
  unfolding enter fresh
  enter-Linked id name now holds =
      IsLinked-trim (IsLinked-both h id (fresh id name now) entered refl refl) q.max_history

  hand_over-Linked : (id : Text) → get q.stages id ≡ some entered → Linked (hand_over q id)
  unfolding hand_over
  hand_over-Linked id e = elim (Option-cases (get q.jobs id)) [
    | inl gone ↦ absurd (cc (rw (e, gone) at (h.fitting id)))
    | inr (r, there) ↦
        IsLinked-stage h id pending (rw (there) (rw (there) at (at_stage q id entered h e)))
  ]

  withdraw-Linked :
      (id : Text) (now : ℕ) → get q.stages id ≡ some entered → Linked (withdraw q id now)
  unfolding withdraw refused_record
  withdraw-Linked id now e = elim (Option-cases (get q.jobs id)) [
    | inl gone ↦ rw (gone, withdraw) (IsLinked-stage h id withdrawn (rw gone refl))
    | inr (r, there) ↦
        rw (there, withdraw)
          (IsLinked-both h id _ withdrawn (named_at q.jobs id r h.named there) refl)
  ]

  -- A release, and a stage that asks for the same.
  release-Linked :
      (id : Text) (stage : Stage)
      → fits (some stage) (get q.jobs id) ≡ true
      → Linked (release q id stage)
  unfolding release
  release-Linked id stage k = record {
    distinct = h.distinct;
    named = h.named;
    fitting = (IsLinked-stage h id stage k).fitting;
  }

  attach-Linked : (id : Text) → Linked (attach q id)
  unfolding attach
  attach-Linked id = elim (Option-cases (get q.jobs id)) [
    | inl gone ↦ rw (gone, attach) h
    | inr (r, there) ↦
        rw (there, attach)
          (IsLinked-job h id _ (named_at q.jobs id r h.named there)
            (fits_of_status (get q.stages id) r _ (rw there at (h.fitting id)) refl))
  ]

  take_up-Linked : (id : Text) → get q.stages id ≡ some pending → Linked (take_up q id)
  unfolding take_up
  take_up-Linked id e = IsLinked-stage h id taken (same (get q.jobs id) (at_stage q id pending h e))
    where
      same : (o : Option JobRecord) → fits (some pending) o ≡ true → fits (some taken) o ≡ true
      same none k = k
      same (some r) k = k

  start-Linked : (id : Text) (now : ℕ) → get q.stages id ≡ some taken → Linked (start q id now)
  unfolding start
  start-Linked id now e = elim (Option-cases (get q.jobs id)) [
    | inl gone ↦ absurd (cc (rw (e, gone) at (h.fitting id)))
    | inr (r, there) ↦
        rw (there, start) (IsLinked-both h id _ active (named_at q.jobs id r h.named there) refl)
  ]

  settle-Linked : (id : Text) (outcome : Outcome) → Linked (settle q id outcome)
  unfolding settle
  settle-Linked id outcome = elim (Option-cases (get q.jobs id)) [
    | inl gone ↦ rw (gone, settle) (IsLinked-stage h id closing (rw gone refl))
    | inr (r, there) ↦
        rw (there, settle)
          (IsLinked-both h id _ closing (settled-id r outcome ∙ named_at q.jobs id r h.named there)
            (settled-was_run r outcome))
  ]

  escape-Linked : (id : Text) → get q.stages id ≡ some active → Linked (escape q id)
  unfolding escape
  escape-Linked id e = IsLinked-stage h id closing (ran (get q.jobs id) (at_stage q id active h e))
    where
      ran : (o : Option JobRecord) → fits (some active) o ≡ true → fits (some closing) o ≡ true
      ran none k = refl
      ran (some r) k = running-was_run r.status k

  conclude-Linked :
      (id : Text) (now duration : ℕ)
      → get q.stages id ≡ some closing
      → Linked (conclude q id now duration)
  unfolding conclude
  conclude-Linked id now duration e = elim (Option-cases (get q.jobs id)) [
    | inl gone ↦ rw (gone, conclude) (IsLinked-stage h id leaving (rw gone refl))
    | inr (r, there) ↦
        rw (there, conclude)
          (IsLinked-both h id _ leaving (named_at q.jobs id r h.named there)
            (rw (there) at (at_stage q id closing h e)))
  ]

  cancel_record-Linked :
      (r : JobRecord) (id : Text) (now : ℕ)
      → get q.jobs id ≡ some r
      → Linked (cancel_record q r id now).0
  unfolding cancel_record
  cancel_record-Linked r id now there =
      let own : r.id ≡ id = named_at q.jobs id r h.named there in
      elim (Bool-cases (is_terminal r.status)) [
        | inl over ↦ rw (over, cancel_record) h
        | inr live ↦ elim (Bool-cases (r.attached && can_cancel (get q.stages id))) [
          | inl can ↦ rw (live, can, cancel_record) (IsLinked-both h id _ dropped own refl)
          | inr not_now ↦
              rw (live, not_now, cancel_record)
                (IsLinked-job h id _ own
                  (fits_of_status (get q.stages id) r _ (rw there at (h.fitting id)) refl))
        ]
      ]

  cancel-Linked : (id : Text) (now : ℕ) → Linked (cancel q id now).0
  unfolding cancel
  cancel-Linked id now = elim (Option-cases (get q.jobs id)) [
    | inl gone ↦ rw (gone, cancel) h
    | inr (r, there) ↦ rw (there, cancel) (cancel_record-Linked r id now there)
  ]

Step-Linked : {q s : JobQueue} → Linked q → Step q s → Linked s
Step-Linked {q} h (acquiring id unused room) = acquire-Linked q h id unused
Step-Linked {q} h (entering id name now e) = enter-Linked q h id name now e
Step-Linked {q} h (handing id e opened) = hand_over-Linked q h id e
Step-Linked {q} h (withdrawing id now e closed) = withdraw-Linked q h id now e
Step-Linked {q} h (rejecting id e) =
    release-Linked q h id rejected (same (get q.jobs id) (at_stage q id withdrawn h e))
  where
    same : (o : Option JobRecord) → fits (some withdrawn) o ≡ true → fits (some rejected) o ≡ true
    same none k = k
    same (some r) k = k
Step-Linked {q} h (attaching id known) = attach-Linked q h id
Step-Linked {q} h (cancelling id now) = cancel-Linked q h id now
Step-Linked {q} h (taking id e) = take_up-Linked q h id e
Step-Linked {q} h (starting id now e) = start-Linked q h id now e
Step-Linked {q} h (settling id outcome e) = settle-Linked q h id outcome
Step-Linked {q} h (escaping id e) = escape-Linked q h id e
Step-Linked {q} h (concluding id now duration e) = conclude-Linked q h id now duration e
Step-Linked {q} h (releasing id e) =
    release-Linked q h id finished (same (get q.jobs id) (at_stage q id leaving h e))
  where
    same : (o : Option JobRecord) → fits (some leaving) o ≡ true → fits (some finished) o ≡ true
    same none k = k
    same (some r) k = k
Step-Linked {q} h stopping = shutdown_linked
  where
    shutdown_linked : Linked (shutdown q)
    shutdown_linked = unfold shutdown in IsLinked-drop_all h

new-Linked : (max_history max_pending : ℕ) → Linked (new max_history max_pending)
unfolding new get
new-Linked max_history max_pending = record { distinct = tt; named = tt; fitting = λ id. refl }

-- In every state that the steps of a queue's threads reach, where a step is one locked block, one
-- call of the semaphore or one change of a future: the history's keys are distinct, every record
-- stands under its own id, and it fits the stage of its job. A job that was entered and not yet
-- started, whether the pool has it or a worker took it, is in the history and queued; one whose
-- function runs is there and running; so trimming has removed neither, no cancellation has changed
-- the status of a job that went on, and no worker finds its record gone. Afterwards its record, if
-- it was not trimmed, is neither queued nor cancelled; that of a cancelled future is queued or
-- cancelled, and that of a refused job failed.
pub Reach-Linked :
    (max_history max_pending : ℕ) (s : JobQueue) → Reach (new max_history max_pending) s → Linked s
Reach-Linked max_history max_pending s r = along r
  where
    along : {t : JobQueue} → Reach (new max_history max_pending) t → Linked t
    along here = new-Linked max_history max_pending
    along (next r st) = Step-Linked (along r) st
