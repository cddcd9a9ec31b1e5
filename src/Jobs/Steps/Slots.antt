-- ===== src/Jobs/Steps/Slots.antt =====
-- Where the permits of the queue are: free, or held by a job that has not given it back.
use quick_api.Base.{
  ℕ, ◌+◌, ◌-◌, ◌≤◌, ◌<◌, Text, Dict, get, put, Bool, true, false, ◌&&◌, none, some, [], ◌∷◌, ◌≡◌,
  refl, sym, ◌∙◌, ap, arith, Bool-cases, Option-cases, inl, inr,
}
use quick_api.Jobs.{
  JobRecord, JobQueue, Stage, holding, entered, withdrawn, rejected, pending, taken, active,
  closing, leaving, finished, dropped, crashed, capacity, new, acquire, enter, hand_over, withdraw,
  release, submit, attach, cancel, cancel_record, can_cancel, is_terminal, take_up, start, settle,
  escape, conclude, shutdown, Outcome, queue_full,
}
use quick_api.Jobs.Steps.{
  Step, acquiring, entering, handing, withdrawing, rejecting, attaching, cancelling, taking,
  starting, settling, escaping, concluding, releasing, stopping, Reach, here, next,
}
use quick_api.Jobs.Steps.Stages.{
  held, counted, lost, total, total-put_new, total-put, total-drop_all,
}

pub record IsAccounted (q : JobQueue) : Type 0 where
  pub permits : q.permits + total held q.stages ≡ capacity q.max_pending
  pub inflight : q.inflight ≡ total counted q.stages

and_right : (a b : Bool) → (a && b) ≡ true → b ≡ true
and_right true b h = h
and_right false b h = cc

module _ (q : JobQueue) (h : IsAccounted q) where
  acquire-IsAccounted :
      (id : Text) → get q.stages id ≡ none → 0 < q.permits → IsAccounted (acquire q id)
  unfolding acquire
  acquire-IsAccounted id unused room = record {
    permits = omega (arith, h.permits, room, total-put_new held q.stages id holding unused);
    inflight = omega (arith, h.inflight, total-put_new counted q.stages id holding unused);
  }

  enter-IsAccounted :
      (id name : Text) (now : ℕ)
      → get q.stages id ≡ some holding
      → IsAccounted (enter q id name now)
  unfolding enter
  enter-IsAccounted id name now e = record {
    permits = omega (arith, h.permits, total-put held q.stages id entered holding e);
    inflight = omega (arith, h.inflight, total-put counted q.stages id entered holding e);
  }

  -- A stage that holds and counts as the one before does.
  moved :
      (id : Text) (f g : Stage)
      → get q.stages id ≡ some g
      → held f ≡ held g
      → counted f ≡ counted g
      → (q.permits + total held (put q.stages id f) ≡ capacity q.max_pending)
        × (q.inflight ≡ total counted (put q.stages id f))
  moved id f g e same alike = omega (
    arith,
    h.permits,
    h.inflight,
    same,
    alike,
    total-put held q.stages id f g e,
    total-put counted q.stages id f g e,
  )

  -- A stage that holds as before and is no longer counted.
  lowered :
      (id : Text) (f g : Stage)
      → get q.stages id ≡ some g
      → held f ≡ held g
      → counted f + 1 ≡ counted g
      → (q.permits + total held (put q.stages id f) ≡ capacity q.max_pending)
        × (q.inflight - 1 ≡ total counted (put q.stages id f))
  lowered id f g e same less = omega (
    arith,
    h.permits,
    h.inflight,
    same,
    less,
    total-put held q.stages id f g e,
    total-put counted q.stages id f g e,
  )

  hand_over-IsAccounted :
      (id : Text) → get q.stages id ≡ some entered → IsAccounted (hand_over q id)
  unfolding hand_over
  hand_over-IsAccounted id e =
      let (p, i) = moved id pending entered e refl refl in record { permits = p; inflight = i }

  withdraw-IsAccounted :
      (id : Text) (now : ℕ) → get q.stages id ≡ some entered → IsAccounted (withdraw q id now)
  unfolding withdraw
  withdraw-IsAccounted id now e =
      let (p, i) = lowered id withdrawn entered e refl refl in
      elim (Option-cases (get q.jobs id)) [
        | inl gone ↦ rw (gone, withdraw) (record { permits = p; inflight = i })
        | inr (r, there) ↦ rw (there, withdraw) (record { permits = p; inflight = i })
      ]

  -- While a job holds a permit, a release does not go above the bound.
  release-within :
      (id : Text) (g : Stage)
      → get q.stages id ≡ some g
      → held g ≡ 1
      → q.permits < capacity q.max_pending
  release-within id g e one = omega (arith, h.permits, one, total-put held q.stages id finished g e)

  release-IsAccounted :
      (id : Text) (f g : Stage)
      → get q.stages id ≡ some g
      → held g ≡ held f + 1
      → counted f ≡ counted g
      → IsAccounted (release q id f)
  unfolding release
  release-IsAccounted id f g e less alike = record {
    permits = ground (arith, h.permits, less, total-put held q.stages id f g e);
    inflight = omega (arith, h.inflight, alike, total-put counted q.stages id f g e);
  }

  attach-IsAccounted : (id : Text) → IsAccounted (attach q id)
  unfolding attach
  attach-IsAccounted id = elim (Option-cases (get q.jobs id)) [
    | inl gone ↦ rw (gone, attach) h
    | inr (r, there) ↦ rw (there, attach) (record { permits = h.permits; inflight = h.inflight })
  ]

  -- A future that can be cancelled holds and counts afterwards too.
  cancelled_weight :
      (w : Stage → ℕ) (id : Text)
      → w pending ≡ w dropped
      → can_cancel (get q.stages id) ≡ true
      → total w (put q.stages id dropped) ≡ total w q.stages
  cancelled_weight w id same can = elim (Option-cases (get q.stages id)) [
    | inl gone ↦ cc (rw gone at can)
    | inr (f, there) ↦ at_stage f there (rw there at can)
  ]
    where
      at_stage :
          (f : Stage)
          → get q.stages id ≡ some f
          → can_cancel (some f) ≡ true
          → total w (put q.stages id dropped) ≡ total w q.stages
      at_stage pending e can = omega (arith, same, total-put w q.stages id dropped pending e)
      at_stage dropped e can = omega (arith, total-put w q.stages id dropped dropped e)
      at_stage holding e can = cc
      at_stage entered e can = cc
      at_stage withdrawn e can = cc
      at_stage rejected e can = cc
      at_stage taken e can = cc
      at_stage active e can = cc
      at_stage closing e can = cc
      at_stage leaving e can = cc
      at_stage finished e can = cc
      at_stage crashed e can = cc

  cancel_record-IsAccounted :
      (r : JobRecord) (id : Text) (now : ℕ) → IsAccounted (cancel_record q r id now).0
  unfolding cancel_record
  cancel_record-IsAccounted r id now = elim (Bool-cases (is_terminal r.status)) [
    | inl over ↦ rw (over, cancel_record) h
    | inr live ↦ elim (Bool-cases (r.attached && can_cancel (get q.stages id))) [
      | inl can ↦
          let can_be = and_right r.attached _ can in
          rw (live, can, cancel_record)
            (record {
              permits = ap (λ n. q.permits + n) (cancelled_weight held id refl can_be) ∙ h.permits;
              inflight = h.inflight ∙ sym (cancelled_weight counted id refl can_be);
            })
      | inr not_now ↦
          rw (live, not_now, cancel_record) (record { permits = h.permits; inflight = h.inflight })
    ]
  ]

  cancel-IsAccounted : (id : Text) (now : ℕ) → IsAccounted (cancel q id now).0
  unfolding cancel
  cancel-IsAccounted id now = elim (Option-cases (get q.jobs id)) [
    | inl gone ↦ rw (gone, cancel) h
    | inr (r, there) ↦ rw (there, cancel) (cancel_record-IsAccounted r id now)
  ]

  take_up-IsAccounted : (id : Text) → get q.stages id ≡ some pending → IsAccounted (take_up q id)
  unfolding take_up
  take_up-IsAccounted id e =
      let (p, i) = moved id taken pending e refl refl in record { permits = p; inflight = i }

  start-IsAccounted :
      (id : Text) (now : ℕ) → get q.stages id ≡ some taken → IsAccounted (start q id now)
  unfolding start
  start-IsAccounted id now e =
      let (p, i) = moved id active taken e refl refl in
      let (p', i') = moved id crashed taken e refl refl in
      elim (Option-cases (get q.jobs id)) [
        | inl gone ↦ rw (gone, start) (record { permits = p'; inflight = i' })
        | inr (r, there) ↦ rw (there, start) (record { permits = p; inflight = i })
      ]

  settle-IsAccounted :
      (id : Text) (outcome : Outcome)
      → get q.stages id ≡ some active
      → IsAccounted (settle q id outcome)
  unfolding settle
  settle-IsAccounted id outcome e =
      let (p, i) = moved id closing active e refl refl in
      elim (Option-cases (get q.jobs id)) [
        | inl gone ↦ rw (gone, settle) (record { permits = p; inflight = i })
        | inr (r, there) ↦ rw (there, settle) (record { permits = p; inflight = i })
      ]

  escape-IsAccounted : (id : Text) → get q.stages id ≡ some active → IsAccounted (escape q id)
  unfolding escape
  escape-IsAccounted id e =
      let (p, i) = moved id closing active e refl refl in record { permits = p; inflight = i }

  conclude-IsAccounted :
      (id : Text) (now duration : ℕ)
      → get q.stages id ≡ some closing
      → IsAccounted (conclude q id now duration)
  unfolding conclude
  conclude-IsAccounted id now duration e =
      let (p, i) = lowered id leaving closing e refl refl in
      elim (Option-cases (get q.jobs id)) [
        | inl gone ↦ rw (gone, conclude) (record { permits = p; inflight = i })
        | inr (r, there) ↦ rw (there, conclude) (record { permits = p; inflight = i })
      ]

  shutdown-IsAccounted : IsAccounted (shutdown q)
  unfolding shutdown
  shutdown-IsAccounted = record {
    permits = ap (λ n. q.permits + n) (total-drop_all held q.stages refl) ∙ h.permits;
    inflight = h.inflight ∙ sym (total-drop_all counted q.stages refl);
  }

Step-IsAccounted : {q s : JobQueue} → IsAccounted q → Step q s → IsAccounted s
Step-IsAccounted {q} h (acquiring id unused room) = acquire-IsAccounted q h id unused room
Step-IsAccounted {q} h (entering id name now e) = enter-IsAccounted q h id name now e
Step-IsAccounted {q} h (handing id e opened) = hand_over-IsAccounted q h id e
Step-IsAccounted {q} h (withdrawing id now e closed) = withdraw-IsAccounted q h id now e
Step-IsAccounted {q} h (rejecting id e) = release-IsAccounted q h id rejected withdrawn e refl refl
Step-IsAccounted {q} h (attaching id known) = attach-IsAccounted q h id
Step-IsAccounted {q} h (cancelling id now) = cancel-IsAccounted q h id now
Step-IsAccounted {q} h (taking id e) = take_up-IsAccounted q h id e
Step-IsAccounted {q} h (starting id now e) = start-IsAccounted q h id now e
Step-IsAccounted {q} h (settling id outcome e) = settle-IsAccounted q h id outcome e
Step-IsAccounted {q} h (escaping id e) = escape-IsAccounted q h id e
Step-IsAccounted {q} h (concluding id now duration e) = conclude-IsAccounted q h id now duration e
Step-IsAccounted {q} h (releasing id e) = release-IsAccounted q h id finished leaving e refl refl
Step-IsAccounted {q} h stopping = shutdown-IsAccounted q h

new-IsAccounted : (max_history max_pending : ℕ) → IsAccounted (new max_history max_pending)
unfolding new total
new-IsAccounted max_history max_pending = record { permits = omega arith; inflight = refl }

accounted :
    (max_history max_pending : ℕ) {s : JobQueue}
    → Reach (new max_history max_pending) s
    → IsAccounted s
accounted max_history max_pending here = new-IsAccounted max_history max_pending
accounted max_history max_pending (next r st) =
    Step-IsAccounted (accounted max_history max_pending r) st

-- In every state that the steps of a queue's threads reach, where a step is one locked block, one
-- call of the semaphore or one change of a future: the free permits and the jobs that hold one,
-- from the semaphore's acquire to its release, make up the capacity, and the count of jobs in
-- flight is the number of jobs between the locked block that raises it and the one that lowers it.
-- Whenever a job is about to give its permit back, fewer than the capacity are free, so the bounded
-- semaphore never raises.
pub Reach-IsAccounted :
    (max_history max_pending : ℕ) (s : JobQueue)
    → Reach (new max_history max_pending) s
    → IsAccounted s
      × ((id : Text) (g : Stage)
          → get s.stages id ≡ some g
          → held g ≡ 1
          → s.permits < capacity s.max_pending)
Reach-IsAccounted max_history max_pending s r =
    let h = accounted max_history max_pending r in (h, release-within s h)

lost-le-held : (fs : Dict Stage) → total lost fs ≤ total held fs
unfolding total
lost-le-held [] = omega arith
lost-le-held ((id, f) ∷ fs) = omega (arith, lost-le f, lost-le-held fs)
  where
    lost-le : (f : Stage) → lost f ≤ held f
    lost-le f = ground arith

-- A cancelled job never gives its slot back: once as many jobs were cancelled before they started
-- as the queue has slots, every later submission is refused with `JOB_QUEUE_FULL` and changes
-- nothing, whatever else has ended.
pub submit_after_cancellations :
    (max_history max_pending : ℕ) (s : JobQueue) (id name : Text) (now : ℕ)
    → Reach (new max_history max_pending) s
    → capacity s.max_pending ≤ total lost s.stages
    → submit s id name now ≡ (s, queue_full s.max_pending id name now)
unfolding submit
submit_after_cancellations max_history max_pending s id name now r many =
    let h = accounted max_history max_pending r in
    let none_free : s.permits ≡ 0 = omega (arith, h.permits, many, lost-le-held s.stages) in
    ground (arith, none_free)
