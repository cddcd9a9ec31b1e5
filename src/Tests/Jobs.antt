-- ===== src/Tests/Jobs.antt =====
-- A queue of one slot, whose only job is cancelled before it starts, or is run to its end.
use quick_api.Base.{◌≤◌, ◌<◌, codes, get, some, null, true, Text, ◌≡◌, refl, arith, str_beq}
use quick_api.Jobs.{
  JobQueue, Stage, capacity, new, acquire, enter, hand_over, submit, attach, cancel, queue_full,
  run, returned, pending,
}
use quick_api.Jobs.Steps.{
  Reach, here, next, has_future, acquiring, entering, handing, attaching, cancelling,
}
use quick_api.Jobs.Steps.Stages.{total, held, lost}
use quick_api.Jobs.Steps.Fits.{Linked}
use quick_api.Jobs.Steps.Linked.{Reach-Linked}
use quick_api.Jobs.Steps.Completion.{IsCompleted, Reach-completes}
use quick_api.Jobs.Steps.Slots.{IsAccounted, Reach-IsAccounted, submit_after_cancellations}

abbrev empty : JobQueue
empty = new 10 1

abbrev holding_queue : JobQueue
holding_queue = acquire empty (codes "j1")

abbrev entered_queue : JobQueue
entered_queue = enter holding_queue (codes "j1") (codes "job") 1

abbrev waiting_queue : JobQueue
waiting_queue = hand_over entered_queue (codes "j1")

abbrev pub assigned_queue : JobQueue
assigned_queue = attach waiting_queue (codes "j1")

abbrev cancelled_queue : JobQueue
cancelled_queue = (cancel assigned_queue (codes "j1") 2).0

-- With no other thread between, the three steps are the submission.
submitted : (submit empty (codes "j1") (codes "job") 1).0 ≡ waiting_queue
unfolding submit acquire enter hand_over new
submitted = refl

waiting_reached : Reach empty waiting_queue
unfolding acquire enter new codes str_beq get
waiting_reached =
    next
      (next (next here (acquiring (codes "j1") refl (omega arith)))
        (entering (codes "j1") (codes "job") 1 refl))
      (handing (codes "j1") refl refl)

known : has_future (get waiting_queue.stages (codes "j1")) ≡ true
unfolding hand_over enter acquire new codes str_beq get
known = refl

cancelled_reached : Reach empty cancelled_queue
cancelled_reached =
    next (next waiting_reached (attaching (codes "j1") known)) (cancelling (codes "j1") 2)

one_lost : capacity cancelled_queue.max_pending ≤ total lost cancelled_queue.stages
unfolding cancel attach hand_over enter acquire new total codes str_beq
one_lost = omega arith

Reach-Linked_example : Linked cancelled_queue
Reach-Linked_example = Reach-Linked 10 1 cancelled_queue cancelled_reached

Reach-IsAccounted_example :
    IsAccounted cancelled_queue
    × ((id : Text) (g : Stage)
        → get cancelled_queue.stages id ≡ some g
        → held g ≡ 1
        → cancelled_queue.permits < capacity cancelled_queue.max_pending)
Reach-IsAccounted_example = Reach-IsAccounted 10 1 cancelled_queue cancelled_reached

submit_after_cancellations_example :
    submit cancelled_queue (codes "j2") (codes "job") 3
    ≡ (cancelled_queue, queue_full cancelled_queue.max_pending (codes "j2") (codes "job") 3)
submit_after_cancellations_example =
    submit_after_cancellations 10 1 cancelled_queue (codes "j2") (codes "job") 3 cancelled_reached
      one_lost

waiting : get waiting_queue.stages (codes "j1") ≡ some pending
unfolding hand_over enter acquire new codes str_beq get
waiting = refl

Reach-completes_example :
    Reach empty (run waiting_queue (codes "j1") (returned null) 2 3 1)
    × IsCompleted waiting_queue (run waiting_queue (codes "j1") (returned null) 2 3 1) (codes "j1")
Reach-completes_example =
    Reach-completes 10 1 waiting_queue (codes "j1") (returned null) 2 3 1 waiting_reached waiting
