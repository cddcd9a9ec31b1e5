-- ===== src/Jobs/Steps.antt =====
-- The operations of all threads, interleaved, and what holds in every state that they reach.
pub mod Stages
pub mod Fits
pub mod Linked
pub mod Slots
pub mod Completion
use quick_api.Base.{ℕ, ◌<◌, Bool, true, false, Text, get, Option, none, some, ◌≡◌}
use quick_api.Jobs.{
  JobQueue, Stage, Outcome, holding, entered, withdrawn, rejected, pending, taken, active, closing,
  leaving, finished, dropped, crashed, acquire, enter, hand_over, withdraw, release, attach, cancel,
  take_up, start, settle, escape, conclude, shutdown,
}

-- The pool has a future for the job.
abbrev pub has_future : Option Stage → Bool
has_future none = false
has_future (some holding) = false
has_future (some entered) = false
has_future (some withdrawn) = false
has_future (some rejected) = false
has_future (some _) = true

-- A submission draws an id that was not drawn before. Every thread goes on from where it is;
-- a cancellation and a shutdown may happen at any time.
pub data Step (q : JobQueue) : JobQueue → Type 0 where
  acquiring : (id : Text) → get q.stages id ≡ none → 0 < q.permits → Step q (acquire q id)
  entering :
      (id name : Text) (now : ℕ) → get q.stages id ≡ some holding → Step q (enter q id name now)
  handing : (id : Text) → get q.stages id ≡ some entered → q.shut ≡ false → Step q (hand_over q id)
  withdrawing :
      (id : Text) (now : ℕ)
      → get q.stages id ≡ some entered
      → q.shut ≡ true
      → Step q (withdraw q id now)
  rejecting : (id : Text) → get q.stages id ≡ some withdrawn → Step q (release q id rejected)
  attaching : (id : Text) → has_future (get q.stages id) ≡ true → Step q (attach q id)
  cancelling : (id : Text) (now : ℕ) → Step q (cancel q id now).0
  taking : (id : Text) → get q.stages id ≡ some pending → Step q (take_up q id)
  starting : (id : Text) (now : ℕ) → get q.stages id ≡ some taken → Step q (start q id now)
  settling :
      (id : Text) (outcome : Outcome) → get q.stages id ≡ some active → Step q (settle q id outcome)
  escaping : (id : Text) → get q.stages id ≡ some active → Step q (escape q id)
  concluding :
      (id : Text) (now duration : ℕ)
      → get q.stages id ≡ some closing
      → Step q (conclude q id now duration)
  releasing : (id : Text) → get q.stages id ≡ some leaving → Step q (release q id finished)
  stopping : Step q (shutdown q)

pub data Reach (q : JobQueue) : JobQueue → Type 0 where
  here : Reach q q
  next : {s t : JobQueue} → Reach q s → Step s t → Reach q t
