-- ===== src/App/Pipeline/Answers.antt =====
-- Every request is answered with a response that is marked with it, and never with an exception.
use quick_api.Base.{Text, none, ◌≡◌, Result, ok, raise}
use quick_api.Http.{Request}
use quick_api.Middleware.{Middleware}
use quick_api.Middleware
use quick_api.Ml.Floats.{Floats}
use quick_api.App.Finalize.{Final}
use quick_api.App.Finalize.Marked.{IsMarked, settle-IsMarked}
use quick_api.App.Parts.{State, Moment, App}
use quick_api.App.Pipeline.{Returned, finalized, unfinalized, respond, handle_request}

module _ {F W H : Type 0} ⦃n : Floats F⦄ (app : App F W H) where
  -- Whatever the built-in endpoints, the validators, the dependencies and the handler raise or
  -- answer, a request is answered with a response, never with an exception, and the response is
  -- marked with the request: a body that is an object carries the request id in its `meta`, and a
  -- file has the header of the request id.
  pub handle_request-IsMarked :
      (m : Moment) (id : Text) (req : Request) (s : State W)
      → (f : Final) × ((handle_request app m id req s).0 ≡ ok f) × IsMarked id f
  unfolding handle_request
  handle_request-IsMarked m id req s =
      settle-IsMarked app.parse m.new_id id m.time m.shown_time (respond app m req s).0

  -- What a chain that replaces no answer returns: a marked response, or an exception.
  abbrev Kept : Text → Result Returned → Type 0
  Kept id (ok (finalized f)) = IsMarked id f
  Kept id (ok (unfinalized a)) = ⊥
  Kept id (raise e) = Unit

  -- A middleware that is no function and has no hook `after`.
  abbrev pub IsBefore : Middleware (State W) Returned → Type 0
  IsBefore item = (item.around ≡ none) × (item.after ≡ none)
