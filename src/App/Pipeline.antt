-- ===== src/App/Pipeline.antt =====
-- `_handle_request_sync`, `_handle_request_async`, `_validation_response`, `handle` and
-- `handle_async` of quickapi/app/application.py.
pub mod Answers
pub mod Gates
pub mod Hostile
use quick_api.Base.{
  ℕ, Text, codes, Dict, Value, ℤ, null, str, obj_of, arr_of, Bool, true, false, not, ◌&&◌, ◌||◌,
  Option, none, some, List, [], ◌∷◌, ◌++◌, map, if◌then◌else◌, Raised, Result, ok, raise, ◌>>=◌,
}
use quick_api.Http.{Request}
use quick_api.Response.{Answer, value, failure, forbidden, validation}
use quick_api.Routing.Route.{Route, Argument}
use quick_api.Routing.Registry.{Match, hit, not_allowed, miss}
use quick_api.Routing.Router.{
  RouteLib, Router, match, build_kwargs, dispatch_route, not_allowed_answer, not_found_answer,
}
use quick_api.Security.Guard.{SecurityGuard, check}
use quick_api.Schema.Shape.{ShapeLimits, validate_runtime_shape}
use quick_api.Dependencies.{
  DependencyContext, DependencyProvider, dependency_names, resolve_many, resolve_many_async,
}
use quick_api.Middleware
use quick_api.Middleware.{Middleware}
use quick_api.Ml.Floats.{Floats}
use quick_api.Ml.Signals.{NativeScan, NativeValidation, is_blocked}
use quick_api.Ml.Profile.{Codecs}
use quick_api.Ml.Score.{GuardConfig, filled}
use quick_api.Ml.Guard.{GuardParts, GuardReport, inspect}
use quick_api.Ml.Report.{report_dict}
use quick_api.App.Authorize.{AuthConfig, Authorized, authorize}
use quick_api.App.Finalize.{Final, finalize, error_answer, settle}
use quick_api.App.Parts.{State, Moment, App, collect_issues, resolve_dependencies}

-- What a chain of middlewares returns: a response that was finalized, or what a middleware gave in
-- its place, which `handle` returns as it is.
pub data Returned : Type 0 where
  finalized : Final → Returned
  unfinalized : Answer → Returned

unfoldable pub blocked_answer : Text → Dict Value → Dict Value
unfolding failure codes
blocked_answer new_id report =
    failure new_id forbidden (some (codes "Request blocked by QuickAPI ML Guard")) (
      obj_of (
        (codes "guard", obj_of report)
        ∷ (
          codes "hint",
          str (codes "Fix the reported signal or disable/tune ml_guard for this trusted route."),
        )
        ∷ []))

-- `_validation_response` of issues and a report
unfoldable pub validation_answer : Text → List (Dict Value) → Dict Value → Dict Value
unfolding failure codes
validation_answer new_id issues report =
    failure new_id validation (some (codes "Request validation failed")) (
      obj_of (
        (codes "issues", arr_of (map obj_of issues))
        ∷ (
          codes "hint",
          str (
              codes
                "Fix the fields listed in detail. The 'where' key points to the exact request location."),
        )
        ∷ (codes "guard", obj_of report)
        ∷ []))

module _ {F W H : Type 0} ⦃n : Floats F⦄ (app : App F W H) where
  abbrev Reply : Type 0
  Reply = Result Answer × State W

  -- The handler, with the dependencies that were resolved.
  unfoldable pub run_handler :
      Route → Request → Dict Text → Option Value → State W → Result (Dict Value) × W → Reply
  unfolding dispatch_route build_kwargs
  run_handler route req path_params ml_result s (raise e, w) = (raise e, record s { world = w })
  run_handler route req path_params ml_result s (ok found, w) =
      let given = record req { dependencies = found } in
      (
        dispatch_route route given path_params ml_result,
        record s { world = app.effect route (build_kwargs route given path_params ml_result) w },
      )

  -- `self.ml_engine.analyze(request) if route.ml_check else None`
  abbrev analysed : Route → Request → Result (Option Value)
  analysed route req =
      if route.metadata.ml_check then app.analyze req >>= (λ v. ok (some v)) else ok none

  -- What follows the guard, with the answer of the engine.
  unfoldable pub serve : Route → Request → Dict Text → State W → Result (Option Value) → Reply
  unfolding run_handler resolve_dependencies
  serve route req path_params s (raise e) = (raise e, s)
  serve route req path_params s (ok ml_result) =
      run_handler route req path_params ml_result s
        (resolve_dependencies app route req path_params ml_result s.world)

  -- What the issues and the report of the guard decide.
  unfoldable pub judge :
      Moment → Route → Request → Dict Text → State W → List (Dict Value) → GuardReport F → Reply
  unfolding blocked_answer validation_answer serve report_dict
  judge m route req path_params s issues report =
      let summary = report_dict app.native_dict report in
      let marked = record req { synaptic = some (obj_of summary) } in
      if is_blocked report.action && not (filled issues)
      then (ok (value (obj_of (blocked_answer m.new_id summary))), s)
      else if filled issues
      then (ok (value (obj_of (validation_answer m.new_id issues summary))), s)
      else serve route marked path_params s (analysed route marked)

  -- What follows the guard, which an exception of the engine ends.
  unfoldable pub guarded :
      Moment
      → Route
      → Request
      → Dict Text
      → State W
      → List (Dict Value)
      → Result (GuardReport F)
      → Reply
  unfolding judge
  guarded m route req path_params s issues (raise e) = (raise e, s)
  guarded m route req path_params s issues (ok report) =
      judge m route req path_params s issues report

  -- The guard, with the issues of the validation.
  unfoldable pub inspected :
      Moment → Route → Request → Dict Text → State W → Result (List (Dict Value)) → Reply
  unfolding inspect guarded
  inspected m route req path_params s (raise e) = (raise e, s)
  inspected m route req path_params s (ok issues) = guarded m route req path_params s issues (
      inspect app.codecs app.fingerprint app.guard app.parts req (some route) path_params issues
        m.duration)

  -- What follows the authorisation.
  unfoldable pub admitted : Moment → Route → Dict Text → State W → Result Authorized → Reply
  unfolding collect_issues inspected
  admitted m route path_params s (raise e) = (raise e, s)
  admitted m route path_params s (ok (some answer, req)) = (ok (value (obj_of answer)), s)
  admitted m route path_params s (ok (none, req)) =
      inspected m route req path_params s (collect_issues app route req path_params)

  -- What follows the routing.
  unfoldable pub routed : Moment → Request → State W → Match → Reply
  unfolding not_allowed_answer not_found_answer admitted authorize
  routed m req s (not_allowed allowed) =
      (ok (value (obj_of (not_allowed_answer m.new_id allowed))), s)
  routed m req s miss = (ok (value (obj_of (not_found_answer m.new_id req))), s)
  routed m req s (hit route path_params) =
      admitted m route path_params s
        (authorize app.auth app.auth_env app.token_env m.new_id route req)

  -- What follows the security guard.
  unfoldable pub secured : Moment → Request → W → Option (Dict Value) × SecurityGuard → Reply
  unfolding routed match
  secured m req w (some answer, security) =
      (ok (value (obj_of answer)), record { security = security; world = w })
  secured m req w (none, security) =
      routed m req (record { security = security; world = w })
        (match app.library app.router req.method req.path)

  -- What follows the built-in endpoints.
  unfoldable pub unanswered : Moment → Request → SecurityGuard → Result (Option Answer) × W → Reply
  unfolding secured check
  unanswered m req security (raise e, w) = (raise e, record { security = security; world = w })
  unanswered m req security (ok (some a), w) = (ok a, record { security = security; world = w })
  unanswered m req security (ok none, w) =
      secured m req w (check app.codecs.shown app.codecs.decode m.new_id security m.now req)

  -- The answer of `_handle_request_sync` and `_handle_request_async` before it is finalized.
  unfoldable pub respond : Moment → Request → State W → Reply
  unfolding unanswered
  respond m req s = unanswered m req s.security (app.builtin req s.world)

  -- `_handle_request_sync` and `_handle_request_async`
  unfoldable pub handle_request : Moment → Text → Request → State W → Result Final × State W
  unfolding respond settle
  handle_request m id req s =
      let (reply, after) = respond m req s in
      (settle app.parse m.new_id id m.time m.shown_time reply, after)

  -- A response of the pipeline, as what a chain of middlewares returns.
  abbrev pub returned : Result Final × State W → Result Returned × State W
  returned (raise e, s) = (raise e, s)
  returned (ok f, s) = (ok (finalized f), s)

  -- the `except` of `handle`
  unfoldable pub rescued : Moment → Text → Result Returned × State W → Result Returned × State W
  unfolding finalize error_answer
  rescued m id (ok r, s) = (ok r, s)
  rescued m id (raise e, s) =
      returned (finalize app.parse m.new_id id m.time m.shown_time (error_answer m.new_id e), s)

  -- `handle` and `handle_async`
  unfoldable pub handle :
      List (Middleware (State W) Returned)
      → Moment
      → Text
      → Request
      → State W
      → Result Returned × State W
  unfolding Middleware.run handle_request rescued
  handle items m id req s =
      rescued m id
        (Middleware.run items req (λ next_req s'. returned (handle_request m id next_req s')) s)
