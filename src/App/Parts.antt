-- ===== src/App/Parts.antt =====
-- The parts of `QuickAPI` of quickapi/app/application.py that answer a request,
-- `_collect_validation_issues` and `_resolve_dependencies`. The state is the security guard and the
-- world that dependencies and handlers change. Built-in endpoints, `validate_payload` and the engine
-- are fields of the application here.
use quick_api.Base.{
  ℕ, Text, codes, Dict, Value, ℤ, null, str, obj_of, Bool, true, false, not, ◌&&◌, ◌||◌, Option,
  some, List, [], ◌∷◌, ◌++◌, map, if◌then◌else◌, Result, ok, ◌>>=◌,
}
use quick_api.Http.{Request}
use quick_api.Response.{Answer}
use quick_api.Routing.Route.{Route, Argument}
use quick_api.Routing.Router.{RouteLib, Router}
use quick_api.Security.Guard.{SecurityGuard}
use quick_api.Schema.Shape.{ShapeLimits, validate_runtime_shape}
use quick_api.Dependencies.{
  DependencyContext, DependencyProvider, dependency_names, resolve_many, resolve_many_async,
}
use quick_api.Ml.Signals.{NativeScan, NativeValidation}
use quick_api.Ml.Profile.{Codecs}
use quick_api.Ml.Score.{GuardConfig}
use quick_api.Ml.Guard.{GuardParts}
use quick_api.App.Authorize.{AuthConfig}

pub record State (W : Type 0) : Type 0 where
  pub security : SecurityGuard
  pub world : W

-- What the clocks and the drawing of ids give during a request.
pub record Moment : Type 0 where
  pub now : ℕ
  pub duration : ℕ
  pub new_id : Text
  pub time : Value
  pub shown_time : Text

-- `resolve_schema` is `self.schemas.resolve`, `validate` is `validate_payload` with what it finds as
-- dicts, `is_async` tells the two entry points apart, and `effect` is what the handler of a route
-- does to the world.
pub record App (F W H : Type 0) : Type 0 where
  pub builtin : Request → W → Result (Option Answer) × W
  pub library : RouteLib H
  pub router : Router H
  pub codecs : Codecs
  pub auth : AuthConfig
  pub auth_env : Option Text
  pub token_env : Option Text
  pub ml_guard : Bool
  pub ml : Bool
  pub synaptic : Bool
  pub shown_key : Text → Text
  pub limits : ShapeLimits
  pub resolve_schema : Value → Result Value
  pub validate : Value → Value → Text → Result (List (Dict Value))
  pub fingerprint : Request → List ℕ → Text
  pub guard : GuardConfig F
  pub parts : GuardParts F
  pub native_dict : Option (NativeScan F) → Option NativeValidation → Option (Dict Value)
  pub analyze : Request → Result Value
  pub providers : Dict (DependencyProvider W)
  pub is_async : Bool
  pub effect : Route → Dict Argument → W → W
  pub parse : Text → Result ℤ

-- A dict of texts as a value.
abbrev pub texts_of : Dict Text → Value
texts_of params = obj_of (map (λ e. (e.0, str e.1)) params)

abbrev is_null : Value → Bool
is_null null = true
is_null v = false

abbrev pub is_watched : Bool → Bool → Bool → Value → Bool
is_watched ml_guard ml synaptic body = not (is_null body) && (ml_guard || (ml || synaptic))

module _ {F W H : Type 0} (app : App F W H) where
  -- the issues of one part of the request
  abbrev issues_in : Value → Value → Text → Result (List (Dict Value))
  issues_in v schema location =
      app.resolve_schema schema >>= (λ resolved. app.validate v resolved location)

  -- `_collect_validation_issues`
  unfoldable pub collect_issues : Route → Request → Dict Text → Result (List (Dict Value))
  unfolding validate_runtime_shape codes
  collect_issues route req path_params =
      let shape =
        if is_watched app.ml_guard app.ml app.synaptic req.body
        then validate_runtime_shape app.shown_key app.limits req.body (codes "body")
        else [] in
      issues_in (texts_of path_params) route.metadata.path_schema (codes "path") >>= (λ in_path.
        issues_in (obj_of req.query) route.metadata.query_schema (codes "query") >>= (λ in_query.
          issues_in req.body route.metadata.body_schema (codes "body")
          >>= (λ in_body. ok (shape ++ (in_path ++ (in_query ++ in_body))))))

  -- `_resolve_dependencies` and `_resolve_dependencies_async`
  unfoldable pub resolve_dependencies :
      Route → Request → Dict Text → Option Value → W → Result (Dict Value) × W
  unfolding dependency_names resolve_many resolve_many_async
  resolve_dependencies route req path_params ml_result w =
      resolved (dependency_names app.providers route)
    where
      resolved : List Text → Result (Dict Value) × W
      resolved [] = (ok [], w)
      resolved (name ∷ names) =
          let context : DependencyContext = record {
            request = req;
            route = some route;
            path_params = some path_params;
            ml = ml_result;
          } in
          if app.is_async
          then resolve_many_async app.providers (name ∷ names) context w
          else resolve_many app.providers (name ∷ names) context w
