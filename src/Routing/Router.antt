-- ===== src/Routing/Router.antt =====
-- `Router` of quickapi/routing/router.py, over the bridge to the native router of
-- quickapi/bridge/native_router.py. The compiled library behind the bridge is a parameter: what
-- its functions return. A handle stands for the library's router object.
pub mod Kwargs
pub mod Native
use quick_api.Base.{
  Text, codes, upper, split, Dict, get, put, Value, Bool, true, false, ◌&&◌, Option, none, some,
  List, [], ◌∷◌, ◌++◌, ◌==◌, text_eq, str_beq, if◌then◌else◌, Result, ok, raise, sorted_set, keep,
  not, is_some, is_none, has, mem,
}
use quick_api.Http.{Request}
use quick_api.Response.{Answer, value, failure, method_not_allowed, not_found}
use quick_api.Base.{str, obj_of, arr_of, map}
use quick_api.Routing.Route.{
  Route, Handler, Metadata, Argument, make_route, body, query, headers, request, auth, ml, state,
  dependency, path_param,
}
use quick_api.Routing.Registry
use quick_api.Routing.Registry.{Match, hit, not_allowed, miss, match_route}

-- The functions of the compiled library: adding a route under a token, the token of the best
-- route for a method and a path, the captures, and the allowed methods joined by commas.
pub record RouteLib (H : Type 0) : Type 0 where
  pub add : H → Text → Text → Text → Bool × H
  pub match : H → Text → Text → Option Text
  pub params : H → Text → Text → Dict Text
  pub allowed_methods : H → Text → Text

pub record NativeBridge (H : Type 0) : Type 0 where
  pub router : Option H
  pub token_to_route : Dict Route

-- `_token`
unfoldable pub token : Route → Text
token route = route.method ++ codes " " ++ route.path

pub record Router (H : Type 0) : Type 0 where
  pub registry : List Route
  pub native_router : NativeBridge H

module _ {H : Type 0} (lib : RouteLib H) where
  -- `NativeRouteBridge.add`; it is called for its effect
  abbrev added : NativeBridge H → Route → Bool × H → NativeBridge H
  added b route (true, h) = record {
    router = some h;
    token_to_route = put b.token_to_route (token route) route;
  }
  added b route (false, h) = record { router = some h; token_to_route = b.token_to_route }

  unfoldable pub bridge_add : NativeBridge H → Route → NativeBridge H
  unfolding token put
  bridge_add b route = elim (b.router) [
    | none ↦ b
    | some h ↦ added b route (lib.add h route.method route.path (token route))
  ]

  -- what the list of allowed methods says
  abbrev native_allowed : List Text → Option Match
  native_allowed [] = none
  native_allowed (m ∷ ms) = some (not_allowed (sorted_set (m ∷ ms)))

  abbrev native_hit : Option Route → Dict Text → Option Match
  native_hit none params = none
  native_hit (some route) params = some (hit route params)

  -- `NativeRouteBridge.match`; `none` sends the router to its registry
  unfoldable pub bridge_match : NativeBridge H → Text → Text → Option Match
  unfolding get keep sorted_set split upper
  bridge_match b method path = elim (b.router) [
    | none ↦ none
    | some h ↦ elim (lib.match h (upper method) path) [
      | some found ↦ native_hit (get b.token_to_route found) (lib.params h (upper method) path)
      | none ↦
          native_allowed (keep (λ m. not (str_beq m [])) (split b',' (lib.allowed_methods h path)))
    ]
  ]

  -- `Router.add_route`
  unfoldable pub add_route : Router H → Text → Text → Handler → Metadata → Result (Router H × Route)
  unfolding make_route Registry.add bridge_add
  add_route r method path handler metadata = elim (make_route path method handler metadata) [
    | raise e ↦ raise e
    | ok route ↦ elim (Registry.add r.registry route) [
      | raise e ↦ raise e
      | ok routes ↦
          ok (record { registry = routes; native_router = bridge_add r.native_router route }, route)
    ]
  ]

  -- `Router.match`
  unfoldable pub match : Router H → Text → Text → Match
  unfolding bridge_match match_route
  match r method path = elim (bridge_match r.native_router method path) [
    | some native_match ↦ native_match
    | none ↦ match_route r.registry method path
  ]

-- The argument that a parameter of this name is given, if any.
unfoldable pub argument_for : Request → Dict Text → Option Value → Text → Option Argument
unfolding get codes str_beq
argument_for req path_params ml_result name =
    if name == codes "body"
    then some (body req.body)
    else if name == codes "query"
    then some (query req.query)
    else if name == codes "headers"
    then some (headers req.headers)
    else if name == codes "request"
    then some (request req)
    else if name == codes "auth"
    then some (auth req.auth)
    else if name == codes "ml"
    then some (ml ml_result)
    else if name == codes "state"
    then some (state req.state)
    else elim (get req.dependencies name) [
      | some v ↦ some (dependency v)
      | none ↦ elim (get path_params name) [ some t ↦ some (path_param t) | none ↦ none ]
    ]

abbrev bind_argument : Dict Argument → Text → Option Argument → Dict Argument
bind_argument kwargs name none = kwargs
bind_argument kwargs name (some a) = put kwargs name a

-- the loop of `_build_kwargs`
unfoldable pub build_from :
    Request → Dict Text → Option Value → Dict Argument → List Text → Dict Argument
unfolding argument_for put
build_from req path_params ml_result kwargs [] = kwargs
build_from req path_params ml_result kwargs (name ∷ names) =
    build_from req path_params ml_result
      (bind_argument kwargs name (argument_for req path_params ml_result name)) names

unfoldable pub build_kwargs : Route → Request → Dict Text → Option Value → Dict Argument
unfolding build_from
build_kwargs route req path_params ml_result =
    build_from req path_params ml_result [] route.handler.parameters

-- `_call_route`, and so `dispatch_route`
unfoldable pub dispatch_route : Route → Request → Dict Text → Option Value → Result Answer
unfolding build_kwargs
dispatch_route route req path_params ml_result =
    route.handler.call (build_kwargs route req path_params ml_result)

-- The answers of `dispatch` when no handler runs; `new_id` is the drawn request id.
unfoldable pub not_allowed_answer : Text → List Text → Dict Value
unfolding failure
not_allowed_answer new_id allowed =
    failure new_id method_not_allowed none
      (obj_of ((codes "allowed", arr_of (map str allowed)) ∷ []))

unfoldable pub not_found_answer : Text → Request → Dict Value
unfolding failure
not_found_answer new_id req =
    failure new_id not_found none
      (str (codes "No route found for " ++ req.method ++ codes " " ++ req.path))

-- `Router.dispatch`
unfoldable pub dispatch :
    {H : Type 0} → RouteLib H → Text → Router H → Request → Option Value → Result Answer
unfolding match dispatch_route not_allowed_answer not_found_answer
dispatch lib new_id r req ml_result = elim (match lib r req.method req.path) [
  | hit route path_params ↦ dispatch_route route req path_params ml_result
  | not_allowed allowed ↦ ok (value (obj_of (not_allowed_answer new_id allowed)))
  | miss ↦ ok (value (obj_of (not_found_answer new_id req)))
]
