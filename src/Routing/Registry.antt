-- ===== src/Routing/Registry.antt =====
-- `RouteRegistry` of quickapi/routing/registry.py: the routes in the order of their registration.
pub mod Unique
pub mod Choice
use quick_api.Base.{
  Text, codes, upper, Dict, Value, Bool, ◌&&◌, Option, none, some, List, [], ◌∷◌, ◌++◌, map, ◌==◌,
  text_eq, str_beq, if◌then◌else◌, Result, ok, raise, sorted_set,
}
use quick_api.Routing.Route
use quick_api.Routing.Route.{Route, match}

-- The loop of `find`, with the method in upper case.
unfoldable pub find_in : List Route → Text → Text → Option Route
find_in [] method path = none
find_in (r ∷ rs) method path =
    if r.method == method && r.path == path then some r else find_in rs method path

unfoldable pub find : List Route → Text → Text → Option Route
unfolding find_in upper
find routes method path = find_in routes (upper method) path

unfoldable pub add : List Route → Route → Result (List Route)
unfolding find
add routes route = elim (find routes route.method route.path) [
  | none ↦ ok (routes ++ route ∷ [])
  | some existing ↦ raise (record {
    kind = codes "ValueError";
    message = codes "Route already registered: " ++ route.method ++ codes " " ++ route.path;
  })
]

-- A route with its captures, the methods that the path allows, or neither.
pub data Match : Type 0 where
  hit : Route → Dict Text → Match
  not_allowed : List Text → Match
  miss : Match

abbrev no_hit : List Text → Match
no_hit [] = miss
no_hit (m ∷ ms) = not_allowed (sorted_set (m ∷ ms))

-- The loop of `match`; `allowed` grows at its end.
unfoldable pub match_from : List Route → Text → Text → List Text → Match
unfolding match sorted_set
match_from [] method path allowed = no_hit allowed
match_from (r ∷ rs) method path allowed =
    let skip = match_from rs method path allowed in
    let seen = match_from rs method path (allowed ++ r.method ∷ []) in
    elim (match r path) [
      | none ↦ skip
      | some path_params ↦ if r.method == method then hit r path_params else seen
    ]

unfoldable pub match_route : List Route → Text → Text → Match
unfolding match_from upper
match_route routes method path = match_from routes (upper method) path []

unfoldable pub describe : List Route → List (Dict Value)
describe routes = map Route.describe routes
