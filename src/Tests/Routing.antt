-- ===== src/Tests/Routing.antt =====
-- Routing on a small table of routes.
use quick_api.Base.{
  Text, codes, upper, Dict, get, keys, null, true, false, none, some, List, [], ◌∷◌, ◌≡◌, ◌↔◌, refl,
  text_eq, if◌then◌else◌, str_beq, mem, ok,
}
use mathlib.Core.List.{Memᴰ}
use quick_api.Http.{Request, build}
use quick_api.Response.{value}
use quick_api.Routing.Template.{Piece, lit, one, many, match_pieces}
use quick_api.Routing.Template.Derivation.{Fits, spell, group_names}
use quick_api.Routing.Template.Laws.{spell-match_pieces, match_pieces-none_iff}
use quick_api.Routing.Template.Print.{show_pieces, show_pieces-compile_path}
use quick_api.Routing.Route.{Route, Handler, Metadata, compile_path}
use quick_api.Routing.Registry.{hit, not_allowed, miss, add, match_route}
use quick_api.Routing.Registry.Choice.{Answers, match_route-Answers}
use quick_api.Routing.Router
use quick_api.Routing.Router.{Router, RouteLib, build_kwargs}
use quick_api.Routing.Router.Kwargs.{offered, get-build_kwargs}
use quick_api.Routing.Router.Native.{IsMirrored, add_route-IsMirrored, match-registered}

abbrev plain : Metadata
plain = record {
  errors = [];
  ml_check = false;
  auth = false;
  rate_limit = none;
  native = false;
  name = none;
  summary = none;
  description = none;
  tags = [];
  body_schema = null;
  query_schema = null;
  path_schema = null;
  response_schema = null;
  examples = [];
  dependencies = [];
}

abbrev show_product : Handler
show_product = record {
  name = some (codes "show");
  parameters = codes "id" ∷ codes "body" ∷ codes "other" ∷ [];
  call = λ kwargs. ok (value null);
}

-- "/p/{id}" and "/p/{rest:path}", written out.
abbrev by_id : List Piece
by_id = lit b'/' ∷ lit b'p' ∷ lit b'/' ∷ one (codes "id") ∷ []

abbrev below : List Piece
below = lit b'/' ∷ lit b'p' ∷ lit b'/' ∷ many (codes "rest") ∷ []

abbrev route_of : Text → Text → List Piece → Route
route_of path method pattern = record {
  path = path;
  method = method;
  handler = show_product;
  name = codes "show";
  metadata = plain;
  pattern = pattern;
}

abbrev get_product : Route
get_product = route_of (codes "/p/{id}") (codes "GET") by_id

abbrev put_below : Route
put_below = route_of (codes "/p/{rest:path}") (codes "PUT") below

abbrev table : List Route
table = get_product ∷ put_below ∷ []

template_tests :
    (compile_path (codes "/p/{id}") ≡ ok by_id)
    × (compile_path (codes "/p/{rest:path}") ≡ ok below)
    × (compile_path (codes "/{1}{a b}")
        ≡ ok (
            lit b'/'
            ∷ lit b'{'
            ∷ lit b'1'
            ∷ lit b'}'
            ∷ lit b'{'
            ∷ lit b'a'
            ∷ lit b' '
            ∷ lit b'b'
            ∷ lit b'}'
            ∷ []))
unfolding compile_path codes str_beq
template_tests = (refl, refl, refl)

match_tests :
    (match_pieces by_id (codes "/p/42") ≡ some ((codes "id", codes "42") ∷ []))
    × (match_pieces by_id (codes "/p/4/2") ≡ none)
    × (match_pieces below (codes "/p/4/2") ≡ some ((codes "rest", codes "4/2") ∷ []))
    × (match_pieces (many (codes "a") ∷ lit b'/' ∷ many (codes "b") ∷ []) (codes "x/y/z")
        ≡ some ((codes "a", codes "x/y") ∷ (codes "b", codes "z") ∷ []))
unfolding match_pieces codes
match_tests = (refl, refl, refl, refl)

registry_tests :
    (match_route table (codes "get") (codes "/p/42")
      ≡ hit get_product ((codes "id", codes "42") ∷ []))
    × (match_route table (codes "DELETE") (codes "/p/42")
        ≡ not_allowed (codes "GET" ∷ codes "PUT" ∷ []))
    × (match_route table (codes "GET") (codes "/q") ≡ miss)
unfolding match_route codes str_beq
registry_tests = (refl, refl, refl)

spell-match_pieces_example :
    (spell by_id ((codes "id", codes "42") ∷ []) ≡ codes "/p/42")
    × (keys {V = Text} ((codes "id", codes "42") ∷ []) ≡ group_names by_id)
spell-match_pieces_example =
    spell-match_pieces by_id (codes "/p/42") ((codes "id", codes "42") ∷ []) match_tests.0

match_pieces-none_iff_example :
    (match_pieces by_id (codes "/p/4/2") ≡ none)
    ↔ ((d : Dict Text) → ¬ (Fits by_id (codes "/p/4/2") d))
match_pieces-none_iff_example = match_pieces-none_iff by_id (codes "/p/4/2")

show_pieces-compile_path_example : show_pieces by_id ≡ codes "/p/{id}"
show_pieces-compile_path_example = show_pieces-compile_path (codes "/p/{id}") by_id template_tests.0

match_route-Answers_example :
    Answers table
      (upper (codes "get"))
      (codes "/p/42")
      (match_route table (codes "get") (codes "/p/42"))
match_route-Answers_example = match_route-Answers table (codes "get") (codes "/p/42")

added : add (get_product ∷ []) put_below ≡ ok table
unfolding add codes str_beq
added = refl

put_upper : upper put_below.method ≡ put_below.method
unfolding upper codes
put_upper = refl

abbrev request : Request
request = build (codes "GET") (codes "/p/42") null [] [] (codes "127.0.0.1") (codes "req_1") []

get-build_kwargs_example :
    get (build_kwargs get_product request ((codes "id", codes "42") ∷ []) none) (codes "id") ≡ (
      if mem (codes "id") show_product.parameters
      then get (offered request ((codes "id", codes "42") ∷ []) none) (codes "id")
      else none)
get-build_kwargs_example =
    get-build_kwargs get_product request ((codes "id", codes "42") ∷ []) none (codes "id")

-- A library that keeps the tokens of all routes, and matches none of them.
abbrev silent : RouteLib (List Text)
silent = record {
  add = λ h method path token. (true, token ∷ h);
  match = λ h method path. none;
  params = λ h method path. [];
  allowed_methods = λ h path. [];
}

abbrev empty : Router (List Text)
empty = record { registry = []; native_router = record { router = some []; token_to_route = [] } }

abbrev grown : Router (List Text)
grown = record {
  registry = get_product ∷ [];
  native_router = record {
    router = some (Router.token get_product ∷ []);
    token_to_route = (Router.token get_product, get_product) ∷ [];
  };
}

empty-IsMirrored : IsMirrored empty
empty-IsMirrored = record { registry = record { unique = tt; upper_case = tt }; held = tt }

grown_lem :
    Router.add_route silent empty (codes "get") (codes "/p/{id}") show_product plain
    ≡ ok (grown, get_product)
unfolding Router.add_route codes str_beq
grown_lem = refl

add_route-IsMirrored_example : IsMirrored grown
add_route-IsMirrored_example =
    add_route-IsMirrored silent empty (codes "/p/{id}") (codes "get") show_product plain grown
      get_product empty-IsMirrored grown_lem

found :
    Router.match silent grown (codes "GET") (codes "/p/42")
    ≡ hit get_product ((codes "id", codes "42") ∷ [])
unfolding Router.match codes str_beq
found = refl

match-registered_example : Memᴰ get_product grown.registry
match-registered_example =
    match-registered silent grown (codes "GET") (codes "/p/42") get_product
      ((codes "id", codes "42") ∷ [])
      (add_route-IsMirrored silent empty (codes "/p/{id}") (codes "get") show_product plain grown
        get_product empty-IsMirrored grown_lem)
      found
