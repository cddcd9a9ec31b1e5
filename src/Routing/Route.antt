-- ===== src/Routing/Route.antt =====
-- `Route` of quickapi/routing/route.py. A handler is the list of its parameters' names and what it
-- does on its keyword arguments; an awaitable result is taken as awaited.
use quick_api.Base.{
  ℕ, Text, codes, upper, Dict, Value, null, bool, int, str, pos, obj_of, arr_of, Bool, true, not,
  ◌&&◌, Option, none, some, List, [], ◌∷◌, map, length, or_else, Result, ok, raise, if◌then◌else◌,
  mem, text_or,
}
use quick_api.Http.{Request}
use quick_api.Http.Header.{Headers}
use quick_api.Response.{Answer}
use quick_api.Routing.Template.{Piece, compile_from, match_pieces}
use quick_api.Routing.Template.Derivation.{group_names}

-- What a keyword argument of a handler holds.
pub data Argument : Type 0 where
  body : Value → Argument
  query : Dict Value → Argument
  headers : Headers → Argument
  request : Request → Argument
  auth : Option Value → Argument
  ml : Option Value → Argument
  state : Dict Value → Argument
  dependency : Value → Argument
  path_param : Text → Argument

pub record Handler : Type 0 where
  pub name : Option Text
  pub parameters : List Text
  pub call : Dict Argument → Result Answer

-- The keyword arguments of `add_route` that go to the fields of a route.
pub record Metadata : Type 0 where
  pub errors : List ℕ
  pub ml_check : Bool
  pub auth : Bool
  pub rate_limit : Option Text
  pub native : Bool
  pub name : Option Text
  pub summary : Option Text
  pub description : Option Text
  pub tags : List Text
  pub body_schema : Value
  pub query_schema : Value
  pub path_schema : Value
  pub response_schema : Value
  pub examples : Dict Value
  pub dependencies : List Text

pub record Route : Type 0 where
  pub path : Text
  pub method : Text
  pub handler : Handler
  pub name : Text
  pub metadata : Metadata
  pub pattern : List Piece

-- No group name twice: `re.compile` refuses to define a group again.
unfoldable pub distinct : List Text → Bool
distinct [] = true
distinct (t ∷ ts) = not (mem t ts) && distinct ts

-- `_compile_path`
unfoldable pub compile_path : Text → Result (List Piece)
unfolding compile_from group_names distinct
compile_path path =
    let ps = compile_from (length path) path in
    if distinct (group_names ps)
    then ok ps
    else raise (record { kind = codes "error"; message = codes "redefinition of group name" })

-- The constructor with `__post_init__`.
unfoldable pub make_route : Text → Text → Handler → Metadata → Result Route
unfolding compile_path
make_route path method handler metadata = elim (compile_path path) [
  | raise e ↦ raise e
  | ok ps ↦ ok (record {
    path = path;
    method = upper method;
    handler = handler;
    name = text_or metadata.name (or_else handler.name (codes "native_endpoint"));
    metadata = metadata;
    pattern = ps;
  })
]

-- `Route.match`
unfoldable pub match : Route → Text → Option (Dict Text)
unfolding match_pieces
match route path = match_pieces route.pattern path

abbrev text_or_null : Option Text → Value
text_or_null none = null
text_or_null (some t) = str t

unfoldable pub describe : Route → Dict Value
describe route =
    let m = route.metadata in
    (codes "method", str route.method)
    ∷ (codes "path", str route.path)
    ∷ (codes "name", str route.name)
    ∷ (codes "errors", arr_of (map (λ n. int (pos n)) m.errors))
    ∷ (codes "ml_check", bool m.ml_check)
    ∷ (codes "auth", bool m.auth)
    ∷ (codes "rate_limit", text_or_null m.rate_limit)
    ∷ (codes "native", bool m.native)
    ∷ (codes "summary", str (text_or m.summary route.name))
    ∷ (codes "description", text_or_null m.description)
    ∷ (codes "tags", arr_of (map str m.tags))
    ∷ (codes "body_schema", m.body_schema)
    ∷ (codes "query_schema", m.query_schema)
    ∷ (codes "path_schema", m.path_schema)
    ∷ (codes "response_schema", m.response_schema)
    ∷ (codes "examples", obj_of m.examples)
    ∷ (codes "dependencies", arr_of (map str m.dependencies))
    ∷ []
