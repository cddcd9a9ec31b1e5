-- ===== src/Tests/App.antt =====
-- The application at concrete inputs: one route, a world that counts the calls of its handler, and
-- a built-in endpoint that counts in tens.
use quick_api.Base.{
  ℕ, ◌+◌, map, codes, contains, null, str, pos, true, false, none, some, [], ◌∷◌, ◌≡◌, ◌⊎◌, inl,
  refl, if◌then◌else◌, ok, raise, ◌==◌, text_eq, str_beq,
}
use quick_api.Http.{Request, build}
use quick_api.Response.{value}
use quick_api.Routing.Route.{Route, Metadata}
use quick_api.Routing.Router.{RouteLib, Router}
use quick_api.Routing.Template.{lit}
use quick_api.Middleware.{Middleware}
use quick_api.App.Finalize.{Final}
use quick_api.App.Finalize.Marked.{IsMarked}
use quick_api.App.Parts.{State, Moment, App}
use quick_api.App.Pipeline.{Returned, unfinalized, respond, handle_request, handle}
use quick_api.App.Pipeline.Gates.{IsGated, respond-IsGated}
use quick_api.App.Pipeline.Answers.{handle_request-IsMarked}
use quick_api.App.Pipeline.Hostile.{respond-refuses}
use quick_api.Tests.Ml.{scaled_floats, config, codecs, no_parts, unhashed, split_header}

abbrev open_route : Metadata
open_route = record {
  errors = [];
  ml_check = false;
  auth = false;
  rate_limit = none;
  native = false;
  name = none;
  summary = none;
  description = none;
  tags = [];
  body_schema = null;
  query_schema = null;
  path_schema = null;
  response_schema = null;
  examples = [];
  dependencies = [];
}

abbrev ping : Route
ping = record {
  path = codes "/ping";
  method = codes "GET";
  handler = record {
    name = none;
    parameters = [];
    call = λ kwargs. ok (value (str (codes "pong")));
  };
  name = codes "ping";
  metadata = open_route;
  pattern = map lit (codes "/ping");
}

abbrev no_library : RouteLib Unit
no_library = record {
  add = λ h method path token. (false, h);
  match = λ h method path. none;
  params = λ h method path. [];
  allowed_methods = λ h path. [];
}

abbrev router : Router Unit
router = record {
  registry = ping ∷ [];
  native_router = record { router = none; token_to_route = [] };
}

abbrev app : App ℕ ℕ Unit
app = record {
  builtin = λ req calls. (
    ok (if req.path == codes "/quick" then some (value null) else none),
    if req.path == codes "/quick" then calls + 10 else calls,
  );
  library = no_library;
  router = router;
  codecs = codecs;
  auth = record { auth_tokens = []; auth_validator = none };
  auth_env = none;
  token_env = none;
  ml_guard = true;
  ml = false;
  synaptic = false;
  shown_key = λ key. key;
  limits = record {
    max_depth = 20;
    max_string_length = 100;
    max_array_length = 100;
    max_object_keys = 100;
  };
  resolve_schema = λ schema. ok schema;
  validate = λ v schema location. ok [];
  fingerprint = unhashed;
  guard = config;
  parts = no_parts;
  native_dict = λ scan validation. none;
  analyze = λ req. ok null;
  providers = [];
  is_async = false;
  effect = λ route kwargs calls. calls + 1;
  parse = λ t. ok (pos 0);
}

abbrev moment : Moment
moment = record {
  now = 0;
  duration = 0;
  new_id = codes "req_2";
  time = null;
  shown_time = codes "0.1";
}

abbrev initial : State ℕ
initial = record {
  security = record { enabled = false; max_body_size = 1_000; buckets = [] };
  world = 0;
}

abbrev plain : Request
plain =
    build (codes "GET") (codes "/ping") null [] ((codes "User-Agent", codes "probe") ∷ [])
      (codes "10.0.0.1") (codes "req_1") []

-- The handler of a plain request runs once.
served : (respond app moment plain initial).1.world ≡ 1
unfolding respond build scaled_floats codes str_beq
served = refl

respond-IsGated_example :
    IsGated app moment plain initial
    ⊎ ((respond app moment plain initial).1.world ≡ (app.builtin plain initial.world).1)
respond-IsGated_example = respond-IsGated app moment plain initial

respond-refuses_example :
    (respond app moment split_header initial).1.world ≡ (app.builtin split_header initial.world).1
unfolding build contains codes
respond-refuses_example = respond-refuses app moment split_header initial refl refl (inl refl)

handle_request-IsMarked_example :
    (f : Final) × ((handle_request app moment (codes "req_1") plain initial).0 ≡ ok f)
    × IsMarked (codes "req_1") f
handle_request-IsMarked_example = handle_request-IsMarked app moment (codes "req_1") plain initial

-- A middleware that raises before the request is passed on.
abbrev broken : Middleware (State ℕ) Returned
broken = record {
  name = codes "broken";
  before = some (λ req s. (raise (record { kind = codes "ValueError"; message = codes "no" }), s));
  around = none;
  after = none;
}

-- A middleware that answers with a dict in place of what follows, which leaves as it is.
abbrev denying : Middleware (State ℕ) Returned
denying = record {
  name = codes "denying";
  before = none;
  around = some (λ req next s. (ok (unfinalized (value null)), s));
  after = none;
}

left_raw :
    (handle app (denying ∷ []) moment (codes "req_1") plain initial).0
    ≡ ok (unfinalized (value null))
unfolding handle
left_raw = refl
