-- ===== src/Tests/Requests.antt =====
-- Dependencies, middlewares and authorisation at concrete inputs.
use quick_api.Base.{
  ℕ, ◌+◌, suc, Text, codes, Dict, null, true, false, none, some, List, [], ◌∷◌, ◌++◌, ◌≡◌, ◌≢◌, ◌⊎◌,
  refl, ok, str_beq,
}
use quick_api.Http.{Request, build}
use quick_api.Response.{value}
use quick_api.Routing.Route.{Route, Metadata}
use quick_api.Security.Tokens.{token_from_header}
use quick_api.Dependencies.{
  DependencyContext, DependencyProvider, now, resolve_many, resolve_many_async,
}
use quick_api.Dependencies.Resolve.{uncached, resolve_many-uncached, resolve_many-repeated}
use quick_api.Middleware.{Middleware, Step, then_step, run}
use quick_api.Middleware.Hooks.{befores, afters, run-hooks}
use quick_api.App.Authorize.{AuthConfig, authorize, auth_entry}
use quick_api.App.Access.{IsGranted, authorize-IsGranted}

abbrev sent : Request
sent =
    build (codes "GET") (codes "/me") null [] ((codes "authorization", codes "Bearer k1") ∷ [])
      (codes "10.0.0.1") (codes "req_1") []

abbrev context : DependencyContext
context = record { request = sent; route = none; path_params = none; ml = none }

-- A provider that counts its calls in the world.
abbrev counter : DependencyProvider ℕ
counter = record {
  name = codes "db";
  parameters = codes "request" ∷ [];
  factory = λ kwargs w. (ok (now null), suc w);
  cached = true;
}

abbrev providers : Dict (DependencyProvider ℕ)
providers = (codes "db", counter) ∷ (codes "user", counter) ∷ []

abbrev wanted : List Text
wanted = codes "db" ∷ codes "user" ∷ codes "db" ∷ []

wanted_found :
    resolve_many providers wanted context 0
    ≡ (ok ((codes "db", null) ∷ (codes "user", null) ∷ []), 2)
unfolding resolve_many codes str_beq
wanted_found = refl

resolve_many-uncached_example :
    (resolve_many providers wanted context 0 ≡ resolve_many (uncached providers) wanted context 0)
    × (resolve_many_async providers wanted context 0
        ≡ resolve_many_async (uncached providers) wanted context 0)
resolve_many-uncached_example = resolve_many-uncached providers wanted context 0

resolve_many-repeated_example :
    (resolve_many providers (wanted ++ codes "user" ∷ []) context 0
      ≡ resolve_many providers wanted context 0)
    × (resolve_many_async providers (wanted ++ codes "user" ∷ []) context 0
        ≡ resolve_many_async providers wanted context 0)
unfolding codes str_beq
resolve_many-repeated_example = resolve_many-repeated providers wanted (codes "user") context 0 refl

-- A middleware that notes its number when it begins and when it ends.
abbrev noting : ℕ → Middleware (List ℕ) ℕ
noting n = record {
  name = codes "noting";
  before = some (λ request w. (ok none, w ++ n ∷ []));
  around = none;
  after = some (λ context answer w. (ok none, w ++ (n + 10) ∷ []));
}

abbrev answering : Request → Step (List ℕ) ℕ
answering request w = (ok 200, w ++ 0 ∷ [])

order_test : run (noting 1 ∷ noting 2 ∷ []) sent answering [] ≡ (ok 200, 1 ∷ 2 ∷ 0 ∷ 12 ∷ 11 ∷ [])
unfolding run str_beq
order_test = refl

run-hooks_example :
    run (noting 1 ∷ noting 2 ∷ []) sent answering []
    ≡ then_step
        (befores sent (noting 1 ∷ noting 2 ∷ []) sent [])
        (λ r v. then_step (answering r v) (afters sent (noting 1 ∷ noting 2 ∷ [])))
run-hooks_example = run-hooks (noting 1 ∷ noting 2 ∷ []) sent answering [] (refl, (refl, tt))

abbrev guarded : Metadata
guarded = record {
  errors = [];
  ml_check = false;
  auth = true;
  rate_limit = none;
  native = false;
  name = none;
  summary = none;
  description = none;
  tags = [];
  body_schema = null;
  query_schema = null;
  path_schema = null;
  response_schema = null;
  examples = [];
  dependencies = [];
}

abbrev me : Route
me = record {
  path = codes "/me";
  method = codes "GET";
  handler = record { name = none; parameters = []; call = λ kwargs. ok (value null) };
  name = codes "me";
  metadata = guarded;
  pattern = [];
}

abbrev config : AuthConfig
config = record { auth_tokens = codes "k0" ∷ []; auth_validator = none }

abbrev passed : Request
passed = record sent { auth = some (auth_entry (codes "k1") (codes "bearer")) }

passes : authorize config (some (codes "k1")) none (codes "req_1") me sent ≡ ok (none, passed)
unfolding authorize auth_entry codes build str_beq
passes = refl

authorize-IsGranted_example :
    (true ≡ false) × (passed ≡ sent)
    ⊎ ((token : Text) × (token_from_header sent.headers ≡ some token)
        × (token ≢ [])
        × IsGranted config (some (codes "k1")) none token sent passed)
authorize-IsGranted_example =
    authorize-IsGranted config (some (codes "k1")) none (codes "req_1") me sent passed passes
