-- ===== src/Dependencies.antt =====
-- `DependencyContainer` of quickapi/dependencies.py. A factory may read and change the world outside
-- the container, which is passed along as a state `W`; the application is not looked into.
pub mod Resolve
use quick_api.Base.{
  ℕ, Text, codes, Dict, get, put, Value, Bool, true, false, not, Option, none, some, List, [], ◌∷◌,
  ◌++◌, map, ◌==◌, text_eq, if◌then◌else◌, or_else, keep, has, Raised, Result, ok, raise,
}
use quick_api.Http.{Request}
use quick_api.Routing.Route.{Route}

pub record DependencyContext : Type 0 where
  pub request : Request
  pub route : Option Route
  pub path_params : Option (Dict Text)
  pub ml : Option Value

-- What a factory's parameter is given.
pub data Supplied : Type 0 where
  the_context : DependencyContext → Supplied
  the_request : Request → Supplied
  the_app : Supplied
  the_route : Option Route → Supplied
  the_path_params : Dict Text → Supplied
  the_ml : Option Value → Supplied

-- What a factory returns: a value, or an awaitable with what awaiting it does.
pub data Produced (W : Type 0) : Type 0 where
  now : Value → Produced W
  later : (W → Result Value × W) → Produced W

pub record DependencyProvider (W : Type 0) : Type 0 where
  pub name : Text
  pub parameters : List Text
  pub factory : Dict Supplied → W → Result (Produced W) × W
  pub cached : Bool

unfoldable pub supplied_for : DependencyContext → Text → Option Supplied
unfolding codes
supplied_for c name =
    if name == codes "context"
    then some (the_context c)
    else if name == codes "request"
    then some (the_request c.request)
    else if name == codes "app"
    then some the_app
    else if name == codes "route"
    then some (the_route c.route)
    else if name == codes "path_params"
    then some (the_path_params (or_else c.path_params []))
    else if name == codes "ml"
    then some (the_ml c.ml)
    else none

abbrev bind_supplied : Dict Supplied → Text → Option Supplied → Dict Supplied
bind_supplied kwargs name none = kwargs
bind_supplied kwargs name (some s) = put kwargs name s

-- the loop of `_invoke`
unfoldable pub supply : DependencyContext → Dict Supplied → List Text → Dict Supplied
unfolding supplied_for put
supply c kwargs [] = kwargs
supply c kwargs (name ∷ names) = supply c (bind_supplied kwargs name (supplied_for c name)) names

-- `dict.fromkeys(names)`: each name once, in the order of the first occurrences
unfoldable pub from_keys : List Text → List Text
unfolding keep
from_keys [] = []
from_keys (n ∷ ns) = n ∷ keep (λ t. not (n == t)) (from_keys ns)

abbrev pub Settle : Type 0 → Type 0
Settle W = Text → Result (Produced W) → W → Result Value × W

-- `if provider.cache: cache[name] = value`
abbrev pub remember : Bool → Dict Value → Text → Result Value → Dict Value
remember cached cache name (raise e) = cache
remember false cache name (ok v) = cache
remember true cache name (ok v) = put cache name v

abbrev pub remembered : Bool → Dict Value → Text → Option Value
remembered false cache name = none
remembered true cache name = get cache name

abbrev pub unknown : Text → Raised
unknown name = record {
  kind = codes "KeyError";
  message = codes "Dependency '" ++ name ++ codes "' is not registered";
}

module _ {W : Type 0} where
  unfoldable pub register :
      Dict (DependencyProvider W)
      → Text
      → List Text
      → (Dict Supplied → W → Result (Produced W) × W)
      → Bool
      → Dict (DependencyProvider W)
  unfolding put
  register providers name parameters factory cached =
      put providers name
        (record { name = name; parameters = parameters; factory = factory; cached = cached })

  -- `_invoke`
  unfoldable pub invoke : DependencyProvider W → DependencyContext → W → Result (Produced W) × W
  unfolding supply
  invoke p c w = p.factory (supply c [] p.parameters) w

  -- What `resolve` does with what the factory gave.
  unfoldable pub settle_now : Text → Result (Produced W) → W → Result Value × W
  unfolding codes
  settle_now name (raise e) w = (raise e, w)
  settle_now name (ok (now v)) w = (ok v, w)
  settle_now name (ok (later f)) w = (
    raise (record {
      kind = codes "RuntimeError";
      message =
          codes "Dependency '" ++ name ++ codes "' is async; use ASGI/handle_async for this route";
    }),
    w,
  )

  -- What `resolve_async` does with it.
  unfoldable pub settle_later : Text → Result (Produced W) → W → Result Value × W
  settle_later name (raise e) w = (raise e, w)
  settle_later name (ok (now v)) w = (ok v, w)
  settle_later name (ok (later f)) w = f w

  -- The value that a provider's factory gives, and the world after it.
  unfoldable pub produce :
      Settle W → DependencyProvider W → DependencyContext → Text → W → Result Value × W
  unfolding invoke
  produce settle p c name w = let (made, w') = invoke p c w in settle name made w'

  -- `resolve` and `resolve_async`: the value, the cache and the world after it
  unfoldable pub resolve_with :
      Settle W
      → Dict (DependencyProvider W)
      → Text
      → DependencyContext
      → Dict Value
      → W
      → Result Value × (Dict Value × W)
  unfolding get put produce codes
  resolve_with settle providers name c cache w = elim (get providers name) [
    | none ↦ (raise (unknown name), (cache, w))
    | some p ↦ elim (remembered p.cached cache name) [
      | some v ↦ (ok v, (cache, w))
      | none ↦
          let (value, w') = produce settle p c name w in
          (value, (remember p.cached cache name value, w'))
    ]
  ]

  -- the loop of `resolve_many`
  unfoldable pub many_from :
      Settle W
      → Dict (DependencyProvider W)
      → DependencyContext
      → List Text
      → Dict Value
      → W
      → Dict Value
      → Result (Dict Value) × W
  unfolding resolve_with put
  many_from settle providers c [] cache w resolved = (ok resolved, w)
  many_from settle providers c (name ∷ names) cache w resolved =
      let (value, (cache', w')) = resolve_with settle providers name c cache w in
      elim value [
        | raise e ↦ (raise e, w')
        | ok v ↦ many_from settle providers c names cache' w' (put resolved name v)
      ]

  unfoldable pub resolve_many :
      Dict (DependencyProvider W) → List Text → DependencyContext → W → Result (Dict Value) × W
  unfolding many_from from_keys settle_now
  resolve_many providers names c w = many_from settle_now providers c (from_keys names) [] w []

  unfoldable pub resolve_many_async :
      Dict (DependencyProvider W) → List Text → DependencyContext → W → Result (Dict Value) × W
  unfolding many_from from_keys settle_later
  resolve_many_async providers names c w =
      many_from settle_later providers c (from_keys names) [] w []

  -- `_dependency_names_for_route` of quickapi/app/application.py
  unfoldable pub dependency_names : Dict (DependencyProvider W) → Route → List Text
  unfolding keep has from_keys
  dependency_names providers route =
      from_keys
        (route.metadata.dependencies ++ keep (λ name. has providers name) route.handler.parameters)
