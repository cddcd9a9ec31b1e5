-- ===== src/Middleware.antt =====
-- `MiddlewareChain` of quickapi/middleware.py. What a middleware does to the world outside is kept in
-- a state `W`; `A` is what a handler answers. `run_async` awaits where `run` calls, and an awaitable
-- is taken as awaited. A middleware that is a function or has a method is known by which of its
-- parts are there.
pub mod Hooks
use quick_api.Base.{
  Text, codes, Dict, Value, str, obj_of, Option, none, some, List, [], ◌∷◌, ◌++◌, map, or_else,
  Raised, Result, ok, raise,
}
use quick_api.Http.{Request}

abbrev pub Step : Type 0 → Type 0 → Type 0
Step W A = W → Result A × W

-- `before` and `after` are given the request of the context, and `around` is the middleware as a
-- function of a request and the call of what follows.
pub record Middleware (W A : Type 0) : Type 0 where
  pub name : Text
  pub before : Option (Request → Step W (Option Request))
  pub around : Option (Request → (Request → Step W A) → Step W A)
  pub after : Option (Request → A → Step W (Option A))

-- Two steps, one after the other; an exception ends both.
abbrev pub then_step : {W A B : Type 0} → Result B × W → (B → Step W A) → Result A × W
then_step (raise e, w) f = (raise e, w)
then_step (ok b, w) f = f b w

abbrev pub replaced : {W B : Type 0} → B → Result (Option B) × W → Result B × W
replaced b (raise e, w) = (raise e, w)
replaced b (ok none, w) = (ok b, w)
replaced b (ok (some b'), w) = (ok b', w)

module _ {W A : Type 0} where
  -- The request that is passed on after the hook `before`.
  unfoldable pub run_before : Middleware W A → Request → Request → Step W Request
  run_before item context request w = elim (item.before) [
    | none ↦ (ok request, w)
    | some hook ↦ replaced request (hook context w)
  ]

  -- The middleware as a function, when it is one and has no `before`.
  unfoldable pub run_around : Middleware W A → Request → (Request → Step W A) → Step W A
  run_around item request next w = elim (item.before) [
    | some hook ↦ next request w
    | none ↦ elim (item.around) [ none ↦ next request w | some call ↦ call request next w ]
  ]

  unfoldable pub run_after : Middleware W A → Request → A → Step W A
  run_after item context result w = elim (item.after) [
    | none ↦ (ok result, w)
    | some hook ↦ replaced result (hook context result w)
  ]

  -- `_call_sync`
  unfoldable pub call_sync : Middleware W A → Request → Request → (Request → Step W A) → Step W A
  unfolding run_before run_around run_after
  call_sync item context request next w =
      then_step (run_before item context request w)
        (λ request' w'. then_step (run_around item request' next w') (run_after item context))

  -- `call_at`, by the middlewares that are left
  unfoldable pub call_at :
      Request → List (Middleware W A) → (Request → Step W A) → Request → Step W A
  unfolding call_sync
  call_at context [] terminal request w = terminal request w
  call_at context (item ∷ items) terminal request w =
      call_sync item context request (call_at context items terminal) w

  unfoldable pub run : List (Middleware W A) → Request → (Request → Step W A) → Step W A
  unfolding call_at
  run items context terminal w = call_at context items terminal context w

  unfoldable pub add : List (Middleware W A) → Middleware W A → List (Middleware W A)
  add items item = items ++ item ∷ []

  unfoldable pub list_middleware : List (Middleware W A) → List (Dict Value)
  unfolding codes
  list_middleware items = map (λ m. obj_entry m.name) items
    where
      obj_entry : Text → Dict Value
      obj_entry t = (codes "name", str t) ∷ []
