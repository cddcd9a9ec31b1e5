-- ===== src/Middleware/Hooks.antt =====
-- The order in which a chain of middlewares runs.
use quick_api.Base.{
  ap, ◌∙◌, sym, none, List, [], ◌∷◌, ◌++◌, ◌≡◌, refl, All, Result, ok, raise, arith,
}
use quick_api.Http.{Request}
use quick_api.Middleware.{
  Middleware, Step, then_step, run_before, run_around, run_after, call_sync, call_at, run,
}

then_step-ok : {W A : Type 0} (r : Result A × W) → then_step r (λ a w. (ok a, w)) ≡ r
then_step-ok (ok a, w) = refl
then_step-ok (raise e, w) = refl

then_step_assoc :
    {W A B C : Type 0} (r : Result A × W) (f : A → Step W B) (g : B → Step W C)
    → then_step (then_step r f) g ≡ then_step r (λ a w. then_step (f a w) g)
then_step_assoc (ok a, w) f g = refl
then_step_assoc (raise e, w) f g = refl

module _ {W A : Type 0} where
  -- A chain is called the way its parts are, one inside the other.
  pub call_at-append :
      (context : Request) (items more : List (Middleware W A)) (terminal : Request → Step W A)
      (request : Request) (w : W)
      → call_at context (items ++ more) terminal request w
        ≡ call_at context items (call_at context more terminal) request w
  unfolding call_at call_sync
  call_at-append context [] more terminal request w = refl
  call_at-append context (item ∷ items) more terminal request w =
      ap (λ next. call_sync item context request next w)
        (λ i r v. call_at-append context items more terminal r v i)

  -- The hooks `before` of a chain, in its order, each on the request of the context.
  unfoldable pub befores : Request → List (Middleware W A) → Request → Step W Request
  unfolding run_before
  befores context [] request w = (ok request, w)
  befores context (item ∷ items) request w =
      then_step (run_before item context request w) (befores context items)

  -- The hooks `after` of a chain, in the reverse of its order, each with the context.
  unfoldable pub afters : Request → List (Middleware W A) → A → Step W A
  unfolding run_after
  afters context [] result w = (ok result, w)
  afters context (item ∷ items) result w =
      then_step (afters context items result w) (run_after item context)

  -- A middleware of hooks alone, which is no function.
  abbrev pub IsHooks : Middleware W A → Type 0
  IsHooks item = item.around ≡ none

  pub run_around-hooks :
      (item : Middleware W A) (request : Request) (next : Request → Step W A) (w : W)
      → IsHooks item
      → run_around item request next w ≡ next request w
  unfolding run_around
  run_around-hooks item request next w h = ground (arith, h)

  inner :
      (context : Request) (item : Middleware W A) (items : List (Middleware W A))
      (terminal : Request → Step W A) (request : Request) (w : W)
      → IsHooks item
      → call_at context items terminal request w
        ≡ then_step
            (befores context items request w)
            (λ r v. then_step (terminal r v) (afters context items))
      → then_step
          (run_around item request (call_at context items terminal) w)
          (run_after item context)
        ≡ then_step
            (befores context items request w)
            (λ r v. then_step (terminal r v) (afters context (item ∷ items)))
  unfolding afters
  inner context item items terminal request w h e =
      ap (λ t. then_step t (run_after item context))
        (run_around-hooks item request (call_at context items terminal) w h ∙ e)
      ∙ then_step_assoc (befores context items request w) _ (run_after item context)
      ∙ ap (then_step (befores context items request w)) (λ i r v.
        then_step_assoc (terminal r v) (afters context items) (run_after item context) i)

  call_at-hooks :
      (context : Request) (items : List (Middleware W A)) (terminal : Request → Step W A)
      (request : Request) (w : W)
      → All IsHooks items
      → call_at context items terminal request w
        ≡ then_step
            (befores context items request w)
            (λ r v. then_step (terminal r v) (afters context items))
  unfolding call_at call_sync befores afters
  call_at-hooks context [] terminal request w h = sym (then_step-ok (terminal request w))
  call_at-hooks context (item ∷ items) terminal request w (h, k) =
      ap (then_step (run_before item context request w)) (λ i r v.
        inner context item items terminal r v h (call_at-hooks context items terminal r v k) i)
      ∙ sym (
          then_step_assoc (run_before item context request w) (befores context items)
            (λ r v. then_step (terminal r v) (afters context (item ∷ items))))

  -- A chain of middlewares that are hooks and no functions runs their hooks `before` in the order of
  -- registration, each on the request of the context, then the handler, then their hooks `after` in
  -- the reverse order, each with that request and the result before it. An exception of any part ends the rest.
  pub run-hooks :
      (items : List (Middleware W A)) (request : Request) (terminal : Request → Step W A) (w : W)
      → All IsHooks items
      → run items request terminal w
        ≡ then_step
            (befores request items request w)
            (λ r v. then_step (terminal r v) (afters request items))
  unfolding run
  run-hooks items request terminal w h = call_at-hooks request items terminal request w h
