-- ===== src/App/Pipeline/Hostile.antt =====
-- What the application does with a hostile request.
use quick_api.Base.{
  Text, Value, true, Option, none, some, [], ◌≡◌, inl, inr, sym, ap, ◌∙◌, ok, ok_eq,
}
use quick_api.Http.{Request}
use quick_api.Routing.Route.{Route}
use quick_api.Ml.Floats.{Floats}
use quick_api.Ml.Signals.{is_blocked}
use quick_api.Ml.Profile.{Codecs, raw_of}
use quick_api.Ml.Shapes.{GuardLimits}
use quick_api.Ml.Guard.Blocks.{IsHostile, inspect-blocks}
use quick_api.App.Authorize.{AuthConfig, authorize}
use quick_api.App.Access.{by_validator, by_token, authorize-IsGranted}
use quick_api.App.Parts.{State, Moment, App}
use quick_api.App.Pipeline.{respond}
use quick_api.App.Pipeline.Gates.{respond-IsGated}

IsHostile-auth :
    (c : Codecs) (lim : GuardLimits) (req after : Request) (a : Option Value)
    → after ≡ record req { auth = a }
    → IsHostile c lim req
    → IsHostile c lim after
unfolding raw_of
IsHostile-auth c lim req after a same hostile = rw same hostile

-- The authorisation changes nothing else of a request.
authorize-auth :
    (config : AuthConfig) (auth_env token_env : Option Text) (new_id : Text) (route : Route)
    (req after : Request)
    → authorize config auth_env token_env new_id route req ≡ ok (none, after)
    → (a : Option Value) × (after ≡ record req { auth = a })
authorize-auth config auth_env token_env new_id route req after e =
    elim (authorize-IsGranted config auth_env token_env new_id route req after e) [
      | inl (public, same) ↦ (req.auth, same)
      | inr (token, sent, full, granted) ↦ elim granted [
        | by_validator validator v there fine good seen ↦ (_, seen)
        | by_token no_validator known seen ↦ (_, seen)
      ]
    ]

module _ {F W H : Type 0} ⦃n : Floats F⦄ (app : App F W H) where
  -- A hostile request never reaches a dependency or a handler of an application whose guard is
  -- enabled and may block: the world is left as the built-in endpoints leave it, whatever the
  -- router, the authorisation, the engine, the synaptic layer and the native runtime answer.
  pub respond-refuses :
      (m : Moment) (req : Request) (s : State W)
      → app.guard.enabled ≡ true
      → app.guard.block_enabled ≡ true
      → IsHostile app.codecs app.guard.limits req
      → (respond app m req s).1.world ≡ (app.builtin req s.world).1
  respond-refuses m req s on may hostile = elim (respond-IsGated app m req s) [
    | inr same ↦ same
    | inl gates ↦
        let (a, seen) =
          authorize-auth app.auth app.auth_env app.token_env m.new_id gates.route req gates.after
            gates.granted in
        elim (inspect-blocks app.codecs app.fingerprint app.guard app.parts gates.after
          (some gates.route) gates.path_params [] m.duration on may
          (IsHostile-auth app.codecs app.guard.limits req gates.after a seen hostile)) [
            | inr (e, raised, same) ↦ absurd (cc (sym same ∙ gates.clean.judged))
            | inl (report, same, blocked) ↦
                let equal = ok_eq _ _ (sym same ∙ gates.clean.judged) in
                absurd (
                  cc (
                    sym (ap is_blocked blocked)
                    ∙ ap (λ r. is_blocked r.action) equal
                    ∙ gates.clean.unblocked))
          ]
  ]
