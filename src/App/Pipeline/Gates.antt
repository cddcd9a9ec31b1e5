-- ===== src/App/Pipeline/Gates.antt =====
-- What stands between a request and the handler of its route.
use quick_api.Base.{
  Text, Dict, Value, false, Option, none, some, List, [], ◌∷◌, ◌≡◌, ◌⊎◌, inl, inr, refl, ap, Result,
  ok, raise, Bool-cases, arith,
}
use quick_api.Http.{Request}
use quick_api.Response.{Answer}
use quick_api.Routing.Route.{Route}
use quick_api.Routing.Registry.{Match, hit, not_allowed, miss}
use quick_api.Routing.Router.{match}
use quick_api.Security.Guard.{SecurityGuard, check}
use quick_api.Ml.Floats.{Floats}
use quick_api.Ml.Signals.{is_blocked}
use quick_api.Ml.Guard.{GuardReport, inspect}
use quick_api.App.Authorize.{Authorized, authorize}
use quick_api.App.Parts.{State, Moment, App, collect_issues}
use quick_api.App.Pipeline.{
  judge, guarded, inspected, admitted, routed, secured, unanswered, respond,
}

module _ {F W H : Type 0} ⦃n : Floats F⦄ (app : App F W H) where
  -- The gates from the guard on, for the request that the authorisation let pass.
  pub record IsClean (m : Moment) (route : Route) (path_params : Dict Text) (req : Request)
      : Type 0 where
    pub valid : collect_issues app route req path_params ≡ ok []
    pub report : GuardReport F
    pub judged :
        inspect app.codecs app.fingerprint app.guard app.parts req
          (some route)
          path_params
          []
          m.duration
        ≡ ok report
    pub unblocked : is_blocked report.action ≡ false

  -- All the gates of a request that is served: no built-in endpoint answers, the security guard
  -- rejects nothing, a route is hit, and the authorisation lets a request pass that is clean.
  pub record IsGated (m : Moment) (req : Request) (s : State W) : Type 0 where
    pub no_builtin : (app.builtin req s.world).0 ≡ ok none
    pub secure : (check app.codecs.shown app.codecs.decode m.new_id s.security m.now req).0 ≡ none
    pub route : Route
    pub path_params : Dict Text
    pub found : match app.library app.router req.method req.path ≡ hit route path_params
    pub after : Request
    pub granted :
        authorize app.auth app.auth_env app.token_env m.new_id route req ≡ ok (none, after)
    pub clean : IsClean m route path_params after

  guarded-IsClean :
      (m : Moment) (route : Route) (req : Request) (path_params : Dict Text) (s : State W)
      (issues : List (Dict Value)) (r : Result (GuardReport F))
      → collect_issues app route req path_params ≡ ok issues
      → inspect app.codecs app.fingerprint app.guard app.parts req
          (some route)
          path_params
          issues
          m.duration
        ≡ r
      → IsClean m route path_params req ⊎ ((guarded app m route req path_params s issues r).1 ≡ s)
  unfolding guarded judge
  guarded-IsClean m route req path_params s issues (raise x) e h = inr refl
  guarded-IsClean m route req path_params s (issue ∷ issues) (ok report) e h = inr (ground (arith))
  guarded-IsClean m route req path_params s [] (ok report) e h =
      elim (Bool-cases (is_blocked report.action)) [
        | inl blocked ↦ inr (rw (blocked) refl)
        | inr free ↦ inl (record { valid = e; report = report; judged = h; unblocked = free })
      ]

  inspected-IsClean :
      (m : Moment) (route : Route) (req : Request) (path_params : Dict Text) (s : State W)
      (r : Result (List (Dict Value)))
      → collect_issues app route req path_params ≡ r
      → IsClean m route path_params req ⊎ ((inspected app m route req path_params s r).1 ≡ s)
  unfolding inspected
  inspected-IsClean m route req path_params s (raise e) same = inr refl
  inspected-IsClean m route req path_params s (ok issues) same =
      guarded-IsClean m route req path_params s issues
        (inspect app.codecs app.fingerprint app.guard app.parts req (some route) path_params issues
          m.duration)
        same refl

  admitted-IsClean :
      (m : Moment) (route : Route) (path_params : Dict Text) (s : State W) (r : Result Authorized)
      → ((after : Request) × (r ≡ ok (none, after)) × IsClean m route path_params after)
        ⊎ ((admitted app m route path_params s r).1 ≡ s)
  unfolding admitted
  admitted-IsClean m route path_params s (raise e) = inr refl
  admitted-IsClean m route path_params s (ok (some answer, req)) = inr refl
  admitted-IsClean m route path_params s (ok (none, req)) =
      elim (inspected-IsClean m route req path_params s (collect_issues app route req path_params)
        refl) [ inl clean ↦ inl (req, refl, clean) | inr same ↦ inr same ]

  -- What the routing must find, for a request that is served.
  abbrev IsRouted : Moment → Request → Match → Type 0
  IsRouted m req found =
      (route : Route) × (path_params : Dict Text) × (after : Request) × (found
        ≡ hit route path_params)
      × (authorize app.auth app.auth_env app.token_env m.new_id route req ≡ ok (none, after))
      × IsClean m route path_params after

  routed-IsRouted :
      (m : Moment) (req : Request) (s : State W) (found : Match)
      → IsRouted m req found ⊎ ((routed app m req s found).1 ≡ s)
  unfolding routed
  routed-IsRouted m req s (not_allowed allowed) = inr refl
  routed-IsRouted m req s miss = inr refl
  routed-IsRouted m req s (hit route path_params) =
      elim (admitted-IsClean m route path_params s
        (authorize app.auth app.auth_env app.token_env m.new_id route req)) [
          | inl (after, granted, clean) ↦ inl (route, path_params, after, refl, granted, clean)
          | inr same ↦ inr same
        ]

  secured-IsRouted :
      (m : Moment) (req : Request) (w : W) (r : Option (Dict Value) × SecurityGuard)
      → ((r.0 ≡ none) × IsRouted m req (match app.library app.router req.method req.path))
        ⊎ ((secured app m req w r).1 ≡ record { security = r.1; world = w })
  unfolding secured
  secured-IsRouted m req w (some answer, security) = inr refl
  secured-IsRouted m req w (none, security) =
      elim (routed-IsRouted m req (record { security = security; world = w })
        (match app.library app.router req.method req.path)) [
          | inl found ↦ inl (refl, found)
          | inr same ↦ inr same
        ]

  unanswered-IsRouted :
      (m : Moment) (req : Request) (security : SecurityGuard) (r : Result (Option Answer) × W)
      → ((r.0 ≡ ok none)
          × ((check app.codecs.shown app.codecs.decode m.new_id security m.now req).0 ≡ none)
          × IsRouted m req (match app.library app.router req.method req.path))
        ⊎ ((unanswered app m req security r).1.world ≡ r.1)
  unfolding unanswered
  unanswered-IsRouted m req security (raise e, w) = inr refl
  unanswered-IsRouted m req security (ok (some a), w) = inr refl
  unanswered-IsRouted m req security (ok none, w) =
      elim (secured-IsRouted m req w
        (check app.codecs.shown app.codecs.decode m.new_id security m.now req)) [
          | inl (secure, found) ↦ inl (refl, secure, found)
          | inr same ↦ inr (ap (λ s. s.world) same)
        ]

  -- A request runs dependencies or a handler only behind every gate: either no built-in endpoint
  -- answers it, the security guard rejects nothing, a route is hit, the authorisation lets it pass,
  -- the validation has no issue and the guard does not block it, or the world is left as the
  -- built-in endpoints leave it.
  pub respond-IsGated :
      (m : Moment) (req : Request) (s : State W)
      → IsGated m req s ⊎ ((respond app m req s).1.world ≡ (app.builtin req s.world).1)
  unfolding respond
  respond-IsGated m req s = elim (unanswered-IsRouted m req s.security (app.builtin req s.world)) [
    | inr same ↦ inr same
    | inl (none_there, secure, (route, path_params, after, found, granted, clean)) ↦ inl (record {
      no_builtin = none_there;
      secure = secure;
      route = route;
      path_params = path_params;
      found = found;
      after = after;
      granted = granted;
      clean = clean;
    })
  ]
