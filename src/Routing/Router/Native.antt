-- ===== src/Routing/Router/Native.antt =====
-- The native bridge never leads to a route that the registry does not hold.
use quick_api.Base.{
  Text, upper, upper_idem, Dict, get, put, Bool, true, false, Option, none, some, List, [], ◌∷◌,
  ◌++◌, ◌≡◌, refl, ◌==◌, text_eq, arith, Option-cases, inl, inr, Result-cases, ok_eq, ok,
  Bool-cases, ap, All,
}
use mathlib.Core.List.{Memᴰ}
use mathlib.Core.Path.{subst}
use quick_api.Routing.Route.{Route, Handler, Metadata, make_route, compile_path}
use quick_api.Routing.Registry
use quick_api.Routing.Registry.{Match, hit, not_allowed, miss, match_route}
use quick_api.Routing.Registry.Choice.{match_route-Answers, IsFirst}
use quick_api.Routing.Registry.Unique.{IsRegistry, add_lem, add-IsRegistry}
use quick_api.Routing.Router.{
  added, native_hit, native_allowed, RouteLib, NativeBridge, Router, token, bridge_add,
  bridge_match, add_route, match,
}

Memᴰ-append {ℓ} : {A : Type ℓ} {a : A} (xs ys : List A) → Memᴰ a xs → Memᴰ a (xs ++ ys)
Memᴰ-append [] ys m = elim m [ ]
Memᴰ-append (x ∷ xs) ys (Memᴰ.head e) = Memᴰ.head e
Memᴰ-append (x ∷ xs) ys (Memᴰ.tail m) = Memᴰ.tail (Memᴰ-append xs ys m)

Memᴰ-middle {ℓ} : {A : Type ℓ} (a : A) (xs ys : List A) → Memᴰ a (xs ++ a ∷ ys)
Memᴰ-middle a [] ys = Memᴰ.head refl
Memᴰ-middle a (x ∷ xs) ys = Memᴰ.tail (Memᴰ-middle a xs ys)

-- Every token stands for a route of the list.
abbrev pub Held : List Route → Dict Route → Type 0
Held rs tokens = All (λ e. Memᴰ e.1 rs) tokens

Held-put :
    (rs : List Route) (t : Text) (q : Route) (tokens : Dict Route)
    → Memᴰ q rs
    → Held rs tokens
    → Held rs (put tokens t q)
unfolding put
Held-put rs t q [] m h = (m, tt)
Held-put rs t q ((j, p) ∷ tokens) m (n, h) = elim (Bool-cases (j == t)) [
  | inl e ↦ rw e (m, h)
  | inr e ↦ rw e (n, Held-put rs t q tokens m h)
]

Held-get :
    (rs : List Route) (tokens : Dict Route) (t : Text) (q : Route)
    → Held rs tokens
    → get tokens t ≡ some q
    → Memᴰ q rs
unfolding get
Held-get rs [] t q h e = absurd (ground (arith, e))
Held-get rs ((j, p) ∷ tokens) t q (n, h) e = elim (Bool-cases (j == t)) [
  | inl same ↦
      subst (λ r. Memᴰ r rs) (let found : some p ≡ some q = rw (same, get) at e in cc found) n
  | inr other ↦ Held-get rs tokens t q h (rw (other, get) at e)
]

Held-append :
    (rs : List Route) (made : Route) (tokens : Dict Route)
    → Held rs tokens
    → Held (rs ++ made ∷ []) tokens
Held-append rs made [] h = tt
Held-append rs made ((j, p) ∷ tokens) (n, h) =
    (Memᴰ-append rs (made ∷ []) n, Held-append rs made tokens h)

module _ {H : Type 0} where
  -- What every router that `add_route` builds satisfies.
  pub record IsMirrored (r : Router H) : Type 0 where
    pub registry : IsRegistry r.registry
    pub held : Held r.registry r.native_router.token_to_route

  module _ (lib : RouteLib H) where
    added-Held :
        (b : NativeBridge H) (route : Route) (rs : List Route) (reply : Bool × H)
        → Memᴰ route rs
        → Held rs b.token_to_route
        → Held rs (added lib b route reply).token_to_route
    added-Held b route rs (true, h) m k = Held-put rs (token route) route b.token_to_route m k
    added-Held b route rs (false, h) m k = k

    bridge_add-Held :
        (b : NativeBridge H) (route : Route) (rs : List Route)
        → Memᴰ route rs
        → Held rs b.token_to_route
        → Held rs (bridge_add lib b route).token_to_route
    unfolding bridge_add
    bridge_add-Held b route rs m k = elim (Option-cases (b.router)) [
      | inl off ↦ rw (off, bridge_add) k
      | inr (h, on) ↦
          rw (on, bridge_add)
            (added-Held b route rs (lib.add h route.method route.path (token route)) m k)
    ]

    make_route-upper :
        (path method : Text) (handler : Handler) (m : Metadata) (route : Route)
        → make_route path method handler m ≡ ok route
        → upper route.method ≡ route.method
    unfolding make_route
    make_route-upper path method handler m route e = elim (Result-cases (compile_path path)) [
      | inl (ps, fine) ↦ rw (← (ok_eq _ _ (rw (fine, make_route) at e))) (upper_idem method)
      | inr (x, bad) ↦ absurd (ground (arith, e, bad))
    ]

    extended-IsMirrored :
        (r : Router H) (made : Route) (routes : List Route)
        → IsMirrored r
        → upper made.method ≡ made.method
        → Registry.add r.registry made ≡ ok routes
        → IsMirrored
            (record { registry = routes; native_router = bridge_add lib r.native_router made })
    extended-IsMirrored r made routes h u kept =
        let grown = add_lem r.registry made routes kept in
        record {
          registry = add-IsRegistry r.registry made routes h.registry u kept;
          held =
              bridge_add-Held r.native_router made routes
                (rw grown (Memᴰ-middle made r.registry []))
                (rw grown (Held-append r.registry made r.native_router.token_to_route h.held));
        }

    first_registered :
        (routes : List Route) (method path : Text) (route : Route) (d : Dict Text)
        → match_route routes method path ≡ hit route d
        → Memᴰ route routes
    first_registered routes method path route d e =
        let f : IsFirst routes (upper method) path route d =
          rw e at (match_route-Answers routes method path) in
        rw f.listed (Memᴰ-middle route f.before f.after)

    native_hit-some :
        (o : Option Route) (params : Dict Text) (route : Route) (d : Dict Text)
        → native_hit lib o params ≡ some (hit route d)
        → o ≡ some route
    native_hit-some none params route d e = cc
    native_hit-some (some q) params route d e = cc

    native_allowed-ne-hit :
        (ms : List Text) (route : Route) (d : Dict Text)
        → ¬ (native_allowed lib ms ≡ some (hit route d))
    native_allowed-ne-hit [] route d e = cc
    native_allowed-ne-hit (m ∷ ms) route d e = cc

    bridge_match-hit :
        (b : NativeBridge H) (method path : Text) (route : Route) (d : Dict Text)
        → bridge_match lib b method path ≡ some (hit route d)
        → (t : Text) × (get b.token_to_route t ≡ some route)
    unfolding bridge_match
    bridge_match-hit b method path route d e = elim (Option-cases (b.router)) [
      | inl off ↦ absurd (ground (arith, e, off))
      | inr (h, on) ↦ elim (Option-cases (lib.match h (upper method) path)) [
        | inl missed ↦ absurd (native_allowed-ne-hit _ route d (rw (on, missed, bridge_match) at e))
        | inr (t, found) ↦ (
          t,
          native_hit-some (get b.token_to_route t) _ route d (rw (on, found, bridge_match) at e),
        )
      ]
    ]

    -- Whatever routes are added, the router stays mirrored: no two routes share a method and a
    -- path, every method is in upper case, and each token of the native bridge stands for a
    -- registered route.
    pub add_route-IsMirrored :
        (r : Router H) (path method : Text) (handler : Handler) (m : Metadata) (r' : Router H)
        (route : Route)
        → IsMirrored r
        → add_route lib r method path handler m ≡ ok (r', route)
        → IsMirrored r'
    unfolding add_route
    add_route-IsMirrored r path method handler m r' route h e =
        elim (Result-cases (make_route path method handler m)) [
          | inl (made, fine) ↦ elim (Result-cases (Registry.add r.registry made)) [
            | inl (routes, kept) ↦
                let same = ok_eq _ _ (rw (fine, kept, add_route) at e) in
                rw (← ap (λ (p : Router H × Route). p.0) same) (
                  extended-IsMirrored r made routes h
                    (make_route-upper path method handler m made fine) kept)
            | inr (x, bad) ↦ absurd (ground (arith, e, fine, bad))
          ]
          | inr (x, bad) ↦ absurd (ground (arith, e, bad))
        ]

    -- A route that `match` gives, through the native bridge or not, is a registered one.
    pub match-registered :
        (r : Router H) (method path : Text) (route : Route) (d : Dict Text)
        → IsMirrored r
        → match lib r method path ≡ hit route d
        → Memᴰ route r.registry
    unfolding match
    match-registered r method path route d h e =
        elim (Option-cases (bridge_match lib r.native_router method path)) [
          | inl silent ↦ first_registered r.registry method path route d (rw (silent, match) at e)
          | inr (m, spoke) ↦
              let same : m ≡ hit route d = rw (spoke, match) at e in
              let (t, known) =
                bridge_match-hit r.native_router method path route d (rw same at spoke) in
              Held-get r.registry r.native_router.token_to_route t route h.held known
        ]
