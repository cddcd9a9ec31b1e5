-- ===== src/Routing/Registry/Choice.antt =====
-- Which route `match` chooses, and what it answers when it chooses none.
use quick_api.Base.{
  Text, upper, Dict, Bool, false, ◌&&◌, Option, none, some, List, [], ◌∷◌, ◌++◌, ◌≡◌, ◌≢◌, refl,
  sym, ap, ◌∙◌, ◌==◌, text_eq, str_iff, if◌then◌else◌, mem, All, arith, is_some, Bool-cases,
  Option-cases, inl, inr,
}
use mathlib.Core.List.{append_assoc, append-nil}
use quick_api.Base.Order.Laws.{IsIncreasing, sorted_set-IsIncreasing, mem-sorted_set}
use quick_api.Routing.Route.{Route, match}
use quick_api.Routing.Registry.{Match, hit, not_allowed, miss, no_hit, match_from, match_route}

-- A route that the request may be sent to.
abbrev pub serves : Text → Text → Route → Bool
serves method path r = r.method == method && is_some (match r path)

-- The methods of the routes that the path fits, in the order of registration.
unfoldable pub methods_at : List Route → Text → List Text
methods_at [] path = []
methods_at (r ∷ rs) path =
    let rest = methods_at rs path in if is_some (match r path) then r.method ∷ rest else rest

-- `r` is the first route of the list that may serve the request, with captures `d`.
pub record IsFirst (routes : List Route) (method path : Text) (r : Route) (d : Dict Text)
    : Type 0 where
  pub before : List Route
  pub after : List Route
  pub listed : routes ≡ before ++ r ∷ after
  pub passed : All (λ q. serves method path q ≡ false) before
  pub method_fits : r.method ≡ method
  pub path_fits : match r path ≡ some d

pub record IsRefused (routes : List Route) (method path : Text) (allowed : List Text) : Type 0 where
  pub unserved : All (λ q. serves method path q ≡ false) routes
  pub increasing : IsIncreasing allowed
  pub exact : (t : Text) → mem t allowed ≡ mem t (methods_at routes path)
  pub some_allowed : methods_at routes path ≢ []

-- What the answer of `match` says of the registry.
abbrev pub Answers : List Route → Text → Text → Match → Type 0
Answers routes method path (hit r d) = IsFirst routes method path r d
Answers routes method path (not_allowed allowed) = IsRefused routes method path allowed
Answers routes method path miss = All (λ q. match q path ≡ none) routes

IsFirst-cons :
    {rs : List Route} {method path : Text} {r : Route} {d : Dict Text} (q : Route)
    → serves method path q ≡ false
    → IsFirst rs method path r d
    → IsFirst (q ∷ rs) method path r d
IsFirst-cons q e f = record {
  before = q ∷ f.before;
  after = f.after;
  listed = ap (λ t. q ∷ t) f.listed;
  passed = (e, f.passed);
  method_fits = f.method_fits;
  path_fits = f.path_fits;
}

unfoldable first_hit : List Route → Text → Text → Option (Route × Dict Text)
first_hit [] method path = none
first_hit (r ∷ rs) method path =
    let later = first_hit rs method path in
    elim (match r path) [
      | none ↦ later
      | some d ↦ if r.method == method then some (r, d) else later
    ]

abbrev decide : Option (Route × Dict Text) → List Text → Match
decide none ms = no_hit ms
decide (some (r, d)) ms = hit r d

-- The loop with its accumulator, as a search and a list of methods.
match_from_lem :
    (rs : List Route) (method path : Text) (allowed : List Text)
    → match_from rs method path allowed
      ≡ decide (first_hit rs method path) (allowed ++ methods_at rs path)
unfolding match_from first_hit methods_at
match_from_lem [] method path allowed = ap no_hit (sym (append-nil allowed))
match_from_lem (r ∷ rs) method path allowed = elim (Option-cases (match r path)) [
  | inl e ↦ rw (e, match_from, first_hit) (match_from_lem rs method path allowed)
  | inr (d, e) ↦ elim (Bool-cases (r.method == method)) [
    | inl same ↦ rw (e, same, match_from, first_hit) refl
    | inr other ↦
        rw (e, other, match_from, first_hit)
          (match_from_lem rs method path (allowed ++ r.method ∷ [])
            ∙ ap (decide (first_hit rs method path))
                (append_assoc allowed (r.method ∷ []) (methods_at rs path)))
  ]
]

first_eq :
    (q r : Route) (c d : Dict Text)
    → ◌≡◌ {A = Option (Route × Dict Text)} (some (q, c)) (some (r, d))
    → (q ≡ r) × (c ≡ d)
first_eq q r c d e = (cc, cc)

first_hit-IsFirst :
    (rs : List Route) (method path : Text) (r : Route) (d : Dict Text)
    → first_hit rs method path ≡ some (r, d)
    → IsFirst rs method path r d
unfolding first_hit
first_hit-IsFirst [] method path r d e = absurd (ground arith)
first_hit-IsFirst (q ∷ rs) method path r d e = elim (Option-cases (match q path)) [
  | inl none_here ↦
      IsFirst-cons q (ground arith)
        (first_hit-IsFirst rs method path r d (rw (none_here, first_hit) at e))
  | inr (c, fits) ↦ elim (Bool-cases (q.method == method)) [
    | inl same ↦ record {
      before = [];
      after = rs;
      listed = ap (λ t. t ∷ rs) (first_eq q r c d (rw (fits, same, first_hit) at e)).0;
      passed = tt;
      method_fits =
          rw (← (first_eq q r c d (rw (fits, same, first_hit) at e)).0)
            ((str_iff q.method method).0 same);
      path_fits =
          rw (← (first_eq q r c d (rw (fits, same, first_hit) at e)).0)
            (fits ∙ ap some (first_eq q r c d (rw (fits, same, first_hit) at e)).1);
    }
    | inr other ↦
        IsFirst-cons q (ground arith) (first_hit-IsFirst rs method path r d (ground arith))
  ]
]

first_hit-none :
    (rs : List Route) (method path : Text)
    → first_hit rs method path ≡ none
    → All (λ q. serves method path q ≡ false) rs
unfolding first_hit
first_hit-none [] method path e = tt
first_hit-none (q ∷ rs) method path e = ground (arith, first_hit-none rs method path)

methods_at-nil :
    (rs : List Route) (path : Text) → methods_at rs path ≡ [] → All (λ q. match q path ≡ none) rs
unfolding methods_at
methods_at-nil [] path e = tt
methods_at-nil (q ∷ rs) path e = ground (arith, methods_at-nil rs path)

decide-Answers :
    (rs : List Route) (method path : Text) (o : Option (Route × Dict Text)) (ms : List Text)
    → first_hit rs method path ≡ o
    → methods_at rs path ≡ ms
    → Answers rs method path (decide o ms)
decide-Answers rs method path none [] e k = methods_at-nil rs path k
decide-Answers rs method path none (m ∷ ms) e k = record {
  unserved = first_hit-none rs method path e;
  increasing = sorted_set-IsIncreasing (m ∷ ms);
  exact = λ t. rw k (mem-sorted_set t (m ∷ ms));
  some_allowed = λ nil. cc (k, nil);
}
decide-Answers rs method path (some (r, d)) ms e k = first_hit-IsFirst rs method path r d e

-- What `match` answers. With a route and captures: it is the first registered route whose method
-- is the request's, in upper case, and whose template the path fits, and the captures are those of
-- its template. With methods: no route serves the request, and the answer lists in increasing
-- order, each once, exactly the methods of the routes that the path fits, of which there are some.
-- With neither: the path fits no route at all.
pub match_route-Answers :
    (routes : List Route) (method path : Text)
    → Answers routes (upper method) path (match_route routes method path)
unfolding match_route
match_route-Answers routes method path =
    rw match_from_lem (decide-Answers routes (upper method) path _ _ refl refl)
