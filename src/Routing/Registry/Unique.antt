-- ===== src/Routing/Registry/Unique.antt =====
-- No two registered routes have the same method and path.
use quick_api.Base.{
  Text, upper, true, false, ◌&&◌, none, some, List, [], ◌∷◌, ◌++◌, ◌≡◌, refl, ◌==◌, text_eq,
  str_iff, if◌then◌else◌, All, All-append, arith, Option-cases, inl, inr, ok, is_some,
}
use quick_api.Routing.Route.{Route}
use quick_api.Routing.Registry.{find_in, find, add}

abbrev pub IsUnique : List Route → Type 0
IsUnique [] = Unit
IsUnique (r ∷ rs) = (find_in rs r.method r.path ≡ none) × IsUnique rs

pub record IsRegistry (routes : List Route) : Type 0 where
  pub unique : IsUnique routes
  pub upper_case : All (λ r. upper r.method ≡ r.method) routes

find_in-append :
    (rs : List Route) (q : Route) (method path : Text)
    → find_in (rs ++ q ∷ []) method path ≡ (
        if is_some (find_in rs method path)
        then find_in rs method path
        else if q.method == method && q.path == path
        then some q
        else none)
unfolding find_in
find_in-append [] q method path = refl
find_in-append (r ∷ rs) q method path = ground (arith, find_in-append rs q method path)

find_in-none_sym :
    (rs : List Route) (q r : Route)
    → find_in (r ∷ rs) q.method q.path ≡ none
    → (r.method == q.method && r.path == q.path) ≡ false
unfolding find_in
find_in-none_sym rs q r e = ground arith

IsUnique-append :
    (rs : List Route) (q : Route)
    → IsUnique rs
    → find_in rs q.method q.path ≡ none
    → IsUnique (rs ++ q ∷ [])
unfolding find_in
IsUnique-append [] q u e = (refl, tt)
IsUnique-append (r ∷ rs) q (n, u) e = (
  rw find_in-append (
      ground (
        arith,
        n,
        e,
        str_iff q.method r.method,
        str_iff q.path r.path,
        str_iff r.method q.method,
        str_iff r.path q.path,
      )),
  IsUnique-append rs q u (ground arith),
)

pub add_lem :
    (routes : List Route) (route : Route) (result : List Route)
    → add routes route ≡ ok result
    → result ≡ routes ++ route ∷ []
unfolding add find
add_lem routes route result e = ground (arith, e)

-- `add` keeps the registry well formed when it accepts a route whose method is in upper case.
pub add-IsRegistry :
    (routes : List Route) (route : Route) (result : List Route)
    → IsRegistry routes
    → upper route.method ≡ route.method
    → add routes route ≡ ok result
    → IsRegistry result
unfolding add find
add-IsRegistry routes route result h u e =
    elim (Option-cases (find_in routes (upper route.method) route.path)) [
      | inl fresh ↦
          let same : result ≡ routes ++ route ∷ [] = ground (arith, e, fresh) in
          rw same (record {
            unique = IsUnique-append routes route h.unique (rw u at fresh);
            upper_case = All-append _ routes (route ∷ []) h.upper_case (u, tt);
          })
      | inr (old, there) ↦ absurd (ground (arith, e, there))
    ]

find_in_of_key :
    (rs : List Route) (q : Route) (method path : Text)
    → find_in rs q.method q.path ≡ none
    → (q.method == method && q.path == path) ≡ true
    → find_in rs method path ≡ none
find_in_of_key rs q method path e k =
    let m : q.method ≡ method = ground (arith, k, str_iff q.method method) in
    let p : q.path ≡ path = ground (arith, k, str_iff q.path path) in rw (m, p) at e

-- After a successful `add`, looking up the route's method and path finds it, and every other
-- method and path finds what it found before.
find-add :
    (routes : List Route) (route : Route) (result : List Route) (method path : Text)
    → upper route.method ≡ route.method
    → add routes route ≡ ok result
    → find result method path ≡ (
        if route.method == upper method && route.path == path
        then some route
        else find routes method path)
unfolding add find
find-add routes route result method path u e =
    elim (Option-cases (find_in routes (upper route.method) route.path)) [
      | inl fresh ↦
          let same : result ≡ routes ++ route ∷ [] = ground (arith, e, fresh) in
          rw (same, find_in-append)
            (ground (arith, find_in_of_key routes route (upper method) path (rw u at fresh)))
      | inr (old, there) ↦ absurd (ground (arith, e, there))
    ]
