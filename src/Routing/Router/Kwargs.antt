-- ===== src/Routing/Router/Kwargs.antt =====
-- Which keyword arguments a handler is called with.
use quick_api.Base.{
  ◌++◌, codes, sym, Text, Dict, get, put, get-put, Value, Option, none, some, List, [], ◌∷◌, ◌≡◌,
  refl, ◌==◌, text_eq, str_iff, arith, if◌then◌else◌, mem, Option-cases, inl, inr, ◌⊎◌, Bool-cases,
}
use quick_api.Http.{Request}
use quick_api.Routing.Route.{
  Route, Argument, body, query, headers, request, auth, ml, state, dependency, path_param,
}
use quick_api.Routing.Router.{argument_for, build_from, build_kwargs}

module _ (req : Request) (path_params : Dict Text) (ml_result : Option Value) where
  kept :
      (n name : Text) (kwargs : Dict Argument) (a : Argument)
      → (get kwargs name ≡ none) ⊎ (get kwargs name ≡ argument_for req path_params ml_result name)
      → argument_for req path_params ml_result n ≡ some a
      → (get (put kwargs n a) name ≡ none)
        ⊎ (get (put kwargs n a) name ≡ argument_for req path_params ml_result name)
  kept n name kwargs a h found = rw get-put (elim (Bool-cases (n == name)) [
    | inl same ↦ inr (rw same (ground (arith, found, same, str_iff n name)))
    | inr apart ↦ rw apart h
  ])

  build_from_lem :
      (names : List Text) (kwargs : Dict Argument) (name : Text)
      → (get kwargs name ≡ none) ⊎ (get kwargs name ≡ argument_for req path_params ml_result name)
      → get (build_from req path_params ml_result kwargs names) name
        ≡ (if mem name names then argument_for req path_params ml_result name else get kwargs name)
  unfolding build_from
  build_from_lem [] kwargs name h = refl
  build_from_lem (n ∷ names) kwargs name h =
      elim (Option-cases (argument_for req path_params ml_result n)) [
        | inl nothing ↦
            rw (nothing, build_from)
              (ground (arith, str_iff name n, h, nothing, build_from_lem names kwargs name h))
        | inr (a, found) ↦
            rw (found, build_from)
              (ground (
                arith,
                str_iff name n,
                str_iff n name,
                found,
                h,
                get-put kwargs n name a,
                build_from_lem names (put kwargs n a) name (kept n name kwargs a h found),
              ))
      ]

abbrev dependencies_of : Dict Value → Dict Argument
dependencies_of [] = []
dependencies_of ((name, v) ∷ d) = (name, dependency v) ∷ dependencies_of d

abbrev captures_of : Dict Text → Dict Argument
captures_of [] = []
captures_of ((name, t) ∷ d) = (name, path_param t) ∷ captures_of d

-- What a request has to offer a handler, by the name of a parameter, the first of a name counting:
-- its seven parts, then its dependencies, then the captures of the path.
unfoldable pub offered : Request → Dict Text → Option Value → Dict Argument
unfolding codes
offered req path_params ml_result =
    (codes "body", body req.body)
    ∷ (codes "query", query req.query)
    ∷ (codes "headers", headers req.headers)
    ∷ (codes "request", request req)
    ∷ (codes "auth", auth req.auth)
    ∷ (codes "ml", ml ml_result)
    ∷ (codes "state", state req.state)
    ∷ (dependencies_of req.dependencies ++ captures_of path_params)

get-captures_of :
    (d : Dict Text) (name : Text)
    → get (captures_of d) name ≡ elim (get d name) [ some t ↦ some (path_param t) | none ↦ none ]
unfolding get
get-captures_of [] name = refl
get-captures_of ((k, t) ∷ d) name = elim (Bool-cases (k == name)) [
  | inl same ↦ rw (same) refl
  | inr apart ↦ rw (apart) (get-captures_of d name)
]

get-dependencies_of :
    (deps : Dict Value) (d : Dict Text) (name : Text)
    → get (dependencies_of deps ++ captures_of d) name ≡ elim (get deps name) [
      | some v ↦ some (dependency v)
      | none ↦ elim (get d name) [ some t ↦ some (path_param t) | none ↦ none ]
    ]
unfolding get
get-dependencies_of [] d name = get-captures_of d name
get-dependencies_of ((k, v) ∷ deps) d name = elim (Bool-cases (k == name)) [
  | inl same ↦ rw (same) refl
  | inr apart ↦ rw (apart) (get-dependencies_of deps d name)
]

eq_comm : (s t : Text) → (s == t) ≡ (t == s)
eq_comm s t = ground (arith, str_iff s t, str_iff t s)

-- The chain of tests of the loop finds what the request offers first.
argument_for-offered :
    (req : Request) (path_params : Dict Text) (ml_result : Option Value) (name : Text)
    → argument_for req path_params ml_result name ≡ get (offered req path_params ml_result) name
unfolding argument_for offered get
argument_for-offered req path_params ml_result name =
    rw
      (
        eq_comm name (codes "body"),
        eq_comm name (codes "query"),
        eq_comm name (codes "headers"),
        eq_comm name (codes "request"),
        eq_comm name (codes "auth"),
        eq_comm name (codes "ml"),
        eq_comm name (codes "state"),
        get-dependencies_of req.dependencies path_params name,
      )
      refl

-- A handler receives, under the name of each of its parameters, what the request offers first under
-- that name: its body, query, headers, the request itself, its `auth`, the answer of the engine and
-- its state, then a dependency, then a capture of the path; under a name that nothing is offered
-- for, and under any other keyword, it receives nothing.
pub get-build_kwargs :
    (route : Route) (req : Request) (path_params : Dict Text) (ml_result : Option Value)
    (name : Text)
    → get (build_kwargs route req path_params ml_result) name ≡ (
        if mem name route.handler.parameters
        then get (offered req path_params ml_result) name
        else none)
unfolding build_kwargs get
get-build_kwargs route req path_params ml_result name =
    rw (sym (argument_for-offered req path_params ml_result name))
      (build_from_lem req path_params ml_result route.handler.parameters [] name (inl refl))
