-- ===== src/Dependencies/Resolve.antt =====
-- What resolving the dependencies of a request does: the cache that it keeps changes nothing.
use mathlib.Core.Path.{subst}
use quick_api.Base.{
  ap, ◌∙◌, Text, get, put, get-put, Dict, Value, Bool, true, false, not, Option, none, some, List,
  [], ◌∷◌, ◌++◌, ◌≡◌, refl, ◌==◌, text_eq, str_iff, keep, Bool-cases, Option-cases, arith, inl, inr,
  ok, raise, Result, Result-cases, mem,
}
use quick_api.Dependencies.{
  DependencyContext, DependencyProvider, Settle, produce, resolve_with, many_from, resolve_many,
  resolve_many_async, from_keys, remember, remembered, unknown, settle_now, settle_later,
}

-- No name of the list is in the cache, and none stands twice.
abbrev IsFresh : Dict Value → List Text → Type 0
IsFresh cache [] = Unit
IsFresh cache (n ∷ ns) = (get cache n ≡ none) × (mem n ns ≡ false) × IsFresh cache ns

put-IsFresh :
    (cache : Dict Value) (name : Text) (v : Value) (ns : List Text)
    → mem name ns ≡ false
    → IsFresh cache ns
    → IsFresh (put cache name v) ns
unfolding put get
put-IsFresh cache name v [] out h = tt
put-IsFresh cache name v (n ∷ ns) out (h, k, l) = (
  ground (arith, get-put cache name n v, str_iff name n, out, h),
  k,
  put-IsFresh cache name v ns (ground (arith, out)) l,
)

remember-IsFresh :
    (cached : Bool) (cache : Dict Value) (name : Text) (r : Result Value) (ns : List Text)
    → mem name ns ≡ false
    → IsFresh cache ns
    → IsFresh (remember cached cache name r) ns
remember-IsFresh cached cache name (raise e) ns out h = h
remember-IsFresh false cache name (ok v) ns out h = h
remember-IsFresh true cache name (ok v) ns out h = put-IsFresh cache name v ns out h

mem-keep :
    (t : Text) (p : Text → Bool) (ns : List Text) → mem t ns ≡ false → mem t (keep p ns) ≡ false
unfolding keep
mem-keep t p [] h = refl
mem-keep t p (n ∷ ns) h = ground (arith, h, mem-keep t p ns)

mem-keep-own : (n : Text) (ns : List Text) → mem n (keep (λ t. not (n == t)) ns) ≡ false
unfolding keep
mem-keep-own n [] = refl
mem-keep-own n (m ∷ ns) = ground (arith, mem-keep-own n ns)

keep-IsFresh :
    (cache : Dict Value) (p : Text → Bool) (ns : List Text)
    → IsFresh cache ns
    → IsFresh cache (keep p ns)
unfolding keep
keep-IsFresh cache p [] h = tt
keep-IsFresh cache p (n ∷ ns) (h, k, l) = elim (Bool-cases (p n)) [
  | inl held ↦ rw (held, keep) (h, mem-keep n p ns k, keep-IsFresh cache p ns l)
  | inr out ↦ rw (out, keep) (keep-IsFresh cache p ns l)
]

from_keys-IsFresh : (ns : List Text) → IsFresh [] (from_keys ns)
unfolding from_keys get
from_keys-IsFresh [] = tt
from_keys-IsFresh (n ∷ ns) = (
  refl,
  mem-keep-own n (from_keys ns),
  keep-IsFresh [] (λ t. not (n == t)) (from_keys ns) (from_keys-IsFresh ns),
)

remembered-fresh :
    (cached : Bool) (cache : Dict Value) (name : Text)
    → get cache name ≡ none
    → remembered cached cache name ≡ none
remembered-fresh true cache name h = h
remembered-fresh false cache name h = refl

keep_comm : (p q : Text → Bool) (ns : List Text) → keep p (keep q ns) ≡ keep q (keep p ns)
unfolding keep
keep_comm p q [] = refl
keep_comm p q (n ∷ ns) = ground (arith, keep_comm p q ns)

-- Without a name, it does not matter whether the name stood at the end.
from_keys-without :
    (n : Text) (ns : List Text)
    → keep (λ t. not (n == t)) (from_keys (ns ++ n ∷ [])) ≡ keep (λ t. not (n == t)) (from_keys ns)
unfolding from_keys keep
from_keys-without n [] = ground (arith, str_iff n n)
from_keys-without n (m ∷ ns) =
    let same =
      keep_comm (λ t. not (n == t)) (λ t. not (m == t)) (from_keys (ns ++ n ∷ []))
      ∙ ap (keep (λ t. not (m == t))) (from_keys-without n ns)
      ∙ keep_comm (λ t. not (m == t)) (λ t. not (n == t)) (from_keys ns) in
    elim (Bool-cases (n == m)) [
      | inl equal ↦ rw (equal) same
      | inr apart ↦ rw (apart) (ap (λ l. m ∷ l) same)
    ]

-- `dict.fromkeys` drops a name that stood before.
from_keys-repeated :
    (n : Text) (ns : List Text) → mem n ns ≡ true → from_keys (ns ++ n ∷ []) ≡ from_keys ns
unfolding from_keys
from_keys-repeated n [] h = cc
from_keys-repeated n (m ∷ ns) h = elim (Bool-cases (n == m)) [
  | inl equal ↦
      let key : n ≡ m = (str_iff n m).0 equal in
      ap (λ l. m ∷ l)
        (subst
          (λ (t : Text).
            keep (λ u. not (t == u)) (from_keys (ns ++ n ∷ []))
            ≡ keep (λ u. not (t == u)) (from_keys ns))
          key (from_keys-without n ns))
  | inr apart ↦ ap (λ l. m ∷ keep (λ t. not (m == t)) l) (from_keys-repeated n ns (rw (apart) at h))
]

module _ {W : Type 0} where
  -- The same providers, each of which asks for no cache.
  abbrev pub uncached : Dict (DependencyProvider W) → Dict (DependencyProvider W)
  uncached [] = []
  uncached ((name, p) ∷ ps) = (name, record p { cached = false }) ∷ uncached ps

  abbrev without : Option (DependencyProvider W) → Option (DependencyProvider W)
  without none = none
  without (some p) = some (record p { cached = false })

  get-uncached :
      (ps : Dict (DependencyProvider W)) (name : Text)
      → get (uncached ps) name ≡ without (get ps name)
  unfolding get
  get-uncached [] name = refl
  get-uncached ((n, p) ∷ ps) name = ground (arith, get-uncached ps name)

  resolve_with-gone :
      (settle : Settle W) (ps : Dict (DependencyProvider W)) (c : DependencyContext) (n : Text)
      (cache : Dict Value) (w : W)
      → get ps n ≡ none
      → resolve_with settle ps n c cache w ≡ (raise (unknown n), (cache, w))
  unfolding resolve_with
  resolve_with-gone settle ps c n cache w gone = rw (gone, resolve_with) refl

  resolve_with-fresh :
      (settle : Settle W) (ps : Dict (DependencyProvider W)) (p : DependencyProvider W)
      (c : DependencyContext) (n : Text) (cache : Dict Value) (w : W)
      → get ps n ≡ some p
      → get cache n ≡ none
      → resolve_with settle ps n c cache w ≡ (
        (produce settle p c n w).0,
        (remember p.cached cache n (produce settle p c n w).0, (produce settle p c n w).1),
      )
  unfolding resolve_with
  resolve_with-fresh settle ps p c n cache w known h =
      rw (known, resolve_with) (rw (remembered-fresh p.cached cache n h) refl)

  resolve_with-uncached :
      (settle : Settle W) (ps : Dict (DependencyProvider W)) (p : DependencyProvider W)
      (c : DependencyContext) (n : Text) (cache : Dict Value) (w : W)
      → get ps n ≡ some p
      → resolve_with settle (uncached ps) n c cache w ≡ (
        (produce settle p c n w).0,
        (remember false cache n (produce settle p c n w).0, (produce settle p c n w).1),
      )
  unfolding resolve_with produce
  resolve_with-uncached settle ps p c n cache w known =
      rw (get-uncached ps n, resolve_with) (rw known refl)

  -- What `many_from` does with the answer for its first name.
  abbrev continue :
      Settle W
      → Dict (DependencyProvider W)
      → DependencyContext
      → Text
      → List Text
      → Dict Value
      → Result Value × (Dict Value × W)
      → Result (Dict Value) × W
  continue settle ps c n ns resolved (raise e, (cache, w)) = (raise e, w)
  continue settle ps c n ns resolved (ok v, (cache, w)) =
      many_from settle ps c ns cache w (put resolved n v)

  many_from-step :
      (settle : Settle W) (ps : Dict (DependencyProvider W)) (c : DependencyContext) (n : Text)
      (ns : List Text) (cache : Dict Value) (w : W) (resolved : Dict Value)
      (answer : Result Value × (Dict Value × W))
      → resolve_with settle ps n c cache w ≡ answer
      → many_from settle ps c (n ∷ ns) cache w resolved ≡ continue settle ps c n ns resolved answer
  unfolding many_from
  many_from-step settle ps c n ns cache w resolved (raise x, (k, v)) e = ground (arith, e)
  many_from-step settle ps c n ns cache w resolved (ok x, (k, v)) e = ground (arith, e)

  many_from-uncached :
      (settle : Settle W) (ps : Dict (DependencyProvider W)) (c : DependencyContext)
      (ns : List Text) (cache cache' : Dict Value) (w : W) (resolved : Dict Value)
      → IsFresh cache ns
      → many_from settle ps c ns cache w resolved
        ≡ many_from settle (uncached ps) c ns cache' w resolved
  unfolding many_from
  many_from-uncached settle ps c [] cache cache' w resolved h = refl
  many_from-uncached settle ps c (n ∷ ns) cache cache' w resolved (h, k, l) =
      elim (Option-cases (get ps n)) [
        | inl gone ↦
            let other : get (uncached ps) n ≡ none = get-uncached ps n ∙ ap without gone in
            rw
              (
                many_from-step settle ps c n ns cache w resolved _
                    (resolve_with-gone settle ps c n cache w gone),
                many_from-step settle (uncached ps) c n ns cache' w resolved _
                    (resolve_with-gone settle (uncached ps) c n cache' w other),
              )
              refl
        | inr (p, known) ↦
            rw
              (
                many_from-step settle ps c n ns cache w resolved _
                    (resolve_with-fresh settle ps p c n cache w known h),
                many_from-step settle (uncached ps) c n ns cache' w resolved _
                    (resolve_with-uncached settle ps p c n cache' w known),
              )
              (elim (Result-cases (produce settle p c n w).0) [
                | inr (e, bad) ↦ rw bad refl
                | inl (v, fine) ↦ rw fine (
                    many_from-uncached settle ps c ns (remember p.cached cache n (ok v)) _ _ _
                      (remember-IsFresh p.cached cache n (ok v) ns k l))
              ])
      ]

  -- Resolving the dependencies of a request, synchronously or not, gives the same result and leaves
  -- the same world as when no provider is cached: each name is resolved once, so the cache of a
  -- request, and with it the flag `cache`, is never seen.
  pub resolve_many-uncached :
      (ps : Dict (DependencyProvider W)) (names : List Text) (c : DependencyContext) (w : W)
      → (resolve_many ps names c w ≡ resolve_many (uncached ps) names c w)
        × (resolve_many_async ps names c w ≡ resolve_many_async (uncached ps) names c w)
  unfolding resolve_many resolve_many_async
  resolve_many-uncached ps names c w =
      let fresh = from_keys-IsFresh names in
      (
        many_from-uncached settle_now ps c (from_keys names) [] [] w [] fresh,
        many_from-uncached settle_later ps c (from_keys names) [] [] w [] fresh,
      )

  -- A name that is requested again, synchronously or not, runs no provider again and changes neither
  -- the result nor its order.
  pub resolve_many-repeated :
      (ps : Dict (DependencyProvider W)) (names : List Text) (n : Text) (c : DependencyContext)
      (w : W)
      → mem n names ≡ true
      → (resolve_many ps (names ++ n ∷ []) c w ≡ resolve_many ps names c w)
        × (resolve_many_async ps (names ++ n ∷ []) c w ≡ resolve_many_async ps names c w)
  unfolding resolve_many resolve_many_async
  resolve_many-repeated ps names n c w again =
      let same = from_keys-repeated n names again in
      (
        ap (λ ns. many_from settle_now ps c ns [] w []) same,
        ap (λ ns. many_from settle_later ps c ns [] w []) same,
      )
