-- ===== src/Plugins/Permissions.antt =====
-- No plugin runs without the permissions that its manifest asks for.
use quick_api.Base.{
  ℕ, ap, ◌∙◌, Text, get, put, get-own, Dict, Value, true, false, not, some, List, [], ◌∷◌, ◌≡◌,
  refl, ◌⊎◌, sym, ◌&&◌, text_eq, str_iff, or_else, keep, mem, sorted_set, Option-cases, arith, All,
  inl, inr, ok, Result-cases,
}
use quick_api.Base.Order.Laws.{mem-sorted_set}
use quick_api.Plugins.{
  PluginManager, PluginManifest, Handler, revoke, minus, register, call, call_granted,
  missing_permissions, denied, outcome, accepted_by, action_of, described, blank,
}

nil_of_mem : (ts : List Text) → ((x : Text) → mem x ts ≡ false) → ts ≡ []
nil_of_mem [] h = refl
nil_of_mem (t ∷ ts) h = absurd (ground (arith, h t, str_iff t t))

minus-nil : (a b : List Text) → minus a b ≡ [] → All (λ t. mem t b ≡ true) a
unfolding keep
minus-nil [] b e = tt
minus-nil (t ∷ a) b e = ground (arith, e, minus-nil a b)

nil-minus : (a b : List Text) → All (λ t. mem t b ≡ true) a → minus a b ≡ []
unfolding keep
nil-minus [] b h = refl
nil-minus (t ∷ a) b (h, k) = ground (arith, h, nil-minus a b k)

mem-minus : (x : Text) (a b : List Text) → mem x (minus a b) ≡ mem x a && not (mem x b)
unfolding keep
mem-minus x [] b = refl
mem-minus x (t ∷ a) b = ground (arith, mem-minus x a b, str_iff x t, str_iff t x)

missing_permissions-nil :
    (m : PluginManager) (manifest : PluginManifest)
    → missing_permissions m manifest ≡ []
    → All (λ t. mem t m.granted_permissions ≡ true) manifest.permissions
unfolding missing_permissions
missing_permissions-nil m manifest e =
    minus-nil manifest.permissions m.granted_permissions
      (nil_of_mem _ (λ x. sym (mem-sorted_set x _) ∙ ap (mem x) e))

list_cases {ℓ} : {A : Type ℓ} (xs : List A) → (xs ≡ []) ⊎ ((x : A) × (ys : List A) × (xs ≡ x ∷ ys))
list_cases [] = inl refl
list_cases (x ∷ xs) = inr (x, xs, refl)

missing-revoked :
    (m : PluginManager) (revoked : List Text) (manifest : PluginManifest) (p : Text)
    → mem p revoked ≡ true
    → mem p manifest.permissions ≡ true
    → mem p (missing_permissions (revoke m revoked) manifest) ≡ true
unfolding missing_permissions revoke
missing-revoked m revoked manifest p gone asked =
    rw (mem-sorted_set, mem-minus, mem-minus, gone, asked) (ground arith)

call_granted-accepted :
    (m : PluginManager) (name action : Text) (kwargs : Dict Value) (duration : ℕ)
    → (call_granted m name action kwargs duration).accepted ≡ true
    → (handler : Handler) × (action_of m name action ≡ some handler)
      × (handler.run (accepted_by handler kwargs)
          ≡ ok (call_granted m name action kwargs duration).output)
unfolding call_granted outcome
call_granted-accepted m name action kwargs duration e =
    elim (Option-cases (action_of m name action)) [
      | inl gone ↦ absurd (cc (rw (gone, call_granted) at e))
      | inr (handler, there) ↦ elim (Result-cases (handler.run (accepted_by handler kwargs))) [
        | inl (v, fine) ↦ (handler, there, rw (there, call_granted) (rw fine refl))
        | inr (x, bad) ↦ absurd (cc (rw bad at (rw (there, call_granted) at e)))
      ]
    ]

-- A call that succeeds is one of a registered plugin whose permissions were all granted, of an
-- action that is registered under its name, and its output is what the action's handler returned
-- on the keywords that it accepts.
pub call-accepted :
    (m : PluginManager) (name action : Text) (kwargs : Dict Value) (duration : ℕ)
    → (call m name action kwargs duration).accepted ≡ true
    → ((manifest : PluginManifest) × (get m.manifests name ≡ some manifest)
        × All (λ t. mem t m.granted_permissions ≡ true) manifest.permissions)
      × ((handler : Handler) × (action_of m name action ≡ some handler)
          × (handler.run (accepted_by handler kwargs)
              ≡ ok (call m name action kwargs duration).output))
unfolding call
call-accepted m name action kwargs duration e = elim (Option-cases (get m.manifests name)) [
  | inl gone ↦ absurd (cc (rw (gone, call) at e))
  | inr (manifest, there) ↦ elim (list_cases (missing_permissions m manifest)) [
    | inr (p, ps, lacking) ↦ absurd (cc (rw (lacking) at (rw (there, call) at e)))
    | inl full ↦
        let same : call m name action kwargs duration ≡ call_granted m name action kwargs duration =
          rw (there, call) (rw full refl) in
        (
          (manifest, there, missing_permissions-nil m manifest full),
          rw same (call_granted-accepted m name action kwargs duration (rw same at e)),
        )
  ]
]

-- Once a permission is revoked, every call of a plugin whose manifest asks for it is refused with
-- `PLUGIN_PERMISSION_DENIED`, and it is among the missing permissions that the refusal lists.
pub call-revoke :
    (m : PluginManager) (revoked : List Text) (name action : Text) (kwargs : Dict Value)
    (duration : ℕ) (manifest : PluginManifest) (p : Text)
    → mem p revoked ≡ true
    → get m.manifests name ≡ some manifest
    → mem p manifest.permissions ≡ true
    → (missing : List Text) × (call (revoke m revoked) name action kwargs duration
        ≡ denied name action missing)
      × (mem p missing ≡ true)
unfolding call revoke
call-revoke m revoked name action kwargs duration manifest p gone known asked =
    let found : mem p (missing_permissions (revoke m revoked) manifest) ≡ true =
      missing-revoked m revoked manifest p gone asked in
    elim (list_cases (missing_permissions (revoke m revoked) manifest)) [
      | inl full ↦ absurd (cc (rw full at found))
      | inr (q, qs, lacking) ↦ (q ∷ qs, rw (known, call) (rw lacking refl), rw lacking at found)
    ]

none_missing :
    (m : PluginManager) (manifest : PluginManifest)
    → All (λ t. mem t m.granted_permissions ≡ true) manifest.permissions
    → missing_permissions m manifest ≡ []
unfolding missing_permissions sorted_set
none_missing m manifest h = rw (nil-minus manifest.permissions m.granted_permissions h) refl

-- A plugin that is registered with an action and with permissions that were all granted runs the
-- action's handler, on the keywords that it accepts.
pub call-register :
    (m : PluginManager) (name action : Text) (handler : Handler) (permissions : List Text)
    (version description : Text) (tags : List Text) (kwargs : Dict Value) (duration : ℕ)
    → All (λ t. mem t m.granted_permissions ≡ true) permissions
    → call
        (register m name (some handler) action (some permissions) version description tags)
        name
        action
        kwargs
        duration
      ≡ outcome name action duration (handler.run (accepted_by handler kwargs))
unfolding call register
call-register m name action handler permissions version description tags kwargs duration h =
    let manifest =
      described (or_else (get m.manifests name) (blank name)) (some permissions) version description
        tags in
    rw (get-own m.manifests name manifest, call)
      (rw
        (none_missing
          (register m name (some handler) action (some permissions) version description tags)
          manifest h)
        (rw
          (
            get-own m.handlers name (put (or_else (get m.handlers name) []) action handler),
            call_granted,
          )
          (rw (get-own (or_else (get m.handlers name) []) action handler) refl)))
