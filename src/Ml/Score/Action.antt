-- ===== src/Ml/Score/Action.antt =====
-- When the guard blocks a request.
use quick_api.Base.{
  codes, Dict, Value, Bool, true, ◌&&◌, ◌||◌, List, [], ◌∷◌, ◌≡◌, ◌≢◌, ◌↔◌, ◌⊎◌, inl, inr, refl,
  if◌then◌else◌, any, arith, ◌==◌, text_eq, str_iff,
}
use quick_api.Ml.Floats.{Floats}
use quick_api.Ml.Signals.{
  GuardSignal, GuardAction, allow, observe, challenge, block, is_critical, Policy,
}
use quick_api.Ml.Score.{GuardConfig, filled, action_of}

filled_iff {ℓ} : {A : Type ℓ} (xs : List A) → (filled xs ≡ true) ↔ (xs ≢ [])
filled_iff [] = (λ e. absurd (cc e), λ h. absurd (h refl))
filled_iff (x ∷ xs) = (λ e d. cc d, λ h. refl)

-- The rungs of `_action`, by their tests.
abbrev rungs : (b s v p t c x y : Bool) → GuardAction
rungs b s v p t c x y =
    if s && v
    then (if b then block else challenge)
    else if p || (t || c)
    then (if b then block else challenge)
    else if x
    then challenge
    else if y
    then observe
    else allow

abbrev Rung : (s v p t c : Bool) → Type 0
Rung s v p t c = ((s ≡ true) × (v ≡ true)) ⊎ (p ≡ true) ⊎ (t ≡ true) ⊎ (c ≡ true)

rungs-block : (b s v p t c x y : Bool) → rungs b s v p t c x y ≡ block → (b ≡ true) × Rung s v p t c
rungs-block b s v p t c x y e = ground (arith, e)

module _ {F : Type 0} ⦃n : Floats F⦄ where
  -- What the guard blocks for.
  abbrev pub IsRefused :
      GuardConfig F → F → List (GuardSignal F) → Policy → List (Dict Value) → Type 0
  IsRefused g score signals policy issues =
      ((g.strict_validation ≡ true) × (issues ≢ []))
      ⊎ (policy.action ≡ codes "block")
      ⊎ (n.le g.block_threshold score ≡ true)
      ⊎ (any (λ s. is_critical s.severity) signals ≡ true)

  -- The guard blocks a request exactly when blocking is enabled and the validation is strict and
  -- found an issue, or the policy says `block`, or the score reaches the threshold of blocking, or a
  -- signal is critical.
  pub action_of-block_iff :
      (g : GuardConfig F) (score : F) (signals : List (GuardSignal F)) (policy : Policy)
      (issues : List (Dict Value))
      → (action_of g score signals policy issues ≡ block)
        ↔ ((g.block_enabled ≡ true) × IsRefused g score signals policy issues)
  unfolding action_of
  action_of-block_iff g score signals policy issues = (
    λ e.
        let (enabled, rung) =
          rungs-block g.block_enabled g.strict_validation (filled issues)
            (policy.action == codes "block") (n.le g.block_threshold score)
            (any (λ s. is_critical s.severity) signals)
            (policy.action == codes "challenge" || n.le g.challenge_threshold score)
            (policy.action == codes "observe" || (n.le g.observe_threshold score || filled signals))
            e in
        (
          enabled,
          elim rung [
            | inl (strict, some_issue) ↦ inl (strict, (filled_iff issues).0 some_issue)
            | inr (inl said) ↦ inr (inl ((str_iff policy.action (codes "block")).0 said))
            | inr (inr others) ↦ inr (inr others)
          ],
        ),
    λ h. ground (arith, h, filled_iff issues, str_iff policy.action (codes "block")),
  )
