-- ===== src/Ml/Score.antt =====
-- The score, the policy, the action and the confidence of `MLGuard` in quickapi/ml/guard.py.
pub mod Action
use quick_api.Base.{
  ℕ, zero, suc, ◌+◌, ◌-◌, ◌*◌, Text, codes, Dict, get, Value, str, int, pos, null, obj_of, Bool,
  true, false, not, ◌&&◌, ◌||◌, Option, none, some, List, [], ◌∷◌, ◌++◌, map, if◌then◌else◌,
  or_else, any, keep, length, ltb, leb, ◌==◌, text_eq, str_beq, Raised, Result, ok, raise, is_some,
  is_none,
}
use quick_api.Http.{Request}
use quick_api.Routing.Route.{Route}
use quick_api.Ml.Floats.{Floats, min_of, max_of, sum_from}
use quick_api.Ml.Signals.{
  GuardSignal, GuardAction, allow, observe, challenge, block, action_name, is_critical, is_high,
  MlResult, SynapticDecision, watch, NativeScan, NativeValidation, Policy,
}
use quick_api.Ml.Profile.{Codecs, RequestProfile, profile_of}
use quick_api.Ml.Shapes.{GuardLimits, larger}
use quick_api.Ml.Finders.{
  validation_signals, profile_signals, payload_signals, header_signals, shape_signals,
}
use quick_api.Ml.Sources.{synaptic_signals, ml_signals, native_signals, native_validation_signals}

pub record GuardConfig (F : Type 0) : Type 0 where
  pub enabled : Bool
  pub block_enabled : Bool
  pub strict_validation : Bool
  pub limits : GuardLimits
  pub observe_threshold : F
  pub challenge_threshold : F
  pub block_threshold : F

abbrev pub filled {ℓ} : {A : Type ℓ} → List A → Bool
filled [] = false
filled (x ∷ xs) = true

-- `1 << n`
abbrev pub shifted : ℕ → ℕ
shifted zero = 1
shifted (suc n) = 2 * shifted n

abbrev pub smaller : ℕ → ℕ → ℕ
smaller a b = if ltb b a then b else a

-- `(1 << min(12, n)) - 1 if n else 0`
abbrev pub flags_of : ℕ → ℕ
flags_of zero = 0
flags_of (suc n) = shifted (smaller 12 (suc n)) - 1

abbrev pub or_count : ℕ → ℕ → ℕ
or_count zero m = m
or_count (suc n) m = suc n

abbrev native_policy : Result Policy → Policy
native_policy (ok p) = p
native_policy (raise e) = record {
  action = codes "observe";
  details =
      (codes "engine", str (codes "python-policy-after-native-error"))
      ∷ (codes "error", str e.message)
      ∷ [];
}

module _ {F : Type 0} ⦃n : Floats F⦄ where
  abbrev plus_if : Bool → F → F → F
  plus_if true x score = n.plus score x
  plus_if false x score = score

  abbrev at_least : Option F → F → F
  at_least none score = score
  at_least (some x) score = max_of score x

  abbrev risk_of : Option (SynapticDecision F) → Option F
  risk_of none = none
  risk_of (some d) = some d.risk_score

  abbrev ml_adds : Option (MlResult F) → F → F
  ml_adds none score = score
  ml_adds (some r) score =
      n.plus (max_of score r.risk_score) (min_of (n.lit 8 2) (n.times r.bot_score (n.lit 8 2)))

  abbrev scan_risk : Option (NativeScan F) → F
  scan_risk none = n.lit 0 1
  scan_risk (some s) = or_else s.risk_score (n.lit 0 1)

  abbrev native_adds : Option (NativeScan F) → Option NativeValidation → F → F
  native_adds none none score = score
  native_adds scan validation score = max_of score (scan_risk scan)

  -- The part of the score that the profile, the signals and the issues make.
  unfoldable pub base_score : RequestProfile → List (GuardSignal F) → List (Dict Value) → F
  unfolding sum_from
  base_score p signals issues =
      let start =
        n.plus (n.lit 3 2)
          (min_of (n.lit 14 2) (n.times (n.of_int p.route_sensitivity) (n.lit 25 3))) in
      let sized =
        plus_if (ltb 0 p.body_bytes)
          (min_of (n.lit 12 2) (n.over (n.log10 (n.of_int (larger 10 p.body_bytes))) (n.of_int 80)))
          start in
      let weighed = n.plus sized (
        min_of (n.lit 24 2)
          (sum_from (n.of_int 0) (map (λ s. max_of (n.lit 0 1) s.score) signals))) in
      n.plus weighed (min_of (n.lit 16 2) (n.times (n.of_int (length issues)) (n.lit 35 3)))

  -- `_score`
  unfoldable pub score_of :
      RequestProfile
      → List (GuardSignal F)
      → List (Dict Value)
      → Option (SynapticDecision F)
      → Option (MlResult F)
      → Option (NativeScan F)
      → Option NativeValidation
      → F
  unfolding base_score
  score_of p signals issues synaptic ml scan validation = min_of (n.lit 99 2) (
      plus_if (any (λ s. is_critical s.severity) signals) (n.lit 16 2) (
        native_adds scan validation
          (ml_adds ml (at_least (risk_of synaptic) (base_score p signals issues)))))

  abbrev scan_flags : Option (NativeScan F) → ℕ
  scan_flags none = 0
  scan_flags (some s) = s.fast_flags

  -- The flags that the policy is given.
  unfoldable pub security_flags : List (GuardSignal F) → Option (NativeScan F) → ℕ
  unfolding keep
  security_flags signals scan = or_count (scan_flags scan) (
      flags_of (
        length (keep (λ s. is_critical s.severity) signals)
        + length (keep (λ s. is_high s.severity) signals)))

  -- the action by the thresholds alone
  unfoldable pub threshold_action : GuardConfig F → F → GuardAction
  threshold_action g score =
      if n.le g.block_threshold score
      then block
      else if n.le g.challenge_threshold score
      then challenge
      else if n.le g.observe_threshold score
      then observe
      else allow

  -- `_policy`
  unfoldable pub policy_of :
      GuardConfig F
      → Option (F → ℕ → ℕ → Result Policy)
      → F
      → RequestProfile
      → List (GuardSignal F)
      → Option (NativeScan F)
      → Policy
  unfolding security_flags threshold_action action_name codes
  policy_of g decide score p signals scan = elim decide [
    | some f ↦ native_policy (f score (security_flags signals scan) p.route_sensitivity)
    | none ↦ record {
      action = action_name (threshold_action g score);
      details =
          (codes "risk_score", n.value (n.round4 score))
          ∷ (codes "security_flags", int (pos (security_flags signals scan)))
          ∷ (codes "route_sensitivity", int (pos p.route_sensitivity))
          ∷ (codes "engine", str (codes "python-guard-policy-v1"))
          ∷ [];
    }
  ]

  -- to block, where blocking is enabled
  abbrev pub block_or_challenge : GuardConfig F → GuardAction
  block_or_challenge g = if g.block_enabled then block else challenge

  -- `_action`
  unfoldable pub action_of :
      GuardConfig F → F → List (GuardSignal F) → Policy → List (Dict Value) → GuardAction
  unfolding codes str_beq
  action_of g score signals policy issues =
      if g.strict_validation && filled issues
      then block_or_challenge g
      else if policy.action == codes "block"
          || (n.le g.block_threshold score || any (λ s. is_critical s.severity) signals)
      then block_or_challenge g
      else if policy.action == codes "challenge" || n.le g.challenge_threshold score
      then challenge
      else if policy.action == codes "observe" || (n.le g.observe_threshold score || filled signals)
      then observe
      else allow

  -- `_confidence`
  unfoldable pub confidence_of :
      F
      → List (GuardSignal F)
      → Option (SynapticDecision F)
      → Option (MlResult F)
      → Option (NativeScan F)
      → Option NativeValidation
      → F
  confidence_of score signals synaptic ml scan validation =
      let start =
        n.plus
          (n.plus (n.lit 45 2)
            (min_of (n.lit 24 2) (n.times (n.of_int (length signals)) (n.lit 25 3))))
          (min_of (n.lit 18 2) (n.times score (n.lit 18 2))) in
      min_of (n.lit 99 2) (
        plus_if (sound scan validation) (n.lit 8 2)
          (plus_if (is_some ml) (n.lit 8 2) (plus_if (is_some synaptic) (n.lit 6 2) start)))
    where
      -- the native runtime answered, and its scan had no error
      sound : Option (NativeScan F) → Option NativeValidation → Bool
      sound none none = false
      sound none (some v) = true
      sound (some s) v = is_none s.error
