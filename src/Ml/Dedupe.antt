-- ===== src/Ml/Dedupe.antt =====
-- The reported signals and the last error of `MLGuard` in quickapi/ml/guard.py.
pub mod Worst
use quick_api.Base.{
  ℕ, zero, suc, ◌+◌, ◌-◌, ◌*◌, Text, codes, Dict, get, Value, str, int, pos, null, obj_of, Bool,
  true, false, not, ◌&&◌, ◌||◌, Option, none, some, List, [], ◌∷◌, ◌++◌, map, if◌then◌else◌,
  or_else, any, keep, length, ltb, leb, ◌==◌, text_eq, str_beq, Raised, Result, ok, raise, is_some,
  is_none,
}
use quick_api.Http.{Request}
use quick_api.Routing.Route.{Route}
use quick_api.Ml.Floats.{Floats, min_of, max_of, sum_from}
use quick_api.Ml.Signals.{
  GuardSignal, GuardAction, allow, observe, challenge, block, action_name, is_critical, is_high,
  MlResult, SynapticDecision, watch, NativeScan, NativeValidation, Policy,
}
use quick_api.Ml.Profile.{Codecs, RequestProfile, profile_of}
use quick_api.Ml.Shapes.{GuardLimits, larger}
use quick_api.Ml.Finders.{
  validation_signals, profile_signals, payload_signals, header_signals, shape_signals,
}
use quick_api.Ml.Sources.{synaptic_signals, ml_signals, native_signals, native_validation_signals}

abbrev same_place : Option Text → Option Text → Bool
same_place none none = true
same_place (some a) (some b) = str_beq a b
same_place _ _ = false

abbrev text_or_null : Option Text → Value
text_or_null none = null
text_or_null (some t) = str t

abbrev hint_or : Option Text → Text → Text
hint_or none d = d
hint_or (some []) d = d
hint_or (some (c ∷ t)) d = c ∷ t

unfoldable pub issue_error : Dict Value → Dict Value
unfolding get codes
issue_error first =
    (codes "code", or_else (get first (codes "code")) (str (codes "VALIDATION_ERROR")))
    ∷ (codes "where", or_else (get first (codes "where")) null)
    ∷ (codes "message", or_else (get first (codes "message")) (str (codes "Validation failed")))
    ∷ (
      codes "hint",
      or_else (get first (codes "hint")) (str (codes "Fix the field reported in 'where'.")),
    )
    ∷ []

module _ {F : Type 0} ⦃n : Floats F⦄ where
  -- the stable sort by score, the highest first
  unfoldable pub insert_by_score : GuardSignal F → List (GuardSignal F) → List (GuardSignal F)
  insert_by_score s [] = s ∷ []
  insert_by_score s (t ∷ ts) =
      let later = t ∷ insert_by_score s ts in if n.lt s.score t.score then later else s ∷ t ∷ ts

  unfoldable pub sort_by_score : List (GuardSignal F) → List (GuardSignal F)
  unfolding insert_by_score
  sort_by_score [] = []
  sort_by_score (s ∷ ss) = insert_by_score s (sort_by_score ss)

  -- the same code and place
  unfoldable pub same_key : GuardSignal F → GuardSignal F → Bool
  unfolding str_beq
  same_key s t = str_beq s.code t.code && same_place s.location t.location

  -- one round of the loop of `_dedupe_signals`
  unfoldable pub merge_signal : List (GuardSignal F) → GuardSignal F → List (GuardSignal F)
  unfolding same_key
  merge_signal [] s = s ∷ []
  merge_signal (t ∷ ts) s =
      let later = t ∷ merge_signal ts s in
      if same_key t s then (if n.lt t.score s.score then s ∷ ts else t ∷ ts) else later

  unfoldable pub merge_all : List (GuardSignal F) → List (GuardSignal F) → List (GuardSignal F)
  unfolding merge_signal
  merge_all kept [] = kept
  merge_all kept (s ∷ ss) = merge_all (merge_signal kept s) ss

  -- `_dedupe_signals`
  unfoldable pub dedupe_signals : List (GuardSignal F) → List (GuardSignal F)
  unfolding merge_all sort_by_score
  dedupe_signals signals = sort_by_score (merge_all [] signals)

  unfoldable pub signal_error : GuardSignal F → Policy → Dict Value
  unfolding codes
  signal_error s policy =
      (codes "code", str s.code)
      ∷ (codes "where", text_or_null s.location)
      ∷ (codes "message", str s.message)
      ∷ (codes "hint", str (hint_or s.hint (codes "Inspect guard.signals for the reason.")))
      ∷ (codes "policy", str policy.action)
      ∷ []

  abbrev worst_error : List (GuardSignal F) → Policy → Option (Dict Value)
  worst_error [] policy = none
  worst_error (s ∷ ss) policy = some (signal_error s policy)

  -- `_last_error`
  unfoldable pub last_error_of :
      GuardAction → List (GuardSignal F) → List (Dict Value) → Policy → Option (Dict Value)
  unfolding issue_error signal_error sort_by_score
  last_error_of action signals (first ∷ issues) policy = some (issue_error first)
  last_error_of allow signals [] policy = none
  last_error_of observe signals [] policy = worst_error (sort_by_score signals) policy
  last_error_of challenge signals [] policy = worst_error (sort_by_score signals) policy
  last_error_of block signals [] policy = worst_error (sort_by_score signals) policy
