-- ===== src/Ml/Sources.antt =====
-- The signals that `MLGuard` of quickapi/ml/guard.py draws from the synaptic layer, the engine and the
-- native runtime.
use quick_api.Base.{
  Text, codes, Dict, Value, str, null, int, pos, bool, obj_of, arr_of, ℕ, zero, suc, Bool, true,
  false, Option, none, some, List, [], ◌∷◌, ◌++◌, map, if◌then◌else◌, or_else, mem, take,
}
use quick_api.Ml.Floats.{Floats}
use quick_api.Ml.Signals.{
  GuardSignal, GuardAction, challenge, block, policy, native, anomaly, system, low, medium, high,
  critical, MlResult, Verdict, refuse, SynapticDecision, NativeScan, NativeValidation, Policy,
  action_name, verdict_name,
}

abbrev pub is_refusal : Verdict → Bool
is_refusal refuse = true
is_refusal _ = false

abbrev pub is_block : GuardAction → Bool
is_block block = true
is_block _ = false

abbrev asks_more : GuardAction → Bool
asks_more challenge = true
asks_more block = true
asks_more _ = false

abbrev text_or_null : Option Text → Value
text_or_null none = null
text_or_null (some t) = str t

abbrev pub policy_dict : Policy → Dict Value
policy_dict p = (codes "action", str p.action) ∷ p.details

abbrev policy_entry : Option Policy → Dict Value
policy_entry none = []
policy_entry (some p) = (codes "policy", obj_of (policy_dict p)) ∷ []

abbrev count_entry : Text → ℕ → Dict Value
count_entry name zero = []
count_entry name (suc k) = (name, int (pos (suc k))) ∷ []

abbrev is_grave : Text → Bool
is_grave item =
    mem item (codes "binary_payload" ∷ codes "control_character" ∷ codes "unbalanced_json" ∷ [])

module _ {F : Type 0} ⦃n : Floats F⦄ where
  unfoldable pub ml_dict : MlResult F → Dict Value
  unfolding codes action_name
  ml_dict r =
      (codes "intent", str r.intent)
      ∷ (codes "risk_score", n.value r.risk_score)
      ∷ (codes "bot_score", n.value r.bot_score)
      ∷ (codes "action", str (action_name r.action))
      ∷ (codes "anomaly", bool r.anomaly)
      ∷ (codes "confidence", n.value r.confidence)
      ∷ (codes "reasons", arr_of (map str r.reasons))
      ∷ (codes "features", obj_of r.features)
      ∷ (codes "model_score", n.value r.model_score)
      ∷ (codes "model_name", text_or_null r.model_name)
      ∷ []

  abbrev ml_entry : Option (MlResult F) → Dict Value
  ml_entry none = []
  ml_entry (some r) = (codes "ml", obj_of (ml_dict r)) ∷ []

  -- `SynapticDecision.to_dict`
  unfoldable pub decision_dict : SynapticDecision F → Dict Value
  unfolding codes verdict_name ml_dict
  decision_dict d =
      (codes "risk_score", n.value d.risk_score)
      ∷ (codes "decision", str (verdict_name d.decision))
      ∷ (codes "signals", arr_of (map str d.signals))
      ∷ (codes "engine", str d.engine)
      ∷ (ml_entry d.ml
          ++ (policy_entry d.policy
              ++ (count_entry (codes "native_flags") d.native_flags
                  ++ count_entry (codes "route_sensitivity") d.route_sensitivity)))

  unfoldable pub synaptic_signal : SynapticDecision F → Text → GuardSignal F
  unfolding codes verdict_name
  synaptic_signal d item = record {
    code = codes "synaptic:" ++ item;
    message = codes "Synaptic layer reported " ++ (item ++ codes ".");
    kind = policy;
    severity = if is_refusal d.decision then high else medium;
    score = if is_refusal d.decision then n.lit 12 2 else n.lit 6 2;
    location = none;
    hint = none;
    evidence =
        (codes "engine", str d.engine) ∷ (codes "decision", str (verdict_name d.decision)) ∷ [];
  }

  -- `_signals_from_synaptic`
  unfoldable pub synaptic_signals : SynapticDecision F → List (GuardSignal F)
  unfolding synaptic_signal decision_dict codes
  synaptic_signals d =
      map (synaptic_signal d) (take 16 d.signals)
      ++ (if is_refusal d.decision
          then record {
            code = codes "synaptic:block";
            message = codes "Synaptic layer requested blocking the request.";
            kind = policy;
            severity = critical;
            score = n.lit 34 2;
            location = none;
            hint = some (codes "Inspect synaptic.signals for the exact reason.");
            evidence = decision_dict d;
          }
            ∷ []
          else [])

  unfoldable pub reason_signal : MlResult F → Text → GuardSignal F
  unfolding codes
  reason_signal r reason = record {
    code = codes "ml:reason:" ++ reason;
    message = codes "ML engine reason: " ++ (reason ++ codes ".");
    kind = anomaly;
    severity = medium;
    score = n.lit 5 2;
    location = none;
    hint = none;
    evidence = (codes "intent", str r.intent) ∷ [];
  }

  -- `_signals_from_ml`
  unfoldable pub ml_signals : MlResult F → List (GuardSignal F)
  unfolding action_name reason_signal codes
  ml_signals r =
      (if asks_more r.action
        then record {
          code = codes "ml:" ++ action_name r.action;
          message = codes "ML engine requested " ++ (action_name r.action ++ codes ".");
          kind = policy;
          severity = if is_block r.action then critical else high;
          score = if is_block r.action then n.lit 28 2 else n.lit 16 2;
          location = none;
          hint = none;
          evidence =
              (codes "risk_score", n.value r.risk_score)
              ∷ (codes "bot_score", n.value r.bot_score)
              ∷ (codes "intent", str r.intent)
              ∷ [];
        }
          ∷ []
        else [])
      ++ map (reason_signal r) (take 16 r.reasons)

  abbrev float_or_null : Option F → Value
  float_or_null none = null
  float_or_null (some x) = n.value x

  abbrev blocked_signal : NativeScan F → List (GuardSignal F)
  blocked_signal s =
      record {
        code = codes "native:blocked";
        message = codes "Native scanner marked the request as not allowed.";
        kind = native;
        severity = critical;
        score = n.lit 3 1;
        location = none;
        hint = none;
        evidence =
            (codes "risk_score", float_or_null s.risk_score)
            ∷ (codes "fast_flags", int (pos s.fast_flags))
            ∷ [];
      }
      ∷ []

  abbrev refused_signals : NativeScan F → Option Bool → List (GuardSignal F)
  refused_signals s (some false) = blocked_signal s
  refused_signals s _ = []

  unfoldable pub scan_signal : NativeScan F → Text → GuardSignal F
  unfolding codes
  scan_signal s item = record {
    code = codes "native:" ++ item;
    message = codes "Native scanner reported " ++ (item ++ codes ".");
    kind = native;
    severity = high;
    score = n.lit 8 2;
    location = none;
    hint = none;
    evidence = (codes "engine", str (or_else s.engine (codes "native-security"))) ∷ [];
  }

  -- `_signals_from_native`
  unfoldable pub native_signals : NativeScan F → List (GuardSignal F)
  unfolding scan_signal codes
  native_signals s = elim (s.error) [
    | some e ↦
        record {
          code = codes "native:error";
          message = codes "Native guard failed and Python fallback continued.";
          kind = system;
          severity = medium;
          score = n.lit 4 2;
          location = none;
          hint = some (codes "Rebuild the native runtime if this persists.");
          evidence = e;
        }
        ∷ []
    | none ↦ refused_signals s s.allowed ++ map (scan_signal s) (take 16 s.signals)
  ]

  unfoldable pub native_validation_signal : NativeValidation → Text → GuardSignal F
  unfolding codes
  native_validation_signal s item = record {
    code = codes "native_validation:" ++ item;
    message = codes "Native validation shield reported " ++ (item ++ codes ".");
    kind = native;
    severity = if is_grave item then critical else high;
    score = if is_grave item then n.lit 18 2 else n.lit 1 1;
    location = some (codes "body");
    hint = some (codes "Fix payload shape before it reaches Python validation and route code.");
    evidence = (codes "engine", s.engine) ∷ (codes "stats", s.stats) ∷ [];
  }

  -- `_signals_from_native_validation`
  unfoldable pub native_validation_signals : NativeValidation → List (GuardSignal F)
  unfolding native_validation_signal codes
  native_validation_signals s = elim (s.error) [
    | some e ↦
        record {
          code = codes "native_validation:error";
          message = codes "Native validation shield failed and Python validation continued.";
          kind = system;
          severity = low;
          score = n.lit 3 2;
          location = none;
          hint = none;
          evidence = e;
        }
        ∷ []
    | none ↦ if s.fine then [] else map (native_validation_signal s) (take 16 s.signals)
  ]
