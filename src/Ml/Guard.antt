-- ===== src/Ml/Guard.antt =====
-- `MLGuard.inspect` of quickapi/ml/guard.py: the score, the policy, the action and the report. The
-- engine, the synaptic layer and the native runtime are passed as what they answer to a request;
-- `duration` is what the clock gives, in microseconds.
pub mod Blocks
use quick_api.Base.{
  ℕ, zero, suc, ◌+◌, ◌-◌, ◌*◌, Text, codes, Dict, get, Value, str, int, pos, null, obj_of, Bool,
  true, false, not, ◌&&◌, ◌||◌, Option, none, some, List, [], ◌∷◌, ◌++◌, map, if◌then◌else◌,
  or_else, any, keep, length, ltb, leb, ◌==◌, text_eq, str_beq, Raised, Result, ok, raise, is_some,
  is_none,
}
use quick_api.Http.{Request}
use quick_api.Routing.Route.{Route}
use quick_api.Ml.Score.{GuardConfig, score_of, policy_of, action_of, confidence_of}
use quick_api.Ml.Dedupe.{dedupe_signals, last_error_of}
use quick_api.Ml.Floats.{Floats, min_of, max_of, sum_from}
use quick_api.Ml.Signals.{
  GuardSignal, GuardAction, allow, observe, challenge, block, action_name, is_critical, is_high,
  MlResult, SynapticDecision, watch, NativeScan, NativeValidation, Policy,
}
use quick_api.Ml.Profile.{Codecs, RequestProfile, profile_of}
use quick_api.Ml.Shapes.{GuardLimits, larger}
use quick_api.Ml.Finders.{
  validation_signals, profile_signals, payload_signals, header_signals, shape_signals,
}
use quick_api.Ml.Sources.{synaptic_signals, ml_signals, native_signals, native_validation_signals}

-- What the parts beside the guard answer. A part that is switched off is none; `scan` and
-- `validation` are none when the native runtime is missing, and `decide` is its policy.
pub record GuardParts (F : Type 0) : Type 0 where
  pub synaptic : Option (Request → Result (SynapticDecision F))
  pub engine : Option (Request → Result (MlResult F))
  pub scan : Request → Option (NativeScan F)
  pub validation : Request → Option NativeValidation
  pub decide : Option (F → ℕ → ℕ → Result Policy)

pub record GuardReport (F : Type 0) : Type 0 where
  pub enabled : Bool
  pub action : GuardAction
  pub risk_score : F
  pub confidence : F
  pub duration_ms : ℕ
  pub profile : Option RequestProfile
  pub signals : List (GuardSignal F)
  pub validation_issues : List (Dict Value)
  pub synaptic : Option (SynapticDecision F)
  pub ml : Option (MlResult F)
  pub native : Option (NativeScan F)
  pub native_validation : Option NativeValidation
  pub policy : Option Policy
  pub last_error : Option (Dict Value)

module _ {F : Type 0} ⦃n : Floats F⦄ where
  -- `_run_synaptic`, which turns an exception into a decision
  unfoldable pub run_synaptic :
      Option (Request → Result (SynapticDecision F)) → Request → Option (SynapticDecision F)
  unfolding codes
  run_synaptic none req = none
  run_synaptic (some analyze) req = some (settled (analyze req))
    where
      settled : Result (SynapticDecision F) → SynapticDecision F
      settled (ok d) = d
      settled (raise e) = record {
        risk_score = n.lit 2 1;
        decision = watch;
        signals = (codes "synaptic_error:" ++ e.kind) ∷ [];
        engine = codes "synaptic-error";
        ml = none;
        policy = none;
        native_flags = 0;
        route_sensitivity = 0;
      }

  -- `self.ml_engine.analyze(request)` of an engine that is on, whose exception leaves `inspect`
  unfoldable pub run_engine :
      Option (Request → Result (MlResult F)) → Request → Result (Option (MlResult F))
  run_engine none req = ok none
  run_engine (some analyze) req = elim (analyze req) [ ok r ↦ ok (some r) | raise e ↦ raise e ]

  abbrev signals_of : {A : Type 0} → (A → List (GuardSignal F)) → Option A → List (GuardSignal F)
  signals_of f none = []
  signals_of f (some a) = f a

  -- All the signals of a request, in the order in which `inspect` collects them.
  unfoldable pub collect_signals :
      Codecs
      → GuardLimits
      → GuardParts F
      → RequestProfile
      → List (Dict Value)
      → Request
      → Option (MlResult F)
      → List (GuardSignal F)
  unfolding validation_signals profile_signals payload_signals header_signals shape_signals
      run_synaptic synaptic_signals ml_signals native_signals native_validation_signals
  collect_signals c lim parts p issues req ml =
      validation_signals issues
      ++ (profile_signals lim p
          ++ (payload_signals c req p
              ++ (header_signals req p
                  ++ (shape_signals lim p
                      ++ (signals_of synaptic_signals (run_synaptic parts.synaptic req)
                          ++ (signals_of ml_signals ml
                              ++ (signals_of native_signals (parts.scan req)
                                  ++ signals_of native_validation_signals
                                      (parts.validation req))))))))

  abbrev pub disabled_report : GuardReport F
  disabled_report = record {
    enabled = false;
    action = allow;
    risk_score = n.lit 0 1;
    confidence = n.lit 0 1;
    duration_ms = 0;
    profile = none;
    signals = [];
    validation_issues = [];
    synaptic = none;
    ml = none;
    native = none;
    native_validation = none;
    policy = none;
    last_error = none;
  }

  -- `inspect` of an enabled guard, from the signals on
  unfoldable pub report_of :
      GuardConfig F
      → GuardParts F
      → RequestProfile
      → List (Dict Value)
      → Request
      → ℕ
      → Option (MlResult F)
      → List (GuardSignal F)
      → GuardReport F
  unfolding score_of policy_of action_of confidence_of dedupe_signals last_error_of run_synaptic
  report_of g parts p issues req duration ml signals =
      let synaptic = run_synaptic parts.synaptic req in
      let scan = parts.scan req in
      let validation = parts.validation req in
      let score = score_of p signals issues synaptic ml scan validation in
      let policy = policy_of g parts.decide score p signals scan in
      let action = action_of g score signals policy issues in
      record {
        enabled = true;
        action = action;
        risk_score = n.round4 score;
        confidence = n.round4 (confidence_of score signals synaptic ml scan validation);
        duration_ms = duration;
        profile = some p;
        signals = dedupe_signals signals;
        validation_issues = issues;
        synaptic = synaptic;
        ml = ml;
        native = scan;
        native_validation = validation;
        policy = some policy;
        last_error = last_error_of action signals issues policy;
      }

  -- `inspect` of an enabled guard, with the answer of the engine
  unfoldable pub inspect_with :
      Codecs
      → GuardConfig F
      → GuardParts F
      → RequestProfile
      → List (Dict Value)
      → Request
      → ℕ
      → Result (Option (MlResult F))
      → Result (GuardReport F)
  unfolding collect_signals report_of
  inspect_with c g parts p issues req duration (raise e) = raise e
  inspect_with c g parts p issues req duration (ok ml) = ok (
      report_of g parts p issues req duration ml (collect_signals c g.limits parts p issues req ml))

  -- `inspect`
  unfoldable pub inspect :
      Codecs
      → (Request → List ℕ → Text)
      → GuardConfig F
      → GuardParts F
      → Request
      → Option Route
      → Dict Text
      → List (Dict Value)
      → ℕ
      → Result (GuardReport F)
  unfolding profile_of run_engine inspect_with
  inspect c fingerprint g parts req route path_params issues duration =
      let p = profile_of c fingerprint g.limits req route path_params in
      let report = inspect_with c g parts p issues req duration (run_engine parts.engine req) in
      if g.enabled then report else ok disabled_report
