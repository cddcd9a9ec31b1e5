-- ===== src/Ml/Synaptic.antt =====
-- `SynapticLayer` of quickapi/ml/synaptic.py. The native runtime is what its scan and its policy
-- return; a scan that raises returns none.
pub mod Refusals
use quick_api.Base.{
  ℕ, zero, suc, ◌+◌, Text, codes, lower, upper, contains, get, Dict, Value, str, Bool, true, false,
  not, ◌&&◌, ◌||◌, Option, none, some, or_else, List, [], ◌∷◌, ◌++◌, if◌then◌else◌, any, mem, take,
  length, ltb, ◌==◌, text_eq, str_beq, Raised, Result, ok, raise, ◌>>=◌,
}
use quick_api.Http.{Request}
use quick_api.Dependencies.{from_keys}
use quick_api.Ml.Floats.{Floats, min_of, max_of}
use quick_api.Ml.Signals.{
  GuardAction, block, is_blocked, MlResult, SynapticDecision, Verdict, let_pass, watch, warn,
  refuse, NativeScan, Policy,
}
use quick_api.Ml.Intent.{infer_intent}
use quick_api.Ml.Shapes.{larger}
use quick_api.Ml.Profile.{Codecs, raw_of}
use quick_api.Ml.Risk.{RequestFeatures, extract_features, score_risk, score_bot, has_any, lesser}
use quick_api.Ml.Score.{flags_of, or_count}
use quick_api.Ml.Engine.{MlEngine, analyze}
use quick_api.Ml.Verdicts.{layer_sensitivity, is_cautious, is_refused, by_policy}

pub record SynapticLayer (F : Type 0) : Type 0 where
  pub enabled : Bool
  pub ml_engine : MlEngine F
  pub security_scan : Request → Option (NativeScan F)
  pub policy_decision : Option (F → ℕ → ℕ → Result Policy)

abbrev text_of_value : Text → Option Value → Text
text_of_value default (some (str t)) = t
text_of_value default v = default

-- `policy.get("engine", default)`
abbrev engine_of : Option Policy → Text → Text → Text
engine_of none plain default = plain
engine_of (some p) plain default = text_of_value default (get p.details (codes "engine"))

abbrev settled : Result Policy → Option Policy
settled (ok p) = some p
settled (raise e) = none

-- A score, a verdict and signals, with the result of the engine that was asked.
pub record Opinion (F : Type 0) : Type 0 where
  pub score : F
  pub verdict : Verdict
  pub signals : List Text
  pub ml : Option (MlResult F)

module _ {F : Type 0} ⦃n : Floats F⦄ where
  unfoldable pub verdict_of : F → Verdict
  verdict_of score =
      if n.le (n.lit 90 2) score
      then refuse
      else if n.le (n.lit 72 2) score
      then warn
      else if n.le (n.lit 45 2) score
      then watch
      else let_pass

  unfoldable pub scan_verdict : Bool → F → List Text → Verdict
  scan_verdict allowed score signals =
      if not allowed && n.le (n.lit 80 2) score
      then refuse
      else if n.le (n.lit 72 2) score || has_any signals
      then warn
      else if n.le (n.lit 45 2) score
      then watch
      else let_pass

  -- `_native_scan`
  unfoldable pub native_decision : SynapticLayer F → Request → Option (SynapticDecision F)
  unfolding scan_verdict layer_sensitivity codes
  native_decision layer req = elim (layer.security_scan req) [
    | none ↦ none
    | some scan ↦
        let score = or_else scan.risk_score (n.lit 0 1) in
        some (record {
          risk_score = n.round4 score;
          decision = scan_verdict (or_else scan.allowed true) score scan.signals;
          signals = scan.signals;
          engine = or_else scan.engine (codes "native-security-v1");
          ml = none;
          policy = none;
          native_flags = scan.fast_flags;
          route_sensitivity = layer_sensitivity req;
        })
  ]

  -- `_native_policy`
  unfoldable pub native_policy : SynapticLayer F → F → ℕ → ℕ → ℕ → Option Policy
  native_policy layer score flags signal_count sensitivity = elim (layer.policy_decision) [
    | none ↦ none
    | some decide ↦ settled (decide score (or_count flags (flags_of signal_count)) sensitivity)
  ]

  -- what the rules say
  unfoldable pub rule_opinion : Codecs → Request → Opinion F
  unfolding raw_of infer_intent extract_features score_risk score_bot verdict_of from_keys
  rule_opinion c req =
      let intent = infer_intent req.path req.method (c.decode (take 2048 (raw_of c req))) in
      let f = extract_features c req in
      let risk = score_risk f intent in
      let bot = score_bot f req.headers in
      let score = min_of (n.lit 99 2) (n.plus risk.0 (n.times bot.0 (n.lit 18 2))) in
      record {
        score = score;
        verdict = verdict_of score;
        signals = from_keys (risk.1 ++ (bot.1 ++ f.suspicious_hits));
        ml = none;
      }

  -- what the engine adds
  unfoldable pub with_result : Opinion F → MlResult F → Opinion F
  unfolding from_keys
  with_result o r = record {
    score = if is_blocked r.action then max_of o.score r.risk_score else o.score;
    verdict = if is_blocked r.action then refuse else o.verdict;
    signals = from_keys (o.signals ++ r.reasons);
    ml = some r;
  }

  -- the opinion after the result, when the engine is asked
  abbrev pub joined : Bool → Opinion F → MlResult F → Opinion F
  joined asked o r = let changed = with_result o r in if asked then changed else o

  -- Whether the engine is asked about an opinion.
  abbrev pub is_asked : SynapticLayer F → Opinion F → Bool
  is_asked layer o = layer.ml_engine.enabled && is_cautious o.verdict

  -- the opinion after the answer of the engine, whose exception counts only when it was asked
  abbrev pub heard : Bool → Opinion F → Result (MlResult F) → Result (Opinion F)
  heard asked o (ok r) = ok (joined asked o r)
  heard asked o (raise e) = if asked then raise e else ok o

  unfoldable pub with_engine : Codecs → SynapticLayer F → Request → Opinion F → Result (Opinion F)
  unfolding with_result analyze
  with_engine c layer req o = heard (is_asked layer o) o (analyze c layer.ml_engine req)

  -- the decision of an opinion, without a scan of the native runtime and with one
  unfoldable pub decide :
      SynapticLayer F → Request → Option (SynapticDecision F) → Opinion F → SynapticDecision F
  unfolding native_policy layer_sensitivity get codes str_beq from_keys
  decide layer req none o =
      let policy = native_policy layer o.score 0 (length o.signals) (layer_sensitivity req) in
      record {
        risk_score = n.round4 o.score;
        decision = by_policy policy o.verdict;
        signals = o.signals;
        engine =
            engine_of policy (codes "synaptic-v0-rule-native") (codes "synaptic-v0-policy-python");
        ml = o.ml;
        policy = policy;
        native_flags = 0;
        route_sensitivity = layer_sensitivity req;
      }
  decide layer req (some native) o =
      let score = max_of o.score native.risk_score in
      let signals = from_keys (native.signals ++ o.signals) in
      let sensitivity = larger (layer_sensitivity req) native.route_sensitivity in
      let policy = native_policy layer score native.native_flags (length signals) sensitivity in
      record {
        risk_score = n.round4 score;
        decision = by_policy policy o.verdict;
        signals = signals;
        engine =
            engine_of policy (codes "synaptic-v0-native-python")
              (codes "synaptic-v0-native-python");
        ml = o.ml;
        policy = policy;
        native_flags = native.native_flags;
        route_sensitivity = sensitivity;
      }

  abbrev pub native_refuses : Option (SynapticDecision F) → Bool
  native_refuses none = false
  native_refuses (some d) = is_refused d.decision

  unfoldable pub disabled_decision : SynapticDecision F
  unfolding codes
  disabled_decision = record {
    risk_score = n.lit 0 1;
    decision = let_pass;
    signals = [];
    engine = codes "synaptic-disabled";
    ml = none;
    policy = none;
    native_flags = 0;
    route_sensitivity = 0;
  }

  -- The decision by the native scan, which may refuse alone.
  unfoldable pub decide_after :
      Codecs → SynapticLayer F → Request → Option (SynapticDecision F) → Result (SynapticDecision F)
  unfolding decide with_engine rule_opinion
  decide_after c layer req native =
      let own =
        with_engine c layer req (rule_opinion c req) >>= (λ o. ok (decide layer req native o)) in
      elim native [ none ↦ own | some d ↦ if is_refused d.decision then ok d else own ]

  -- `analyze`
  unfoldable pub analyze_request : Codecs → SynapticLayer F → Request → Result (SynapticDecision F)
  unfolding native_decision decide_after disabled_decision
  analyze_request c layer req =
      let decision = decide_after c layer req (native_decision layer req) in
      if layer.enabled then decision else ok disabled_decision
