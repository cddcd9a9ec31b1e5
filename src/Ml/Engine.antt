-- ===== src/Ml/Engine.antt =====
-- `MLEngine` of quickapi/ml/engine.py. The model is what it predicts for the features of a request,
-- where a custom one may raise.
use quick_api.Base.{
  Text, codes, Dict, Value, str, bool, Bool, true, false, ◌&&◌, ◌||◌, Option, none, List, [], ◌∷◌,
  ◌++◌, if◌then◌else◌, mem, take, Result, ok, ◌>>=◌,
}
use quick_api.Http.{Request}
use quick_api.Ml.Floats.{Floats, min_of, max_of}
use quick_api.Ml.Signals.{GuardAction, allow, observe, challenge, block, MlResult}
use quick_api.Ml.Intent.{infer_intent}
use quick_api.Ml.Profile.{Codecs, raw_of}
use quick_api.Ml.Risk.{
  RequestFeatures, extract_features, features_dict, score_risk, score_bot, detect_anomaly, has_any,
}

pub record MlEngine (F : Type 0) : Type 0 where
  pub enabled : Bool
  pub predict : Dict Value → Result F
  pub model_name : Option Text

module _ {F : Type 0} ⦃n : Floats F⦄ where
  -- `_policy`
  unfoldable pub engine_action : F → F → Bool → GuardAction
  engine_action risk bot anomaly =
      if n.le (n.lit 9 1) risk || (n.le (n.lit 82 2) risk && anomaly)
      then block
      else if n.le (n.lit 72 2) risk || (n.le (n.lit 65 2) bot || anomaly)
      then challenge
      else if n.le (n.lit 45 2) risk
      then observe
      else allow

  -- what a disabled engine answers
  unfoldable pub unknown_result : MlResult F
  unfolding codes
  unknown_result = record {
    intent = codes "unknown";
    risk_score = n.lit 0 1;
    bot_score = n.lit 0 1;
    action = allow;
    anomaly = false;
    confidence = n.lit 0 1;
    reasons = [];
    features = [];
    model_score = n.lit 0 1;
    model_name = none;
  }

  -- The features that the model is given.
  unfoldable pub feature_payload : RequestFeatures F → Text → List Text → Bool → Dict Value
  unfolding features_dict codes
  feature_payload f intent bot_reasons anomaly =
      features_dict f
      ++ (codes "intent", str intent)
        ∷ (codes "missing_user_agent", bool (mem (codes "missing_user_agent") bot_reasons))
        ∷ (codes "missing_accept", bool (mem (codes "missing_accept") bot_reasons))
        ∷ (codes "anomaly", bool anomaly)
        ∷ []

  abbrev surcharged : Bool → F → F
  surcharged true risk = min_of (n.lit 99 2) (n.plus risk (n.lit 12 2))
  surcharged false risk = risk

  abbrev anomaly_bonus : Bool → F
  anomaly_bonus true = n.lit 5 2
  anomaly_bonus false = n.lit 0 1

  unfoldable pub engine_confidence : F → F → F → Bool → F
  engine_confidence risk bot model_score anomaly = min_of (n.lit 99 2) (
      n.plus
        (n.plus
          (n.plus (n.plus (n.lit 55 2) (n.times risk (n.lit 25 2))) (n.times bot (n.lit 15 2)))
          (n.times model_score (n.lit 1 1)))
        (anomaly_bonus anomaly))

  -- `analyze` of an engine that is enabled, from the features on
  unfoldable pub analysis :
      MlEngine F → RequestFeatures F → Text → F × List Text → Result (MlResult F)
  unfolding score_risk detect_anomaly feature_payload engine_action engine_confidence
  analysis e f intent (bot, bot_reasons) =
      let (scored, risk_reasons) = score_risk f intent in
      let anomaly_reasons = detect_anomaly f in
      let anomaly = has_any anomaly_reasons in
      let payload = feature_payload f intent bot_reasons anomaly in
      e.predict payload >>= (λ model_score.
        let risk = max_of (surcharged anomaly scored) model_score in
        ok (record {
          intent = intent;
          risk_score = n.round4 risk;
          bot_score = n.round4 bot;
          action = engine_action risk bot anomaly;
          anomaly = anomaly;
          confidence = n.round4 (engine_confidence risk bot model_score anomaly);
          reasons = risk_reasons ++ (bot_reasons ++ anomaly_reasons);
          features = payload;
          model_score = n.round4 model_score;
          model_name = e.model_name;
        }))

  unfoldable pub analyze : Codecs → MlEngine F → Request → Result (MlResult F)
  unfolding raw_of infer_intent extract_features score_bot unknown_result analysis
  analyze c e req =
      let f = extract_features c req in
      let intent = infer_intent req.path req.method (c.decode (take 2048 (raw_of c req))) in
      let result = analysis e f intent (score_bot f req.headers) in
      if e.enabled then result else ok unknown_result
