-- ===== src/Ml/Risk/Bounds.antt =====
-- The bounds of the scores of a request.
use quick_api.Base.{Text, false, ◌≡◌, arith}
use quick_api.Http.Header.{Headers}
use quick_api.Ml.Floats.{Floats, IsOrdered, min_of}
use quick_api.Ml.Risk.{RequestFeatures, score_risk, score_bot}

module _ {F : Type 0} ⦃n : Floats F⦄ where
  min_of-le : IsOrdered n → (bound score : F) → n.lt bound (min_of score bound) ≡ false
  min_of-le laws bound score = ground (arith, laws.lt_irrefl bound)

  -- The score of the risk is never above 0.99 and that of being a bot never above 0.95, whatever
  -- the request. The order of floats is irreflexive and transitive.
  score_risk-le :
      IsOrdered n
      → (f : RequestFeatures F) (intent : Text) (headers : Headers)
      → (n.lt (n.lit 99 2) (score_risk f intent).0 ≡ false)
        × (n.lt (n.lit 95 2) (score_bot f headers).0 ≡ false)
  unfolding score_risk score_bot
  score_risk-le laws f intent headers =
      (min_of-le laws (n.lit 99 2) _, min_of-le laws (n.lit 95 2) _)
