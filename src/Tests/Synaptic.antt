-- ===== src/Tests/Synaptic.antt =====
-- The engine and the synaptic layer at concrete inputs.
use quick_api.Base.{
  ℕ, codes, false, true, none, some, [], ◌∷◌, ◌≡◌, refl, ◌⊎◌, Bool, Raised, Result, ok, raise,
}
use quick_api.Ml.Signals.{NativeScan, SynapticDecision}
use quick_api.Ml.Risk.{hit_groups, suspicious_tokens}
use quick_api.Ml.Engine.{MlEngine, analyze}
use quick_api.Ml.Verdicts.{is_refused}
use quick_api.Ml.Synaptic.{SynapticLayer, native_decision, is_asked, rule_opinion, analyze_request}
use quick_api.Ml.Synaptic.Refusals.{reasons_to_refuse, analyze_request-refuses}
use quick_api.Tests.Ml.{scaled_floats, codecs, split_header}

abbrev engine : MlEngine ℕ
engine = record { enabled = true; predict = λ payload. ok 0; model_name = none }

-- A native scan that does not allow the request.
abbrev hostile_scan : NativeScan ℕ
hostile_scan = record {
  error = none;
  allowed = some false;
  risk_score = some 9_000;
  signals = codes "probe" ∷ [];
  fast_flags = 1;
  engine = none;
}

abbrev layer : SynapticLayer ℕ
layer = record {
  enabled = true;
  ml_engine = engine;
  security_scan = λ req. some hostile_scan;
  policy_decision = none;
}

analyze_request-refuses_example :
    ((d : SynapticDecision ℕ) × (analyze_request codecs layer split_header ≡ ok d)
      × (is_refused d.decision
          ≡ reasons_to_refuse codecs layer split_header (native_decision layer split_header) d))
    ⊎ ((e : Raised) × (analyze codecs layer.ml_engine split_header ≡ raise e)
        × (is_asked layer (rule_opinion codecs split_header) ≡ true)
        × (analyze_request codecs layer split_header ≡ raise e))
analyze_request-refuses_example = analyze_request-refuses codecs layer split_header refl

abbrev refuses : Result (SynapticDecision ℕ) → Bool
refuses (ok d) = is_refused d.decision
refuses (raise e) = false

-- The scan alone refuses the request.
refused : refuses (analyze_request codecs layer split_header) ≡ true
unfolding analyze_request scaled_floats
refused = refl

groups :
    hit_groups suspicious_tokens (codes "/a/../b <script>")
    ≡ codes "script_injection" ∷ codes "path_traversal" ∷ []
unfolding hit_groups codes
groups = refl
