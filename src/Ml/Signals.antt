-- ===== src/Ml/Signals.antt =====
-- The signals and the report parts of quickapi/ml/guard.py, and the decisions of quickapi/ml/engine.py
-- and quickapi/ml/synaptic.py that the guard reads.
use quick_api.Base.{
  ℕ, Text, codes, Dict, Value, str, Bool, true, false, Option, none, some, List, [], ◌∷◌, ◌++◌,
  obj_of,
}
use quick_api.Ml.Floats.{Floats}

pub data GuardAction : Type 0 where
  allow observe challenge block : GuardAction

-- `GuardReport.blocked`
abbrev pub is_blocked : GuardAction → Bool
is_blocked block = true
is_blocked _ = false

unfoldable pub action_name : GuardAction → Text
unfolding codes
action_name allow = codes "allow"
action_name observe = codes "observe"
action_name challenge = codes "challenge"
action_name block = codes "block"

pub data SignalKind : Type 0 where
  data_kind security bot anomaly native policy system : SignalKind

unfoldable pub kind_name : SignalKind → Text
unfolding codes
kind_name data_kind = codes "data"
kind_name security = codes "security"
kind_name bot = codes "bot"
kind_name anomaly = codes "anomaly"
kind_name native = codes "native"
kind_name policy = codes "policy"
kind_name system = codes "system"

pub data Severity : Type 0 where
  low medium high critical : Severity

unfoldable pub severity_name : Severity → Text
unfolding codes
severity_name low = codes "low"
severity_name medium = codes "medium"
severity_name high = codes "high"
severity_name critical = codes "critical"

abbrev pub is_critical : Severity → Bool
is_critical critical = true
is_critical _ = false

abbrev pub is_high : Severity → Bool
is_high high = true
is_high _ = false

-- `location` is the field `where`.
pub record GuardSignal (F : Type 0) : Type 0 where
  pub code : Text
  pub message : Text
  pub kind : SignalKind
  pub severity : Severity
  pub score : F
  pub location : Option Text
  pub hint : Option Text
  pub evidence : Dict Value

abbrev text_entry : Text → Option Text → Dict Value
text_entry name none = []
text_entry name (some []) = []
text_entry name (some (c ∷ t)) = (name, str (c ∷ t)) ∷ []

abbrev evidence_entry : Dict Value → Dict Value
evidence_entry [] = []
evidence_entry (e ∷ es) = (codes "evidence", obj_of (e ∷ es)) ∷ []

-- `GuardSignal.to_dict`
unfoldable pub signal_dict : {F : Type 0} ⦃n : Floats F⦄ → GuardSignal F → Dict Value
unfolding codes kind_name severity_name
signal_dict ⦃n⦄ s =
    (codes "code", str s.code)
    ∷ (codes "message", str s.message)
    ∷ (codes "kind", str (kind_name s.kind))
    ∷ (codes "severity", str (severity_name s.severity))
    ∷ (codes "score", n.value (n.round4 s.score))
    ∷ (text_entry (codes "where") s.location
        ++ (text_entry (codes "hint") s.hint ++ evidence_entry s.evidence))

-- What the machine-learning engine answers.
pub record MlResult (F : Type 0) : Type 0 where
  pub intent : Text
  pub risk_score : F
  pub bot_score : F
  pub action : GuardAction
  pub anomaly : Bool
  pub confidence : F
  pub reasons : List Text
  pub features : Dict Value
  pub model_score : F
  pub model_name : Option Text

-- What the synaptic layer decides.
pub data Verdict : Type 0 where
  let_pass watch warn refuse : Verdict

unfoldable pub verdict_name : Verdict → Text
unfolding codes
verdict_name let_pass = codes "allow"
verdict_name watch = codes "observe"
verdict_name warn = codes "allow_with_warning"
verdict_name refuse = codes "block"

-- The policy of the native runtime or of the guard: its action, and the entries beside it.
pub record Policy : Type 0 where
  pub action : Text
  pub details : Dict Value

pub record SynapticDecision (F : Type 0) : Type 0 where
  pub risk_score : F
  pub decision : Verdict
  pub signals : List Text
  pub engine : Text
  pub ml : Option (MlResult F)
  pub policy : Option Policy
  pub native_flags : ℕ
  pub route_sensitivity : ℕ

-- What a scan of the native runtime returns: an error, or its findings.
pub record NativeScan (F : Type 0) : Type 0 where
  pub error : Option (Dict Value)
  pub allowed : Option Bool
  pub risk_score : Option F
  pub signals : List Text
  pub fast_flags : ℕ
  pub engine : Option Text

-- What the native validation returns.
pub record NativeValidation : Type 0 where
  pub error : Option (Dict Value)
  pub fine : Bool
  pub signals : List Text
  pub engine : Value
  pub stats : Value
