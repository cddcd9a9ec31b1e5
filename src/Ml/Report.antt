-- ===== src/Ml/Report.antt =====
-- `GuardReport.to_dict` and `RequestProfile.to_dict` of quickapi/ml/guard.py. `native_dict` makes the
-- dict of what the native runtime answered, as it came, or none when it did not answer.
use quick_api.Base.{
  ℕ, Text, codes, Dict, Value, null, str, bool, int, dec, pos, obj_of, arr_of, Option, none, some,
  [], ◌∷◌, ◌++◌, map, take,
}
use quick_api.Ml.Floats.{Floats}
use quick_api.Ml.Signals.{action_name, signal_dict, NativeScan, NativeValidation}
use quick_api.Ml.Profile.{RequestProfile}
use quick_api.Ml.Sources.{ml_dict, decision_dict, policy_dict}
use quick_api.Ml.Guard.{GuardReport}

abbrev number : ℕ → Value
number n = int (pos n)

abbrev name_or_null : Option Text → Value
name_or_null none = null
name_or_null (some t) = str t

-- the dict `shape` of a profile
unfoldable pub shape_dict : RequestProfile → Dict Value
unfolding codes
shape_dict p =
    (codes "body_type", str p.body_type)
    ∷ (codes "path_params", arr_of (map str p.path_params))
    ∷ (codes "max_depth", number p.stats.max_depth)
    ∷ (codes "object_count", number p.stats.object_count)
    ∷ (codes "array_count", number p.stats.array_count)
    ∷ (codes "string_count", number p.stats.string_count)
    ∷ (codes "number_count", number p.stats.number_count)
    ∷ (codes "boolean_count", number p.stats.boolean_count)
    ∷ (codes "null_count", number p.stats.null_count)
    ∷ (codes "max_string_length", number p.stats.max_string_length)
    ∷ (codes "total_keys", number p.stats.total_keys)
    ∷ []

-- `RequestProfile.to_dict`
unfoldable pub profile_dict : RequestProfile → Dict Value
unfolding shape_dict codes
profile_dict p =
    (codes "method", str p.method)
    ∷ (codes "path", str p.path)
    ∷ (codes "intent", str p.intent)
    ∷ (codes "route_name", name_or_null p.route_name)
    ∷ (codes "route_sensitivity", number p.route_sensitivity)
    ∷ (codes "body_bytes", number p.body_bytes)
    ∷ (codes "query_count", number p.query_count)
    ∷ (codes "header_count", number p.header_count)
    ∷ (codes "content_type", str p.content_type)
    ∷ (codes "user_agent", str (take 160 p.user_agent))
    ∷ (codes "fingerprint", str p.fingerprint)
    ∷ (codes "shape", obj_of (shape_dict p))
    ∷ []

-- An entry that is there only when its value is.
abbrev entry_of {ℓ} : {A : Type ℓ} → Text → (A → Dict Value) → Option A → Dict Value
entry_of name f none = []
entry_of name f (some a) = (name, obj_of (f a)) ∷ []

abbrev same_dict : Dict Value → Dict Value
same_dict d = d

module _ {F : Type 0} ⦃n : Floats F⦄ where
  -- `GuardReport.to_dict`
  unfoldable pub report_dict :
      (Option (NativeScan F) → Option NativeValidation → Option (Dict Value))
      → GuardReport F
      → Dict Value
  unfolding codes action_name signal_dict profile_dict decision_dict ml_dict
  report_dict native_dict r =
      (codes "enabled", bool r.enabled)
      ∷ (codes "action", str (action_name r.action))
      ∷ (codes "risk_score", n.value (n.round4 r.risk_score))
      ∷ (codes "confidence", n.value (n.round4 r.confidence))
      ∷ (codes "duration_ms", dec (pos r.duration_ms) 3)
      ∷ (codes "signals", arr_of (map (λ s. obj_of (signal_dict s)) r.signals))
      ∷ (codes "validation_issues", arr_of (map obj_of r.validation_issues))
      ∷ (entry_of (codes "profile") profile_dict r.profile
          ++ (entry_of (codes "synaptic") decision_dict r.synaptic
              ++ (entry_of (codes "ml") ml_dict r.ml
                  ++ (entry_of (codes "native") same_dict (native_dict r.native r.native_validation)
                      ++ (entry_of (codes "policy") policy_dict r.policy
                          ++ entry_of (codes "last_error") same_dict r.last_error)))))
