-- ===== src/Ml/Verdicts.antt =====
-- The verdicts of `SynapticLayer` of quickapi/ml/synaptic.py, what a policy makes of them, and
-- `_route_sensitivity`.
use quick_api.Base.{
  ℕ, ◌+◌, codes, lower, upper, contains, Bool, true, false, Option, none, some, [], ◌∷◌,
  if◌then◌else◌, any, mem, ◌==◌, text_eq, str_beq,
}
use quick_api.Http.{Request}
use quick_api.Ml.Signals.{Verdict, let_pass, warn, refuse, Policy}
use quick_api.Ml.Risk.{lesser}

abbrev one_if : Bool → ℕ → ℕ
one_if true k = k
one_if false k = 0

-- `_route_sensitivity`
unfoldable pub layer_sensitivity : Request → ℕ
unfolding lower upper contains codes str_beq
layer_sensitivity req =
    let path = lower req.path in
    lesser 5 (
      one_if
        (mem (upper req.method) (codes "POST" ∷ codes "PUT" ∷ codes "PATCH" ∷ codes "DELETE" ∷ []))
        1
      + (one_if
            (any (λ t. contains t path)
              (codes "/admin"
                ∷ codes "/auth"
                ∷ codes "/login"
                ∷ codes "/token"
                ∷ codes "/users"
                ∷ codes "/orders"
                ∷ codes "/checkout"
                ∷ codes "/payment"
                ∷ []))
            2
          + (one_if
                (any (λ t. contains t path)
                  (codes "/quick/tools"
                    ∷ codes "/quick/plugins"
                    ∷ codes "/quick/agents"
                    ∷ codes "/quick/llm"
                    ∷ codes "/quick/webhooks"
                    ∷ []))
                2
              + one_if
                  (any (λ t. contains t path)
                    (codes "/internal"
                      ∷ codes "/system"
                      ∷ codes "/debug"
                      ∷ codes "/database"
                      ∷ codes "/db"
                      ∷ []))
                  2)))

abbrev pub is_cautious : Verdict → Bool
is_cautious warn = true
is_cautious refuse = true
is_cautious _ = false

abbrev pub is_refused : Verdict → Bool
is_refused refuse = true
is_refused _ = false

-- `challenge` raises only the lowest verdict.
abbrev pub raised_to_warn : Verdict → Verdict
raised_to_warn let_pass = warn
raised_to_warn v = v

-- What a policy makes of a verdict.
abbrev pub by_policy : Option Policy → Verdict → Verdict
by_policy none v = v
by_policy (some p) v =
    if p.action == codes "block"
    then refuse
    else if p.action == codes "challenge"
    then raised_to_warn v
    else v
