-- ===== src/Ml/Synaptic/Refusals.antt =====
-- When the synaptic layer refuses a request.
use mathlib.Core.Path.{subst}
use quick_api.Base.{
  codes, Bool, true, false, ◌&&◌, ◌||◌, Option, none, some, ◌≡◌, inl, inr, refl, ap, ◌∙◌, sym, ◌⊎◌,
  Raised, Result, ok, raise, ok_eq, ◌>>=◌, if◌then◌else◌, ◌==◌, text_eq, arith, Bool-cases,
}
use quick_api.Http.{Request}
use quick_api.Ml.Floats.{Floats}
use quick_api.Ml.Signals.{
  SynapticDecision, Verdict, let_pass, watch, warn, refuse, Policy, is_blocked, MlResult,
}
use quick_api.Ml.Profile.{Codecs}
use quick_api.Ml.Engine.{analyze}
use quick_api.Ml.Verdicts.{is_cautious, is_refused, by_policy, raised_to_warn}
use quick_api.Ml.Synaptic.{
  SynapticLayer, Opinion, verdict_of, rule_opinion, with_result, with_engine, joined, is_asked,
  heard, decide, native_decision, native_refuses, decide_after, analyze_request,
}

-- A policy says to block.
abbrev pub policy_blocks : Option Policy → Bool
policy_blocks none = false
policy_blocks (some p) = p.action == codes "block"

is_refused-raised : (v : Verdict) → is_refused (raised_to_warn v) ≡ is_refused v
is_refused-raised let_pass = refl
is_refused-raised watch = refl
is_refused-raised warn = refl
is_refused-raised refuse = refl

is_refused-by_policy :
    (p : Option Policy) (v : Verdict) → is_refused (by_policy p v) ≡ is_refused v || policy_blocks p
is_refused-by_policy none v = ground (arith)
is_refused-by_policy (some p) v =
    by_tests (p.action == codes "block") (p.action == codes "challenge")
  where
    by_tests :
        (b ch : Bool)
        → is_refused (if b then refuse else if ch then raised_to_warn v else v) ≡ is_refused v || b
    by_tests b ch = ground (arith, is_refused-raised v)

module _ {F : Type 0} ⦃n : Floats F⦄ where
  is_refused-verdict_of : (score : F) → is_refused (verdict_of score) ≡ n.le (n.lit 90 2) score
  unfolding verdict_of
  is_refused-verdict_of score = ground (arith)

  is_refused-joined :
      (e k : Bool) (o : Opinion F) (r : MlResult F)
      → is_refused (joined (e && k) o r).verdict
        ≡ is_refused o.verdict || (e && (k && is_blocked r.action))
  unfolding with_result
  is_refused-joined e k o r = elim (Bool-cases (e && k)) [
    | inl asked ↦ rw (asked) (by_block asked (is_blocked r.action))
    | inr spared ↦ rw (spared) (ground (arith, spared))
  ]
    where
      by_block :
          e && k ≡ true
          → (b : Bool)
          → is_refused (if b then refuse else o.verdict) ≡ is_refused o.verdict || (e && (k && b))
      by_block asked b = ground (arith, asked)

  is_refused-decide :
      (layer : SynapticLayer F) (req : Request) (native : Option (SynapticDecision F))
      (o : Opinion F)
      → is_refused (decide layer req native o).decision
        ≡ is_refused o.verdict || policy_blocks (decide layer req native o).policy
  unfolding decide
  is_refused-decide layer req none o =
      is_refused-by_policy (decide layer req none o).policy o.verdict
  is_refused-decide layer req (some native) o =
      is_refused-by_policy (decide layer req (some native) o).policy o.verdict

  -- The engine answers the request so that it is blocked.
  abbrev pub engine_blocks : Result (MlResult F) → Bool
  engine_blocks (ok r) = is_blocked r.action
  engine_blocks (raise e) = false

  -- What makes the layer refuse, by the native decision and its own.
  abbrev pub reasons_to_refuse :
      Codecs → SynapticLayer F → Request → Option (SynapticDecision F) → SynapticDecision F → Bool
  reasons_to_refuse c layer req native decision =
      native_refuses native
      || (n.le (n.lit 90 2) (rule_opinion {F = F} c req).score
          || ((layer.ml_engine.enabled
                && (is_cautious (rule_opinion {F = F} c req).verdict
                    && engine_blocks (analyze c layer.ml_engine req)))
              || policy_blocks decision.policy))

  rule_opinion-refuses :
      (c : Codecs) (req : Request) (o : Opinion F)
      → o ≡ rule_opinion c req
      → is_refused o.verdict ≡ n.le (n.lit 90 2) o.score
  unfolding rule_opinion
  rule_opinion-refuses c req o same =
      rw same (is_refused-verdict_of (rule_opinion {F = F} c req).score)

  -- An opinion that the engine was heard on, or did not have to be.
  heard-refuses :
      (e k : Bool) (o o' : Opinion F) (r : Result (MlResult F))
      → heard (e && k) o r ≡ ok o'
      → is_refused o'.verdict ≡ is_refused o.verdict || (e && (k && engine_blocks r))
  heard-refuses e k o o' (ok r) h =
      ap (λ p. is_refused p.verdict) (sym (ok_eq _ _ h)) ∙ is_refused-joined e k o r
  heard-refuses e k o o' (raise x) h = elim (Bool-cases (e && k)) [
    | inl asked ↦ absurd (cc (rw (asked) at h))
    | inr spared ↦
        ap (λ p. is_refused p.verdict) (sym (ok_eq _ _ (rw (spared) at h))) ∙ ground (arith, spared)
  ]

  decide-refuses :
      (c : Codecs) (layer : SynapticLayer F) (req : Request) (native : Option (SynapticDecision F))
      (o : Opinion F)
      → native_refuses native ≡ false
      → with_engine c layer req (rule_opinion c req) ≡ ok o
      → is_refused (decide layer req native o).decision
        ≡ reasons_to_refuse c layer req native (decide layer req native o)
  unfolding with_engine
  decide-refuses c layer req native o free h = ground (
    arith,
    free,
    is_refused-decide layer req native o,
    rule_opinion-refuses c req (rule_opinion c req) refl,
    heard-refuses layer.ml_engine.enabled (is_cautious (rule_opinion {F = F} c req).verdict)
        (rule_opinion c req) o (analyze c layer.ml_engine req) h,
  )

  own-refuses :
      (c : Codecs) (layer : SynapticLayer F) (req : Request) (native : Option (SynapticDecision F))
      (d : SynapticDecision F) (r : Result (Opinion F))
      → native_refuses native ≡ false
      → with_engine c layer req (rule_opinion c req) ≡ r
      → (r >>= (λ o. ok (decide layer req native o))) ≡ ok d
      → is_refused d.decision ≡ reasons_to_refuse c layer req native d
  own-refuses c layer req native d (raise e) free h made = absurd (cc made)
  own-refuses c layer req native d (ok o) free h made =
      subst (λ t. is_refused t.decision ≡ reasons_to_refuse c layer req native t) (ok_eq _ _ made)
        (decide-refuses c layer req native o free h)

  decide_after-refuses :
      (c : Codecs) (layer : SynapticLayer F) (req : Request) (native : Option (SynapticDecision F))
      (d : SynapticDecision F)
      → decide_after c layer req native ≡ ok d
      → is_refused d.decision ≡ reasons_to_refuse c layer req native d
  unfolding decide_after
  decide_after-refuses c layer req none d made = own-refuses c layer req none d _ refl refl made
  decide_after-refuses c layer req (some native) d made =
      elim (Bool-cases (is_refused native.decision)) [
        | inl refused ↦
            let same = ok_eq _ _ (rw (refused, decide_after) at made) in
            ap (λ t. is_refused t.decision) (sym same) ∙ ground (arith, refused)
        | inr free ↦
            own-refuses c layer req (some native) d _ free refl (rw (free, decide_after) at made)
      ]

  heard-cases :
      (asked : Bool) (o : Opinion F) (r : Result (MlResult F))
      → ((o' : Opinion F) × (heard asked o r ≡ ok o'))
        ⊎ ((e : Raised) × (r ≡ raise e) × (asked ≡ true) × (heard asked o r ≡ raise e))
  heard-cases asked o (ok r) = inl (_, refl)
  heard-cases true o (raise e) = inr (e, refl, refl, refl)
  heard-cases false o (raise e) = inl (o, refl)

  decide_after-cases :
      (c : Codecs) (layer : SynapticLayer F) (req : Request) (native : Option (SynapticDecision F))
      → ((d : SynapticDecision F) × (decide_after c layer req native ≡ ok d))
        ⊎ ((e : Raised) × (analyze c layer.ml_engine req ≡ raise e)
            × (is_asked layer (rule_opinion c req) ≡ true)
            × (decide_after c layer req native ≡ raise e))
  unfolding decide_after with_engine
  decide_after-cases c layer req native =
      elim (heard-cases (is_asked layer (rule_opinion c req)) (rule_opinion c req)
        (analyze c layer.ml_engine req)) [
          | inl (o, made) ↦ decided native o made
          | inr (e, bad, asked, raised) ↦ ended native e bad asked raised
        ]
    where
      decided :
          (native : Option (SynapticDecision F)) (o : Opinion F)
          → with_engine c layer req (rule_opinion c req) ≡ ok o
          → ((d : SynapticDecision F) × (decide_after c layer req native ≡ ok d))
            ⊎ ((e : Raised) × (analyze c layer.ml_engine req ≡ raise e)
                × (is_asked layer (rule_opinion c req) ≡ true)
                × (decide_after c layer req native ≡ raise e))
      decided none o made = inl (decide layer req none o, rw made refl)
      decided (some d) o made = elim (Bool-cases (is_refused d.decision)) [
        | inl refused ↦ inl (d, rw (refused) refl)
        | inr free ↦ inl (decide layer req (some d) o, rw (free, made) refl)
      ]

      ended :
          (native : Option (SynapticDecision F)) (e : Raised)
          → analyze c layer.ml_engine req ≡ raise e
          → is_asked layer (rule_opinion c req) ≡ true
          → with_engine c layer req (rule_opinion c req) ≡ raise e
          → ((d : SynapticDecision F) × (decide_after c layer req native ≡ ok d))
            ⊎ ((x : Raised) × (analyze c layer.ml_engine req ≡ raise x)
                × (is_asked layer (rule_opinion c req) ≡ true)
                × (decide_after c layer req native ≡ raise x))
      ended none e bad asked raised = inr (e, bad, asked, rw raised refl)
      ended (some d) e bad asked raised = elim (Bool-cases (is_refused d.decision)) [
        | inl refused ↦ inl (d, rw (refused) refl)
        | inr free ↦ inr (e, bad, asked, rw (free, raised) refl)
      ]

  -- What an enabled layer decides about a request is a refusal exactly when the native scan refuses
  -- it, or the rules score it at 0.90 or more, or the engine is enabled, is asked about it and
  -- blocks it, or the native policy says to block it. It decides unless the engine is asked and
  -- raises.
  pub analyze_request-refuses :
      (c : Codecs) (layer : SynapticLayer F) (req : Request)
      → layer.enabled ≡ true
      → ((d : SynapticDecision F) × (analyze_request c layer req ≡ ok d)
          × (is_refused d.decision ≡ reasons_to_refuse c layer req (native_decision layer req) d))
        ⊎ ((e : Raised) × (analyze c layer.ml_engine req ≡ raise e)
            × (is_asked layer (rule_opinion c req) ≡ true)
            × (analyze_request c layer req ≡ raise e))
  unfolding analyze_request
  analyze_request-refuses c layer req on =
      elim (decide_after-cases c layer req (native_decision layer req)) [
        | inl (d, made) ↦
            inl
              (d, rw (on) made, decide_after-refuses c layer req (native_decision layer req) d made)
        | inr (e, bad, asked, raised) ↦ inr (e, bad, asked, rw (on) raised)
      ]
