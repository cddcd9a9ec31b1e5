-- ===== src/Ml/Guard/Blocks.antt =====
-- What the guard blocks in a request, from its bytes to its report.
use quick_api.Base.{
  length, lower, take, codes, ◌++◌, ℕ, Text, Dict, Value, true, Option, List, ◌≡◌, ◌⊎◌, inl, inr,
  refl, ◌∙◌, any, ltb, Raised, Result-cases, ok, raise,
}
use quick_api.Http.{Request}
use quick_api.Routing.Route.{Route}
use quick_api.Ml.Tokens.{token_groups}
use quick_api.Ml.Floats.{Floats}
use quick_api.Ml.Signals.{GuardSignal, block, MlResult}
use quick_api.Ml.Shapes.{GuardLimits}
use quick_api.Ml.Profile.{Codecs, RequestProfile, raw_of, profile_of}
use quick_api.Ml.Finders.Critical.{
  has_control, has_token, payload_text, grave, in_left, in_right, header_signals-critical,
  profile_signals-critical, payload_signals-critical,
}
use quick_api.Ml.Finders.{profile_signals, header_signals, payload_signals, validation_signals}
use quick_api.Ml.Score.{GuardConfig, score_of, policy_of, action_of}
use quick_api.Ml.Score.Action.{action_of-block_iff}
use quick_api.Ml.Guard.{
  GuardParts, GuardReport, run_synaptic, run_engine, collect_signals, report_of, inspect_with,
  inspect,
}

-- What makes a request hostile: a control character in a header, a body over the limit, or a token
-- of a critical group in the path or the start of the body.
abbrev pub IsHostile : Codecs → GuardLimits → Request → Type 0
IsHostile c lim req =
    (has_control req.headers ≡ true)
    ⊎ (ltb lim.max_body_size (length (raw_of c req)) ≡ true)
    ⊎ (has_token token_groups
          (lower req.path ++ (codes " " ++ lower (c.decode (take 16_384 (raw_of c req)))))
        ≡ true)

-- The same of a request with its profile.
abbrev IsHostileProfile : Codecs → GuardLimits → Request → RequestProfile → Type 0
IsHostileProfile c lim req p =
    (has_control req.headers ≡ true)
    ⊎ (ltb lim.max_body_size p.body_bytes ≡ true)
    ⊎ (has_token token_groups (payload_text c req p) ≡ true)

module _ {F : Type 0} ⦃n : Floats F⦄ where
  collect_signals-critical :
      (g : GuardConfig F) (c : Codecs) (parts : GuardParts F) (p : RequestProfile)
      (issues : List (Dict Value)) (req : Request) (ml : Option (MlResult F))
      → IsHostileProfile c g.limits req p
      → any grave (collect_signals c g.limits parts p issues req ml) ≡ true
  unfolding collect_signals
  collect_signals-critical g c parts p issues req ml hostile =
      in_right grave (validation_signals issues) _ (elim hostile [
        | inl control ↦ in_right grave (profile_signals g.limits p) _ (
            in_right grave (payload_signals c req p) _
              (in_left grave (header_signals req p) _ (header_signals-critical g req p control)))
        | inr (inl large) ↦
            in_left grave (profile_signals g.limits p) _
              (profile_signals-critical g g.limits p large)
        | inr (inr token) ↦
            in_right grave (profile_signals g.limits p) _
              (in_left grave (payload_signals c req p) _ (payload_signals-critical g c req p token))
      ])

  -- The action of a report, as `_action` gives it.
  report_of-action :
      (g : GuardConfig F) (parts : GuardParts F) (p : RequestProfile) (issues : List (Dict Value))
      (req : Request) (duration : ℕ) (ml : Option (MlResult F)) (signals : List (GuardSignal F))
      → (report_of g parts p issues req duration ml signals).action
        ≡ action_of g
            (score_of p signals issues
              (run_synaptic parts.synaptic req)
              ml
              (parts.scan req)
              (parts.validation req))
            signals
            (policy_of g parts.decide
              (score_of p signals issues
                (run_synaptic parts.synaptic req)
                ml
                (parts.scan req)
                (parts.validation req))
              p
              signals
              (parts.scan req))
            issues
  unfolding report_of
  report_of-action g parts p issues req duration ml signals = refl

  report_of-blocks :
      (g : GuardConfig F) (parts : GuardParts F) (p : RequestProfile) (issues : List (Dict Value))
      (req : Request) (duration : ℕ) (ml : Option (MlResult F)) (signals : List (GuardSignal F))
      → g.block_enabled ≡ true
      → any grave signals ≡ true
      → (report_of g parts p issues req duration ml signals).action ≡ block
  report_of-blocks g parts p issues req duration ml signals may critical =
      report_of-action g parts p issues req duration ml signals
      ∙ (action_of-block_iff g _ signals _ issues).1 (may, inr (inr (inr critical)))

  -- An enabled guard that may block answers `block` to every hostile request, whatever its thresholds,
  -- the engine, the synaptic layer, the native runtime and the issues of the validation say. Only an
  -- exception of the engine comes in between, and then there is no report.
  pub inspect-blocks :
      (c : Codecs) (fingerprint : Request → List ℕ → Text) (g : GuardConfig F)
      (parts : GuardParts F) (req : Request) (route : Option Route) (path_params : Dict Text)
      (issues : List (Dict Value)) (duration : ℕ)
      → g.enabled ≡ true
      → g.block_enabled ≡ true
      → IsHostile c g.limits req
      → ((report : GuardReport F) × (inspect c fingerprint g parts req route path_params issues
              duration
            ≡ ok report)
          × (report.action ≡ block))
        ⊎ ((e : Raised) × (run_engine parts.engine req ≡ raise e)
            × (inspect c fingerprint g parts req route path_params issues duration ≡ raise e))
  unfolding inspect profile_of inspect_with
  inspect-blocks c fingerprint g parts req route path_params issues duration on may hostile =
      let p = profile_of c fingerprint g.limits req route path_params in
      elim (Result-cases (run_engine parts.engine req)) [
        | inr (e, bad) ↦ inr (e, bad, rw (on, bad) refl)
        | inl (ml, fine) ↦ inl (
          report_of g parts p issues req duration ml
              (collect_signals c g.limits parts p issues req ml),
          rw (on, fine) refl,
          report_of-blocks g parts p issues req duration ml
              (collect_signals c g.limits parts p issues req ml) may
              (collect_signals-critical g c parts p issues req ml hostile),
        )
      ]
