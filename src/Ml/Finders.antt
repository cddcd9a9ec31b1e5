-- ===== src/Ml/Finders.antt =====
-- The rules of `MLGuard` in quickapi/ml/guard.py that find signals in the issues of the validation
-- and in the profile, the body, the headers and the shape of a request.
pub mod Critical
use quick_api.Base.{
  ℕ, zero, suc, ◌+◌, ◌*◌, ◌/◌, Text, codes, lower, contains, Dict, get, Value, int, pos, str, null,
  arr_of, Bool, true, false, not, ◌&&◌, ◌||◌, Option, none, some, List, [], ◌∷◌, ◌++◌, map,
  if◌then◌else◌, or_else, any, keep, mem, take, ltb, leb, nat_beq, ◌==◌, text_eq, str_beq,
}
use quick_api.Http.{Request}
use quick_api.Http.Header.{Headers}
use quick_api.Ml.Floats.{Floats}
use quick_api.Ml.Tokens.{TokenGroup, token_groups}
use quick_api.Ml.Signals
use quick_api.Ml.Signals.{
  GuardSignal, SignalKind, Severity, data_kind, security, bot, anomaly, low, medium, high, critical,
}
use quick_api.Ml.Profile.{Codecs, RequestProfile, raw_of}
use quick_api.Ml.Shapes.{GuardLimits, larger}

-- A signal, or none, by a test.
abbrev pub found_if {ℓ} : {A : Type ℓ} → Bool → A → List A
found_if true s = s ∷ []
found_if false s = []

abbrev number : ℕ → Value
number n = int (pos n)

-- A text of an issue, when it is there and not empty.
abbrev text_of : Option Value → Option Text
text_of (some (str (c ∷ t))) = some (c ∷ t)
text_of v = none

abbrev is_wide : Text → Bool
is_wide code = mem code (codes "OBJECT_TOO_WIDE" ∷ codes "ARRAY_TOO_LONG" ∷ codes "MAX_DEPTH" ∷ [])

-- `text.count(c)` of one character
unfoldable pub count_char : ℕ → Text → ℕ
count_char c [] = 0
count_char c (d ∷ t) = (if nat_beq d c then 1 else 0) + count_char c t

abbrev is_empty : Text → Bool
is_empty [] = true
is_empty (c ∷ t) = false

abbrev none_if_empty : Text → Value
none_if_empty [] = null
none_if_empty (c ∷ t) = str (c ∷ t)

abbrev nonzero : ℕ → Bool
nonzero zero = false
nonzero (suc k) = true

module _ {F : Type 0} ⦃n : Floats F⦄ where
  -- `_signals_from_validation`, for one issue: the entries of its dict
  unfoldable pub issue_signal : Dict Value → GuardSignal F
  unfolding get codes lower keep str_beq
  issue_signal issue =
      let code = or_else (text_of (get issue (codes "code"))) (codes "VALIDATION_ERROR") in
      record {
        code = codes "validation:" ++ lower code;
        message = or_else (text_of (get issue (codes "message"))) (codes "Validation issue");
        kind = data_kind;
        severity = if is_wide code then high else medium;
        score = if is_wide code then n.lit 16 2 else n.lit 8 2;
        location = text_of (get issue (codes "where"));
        hint = text_of (get issue (codes "hint"));
        evidence = keep (λ e. not (e.0 == codes "message" || e.0 == codes "hint")) issue;
      }

  unfoldable pub validation_signals : List (Dict Value) → List (GuardSignal F)
  unfolding issue_signal
  validation_signals issues = map issue_signal issues

  -- `_profile_signals`, about the size of the body
  unfoldable pub size_signals : GuardLimits → RequestProfile → List (GuardSignal F)
  unfolding codes
  size_signals lim p =
      if ltb lim.max_body_size p.body_bytes
      then record {
        code = codes "body:too_large";
        message = codes "Request body is larger than the configured guard limit.";
        kind = data_kind;
        severity = critical;
        score = n.lit 34 2;
        location = some (codes "body");
        hint = some (codes "Reduce payload size or raise max_body_size intentionally.");
        evidence =
            (codes "body_bytes", number p.body_bytes)
            ∷ (codes "max_body_size", number lim.max_body_size)
            ∷ [];
      }
        ∷ []
      else found_if (ltb (larger 1 (lim.max_body_size / 2)) p.body_bytes) (record {
        code = codes "body:large";
        message = codes "Request body is approaching the configured guard limit.";
        kind = data_kind;
        severity = low;
        score = n.lit 5 2;
        location = some (codes "body");
        hint = none;
        evidence =
            (codes "body_bytes", number p.body_bytes)
            ∷ (codes "max_body_size", number lim.max_body_size)
            ∷ [];
      })

  unfoldable pub route_signals : RequestProfile → List (GuardSignal F)
  unfolding codes
  route_signals p = found_if (leb 5 p.route_sensitivity) (record {
    code = codes "route:sensitive";
    message = codes "Request targets a sensitive route family.";
    kind = security;
    severity = medium;
    score = n.lit 9 2;
    location = some (codes "path");
    hint = some (codes "Use auth, validation and rate limits on this route.");
    evidence =
        (codes "route_sensitivity", number p.route_sensitivity)
        ∷ (codes "intent", str p.intent)
        ∷ [];
  })

  unfoldable pub query_signals : RequestProfile → List (GuardSignal F)
  unfolding codes
  query_signals p = found_if (leb 12 p.query_count) (record {
    code = codes "query:many_params";
    message = codes "Request has unusually many query parameters.";
    kind = anomaly;
    severity = medium;
    score = n.lit 8 2;
    location = some (codes "query");
    hint = some (codes "Collapse filters into a JSON body or reduce query fanout.");
    evidence = (codes "query_count", number p.query_count) ∷ [];
  })

  -- `_profile_signals`
  unfoldable pub profile_signals : GuardLimits → RequestProfile → List (GuardSignal F)
  unfolding route_signals size_signals query_signals
  profile_signals lim p = route_signals p ++ (size_signals lim p ++ query_signals p)

  -- the signal of a group of tokens, by those of its tokens that the text contains
  abbrev pub group_signal : TokenGroup → List Text → List (GuardSignal F)
  group_signal g [] = []
  group_signal g (t ∷ ts) =
      record {
        code = g.code;
        message = codes "Payload contains " ++ (g.words ++ codes " signal.");
        kind = security;
        severity = g.severity;
        score = if Signals.is_critical g.severity then n.lit 22 2 else n.lit 16 2;
        location = some (codes "body");
        hint = some g.hint;
        evidence = (codes "matched", arr_of (map str (take 8 (t ∷ ts)))) ∷ [];
      }
      ∷ []

  unfoldable pub group_signals : List TokenGroup → Text → List (GuardSignal F)
  unfolding keep contains codes
  group_signals [] text = []
  group_signals (g ∷ gs) text =
      group_signal g (keep (λ t. contains t text) g.tokens) ++ group_signals gs text

  -- `_payload_signals`
  unfoldable pub payload_signals : Codecs → Request → RequestProfile → List (GuardSignal F)
  unfolding raw_of lower group_signals count_char codes
  payload_signals c req p =
      let text = lower (c.decode (take 16_384 (raw_of c req))) in
      let brackets = count_char b'{' text + count_char b'[' text in
      group_signals token_groups (lower p.path ++ (codes " " ++ text))
      ++ found_if (ltb 500 brackets) (record {
        code = codes "json:structure_heavy";
        message = codes "Payload has an unusually dense JSON structure.";
        kind = anomaly;
        severity = medium;
        score = n.lit 8 2;
        location = some (codes "body");
        hint = some (codes "Check for generated or abusive JSON before accepting it.");
        evidence = (codes "brackets", number brackets) ∷ [];
      })

  -- the signal of a header whose line has a control character: 13, 10 or 0
  unfoldable pub control_signals : Headers → List (GuardSignal F)
  unfolding contains codes
  control_signals [] = []
  control_signals ((key, content) ∷ h) =
      found_if
        (any (λ t. contains t (key ++ (codes ": " ++ content)))
          ((13 ∷ []) ∷ (10 ∷ []) ∷ (0 ∷ []) ∷ []))
        (record {
          code = codes "headers:control_character";
          message = codes "Header contains a control character.";
          kind = security;
          severity = critical;
          score = n.lit 32 2;
          location = some (codes "headers." ++ key);
          hint = some (codes "Reject or normalize the caller before it reaches business code.");
          evidence = [];
        })
      ++ control_signals h

  unfoldable pub agent_signals : RequestProfile → List (GuardSignal F)
  unfolding codes
  agent_signals p = found_if (is_empty p.user_agent) (record {
    code = codes "headers:missing_user_agent";
    message = codes "Request is missing User-Agent.";
    kind = bot;
    severity = low;
    score = n.lit 5 2;
    location = some (codes "headers.User-Agent");
    hint = none;
    evidence = [];
  })

  unfoldable pub type_signals : RequestProfile → List (GuardSignal F)
  unfolding contains lower codes
  type_signals p =
      found_if
        (mem p.method (codes "POST" ∷ codes "PUT" ∷ codes "PATCH" ∷ [])
          && (nonzero p.body_bytes
              && not (contains (codes "application/json") (lower p.content_type))))
        (record {
          code = codes "headers:invalid_content_type";
          message = codes "JSON body was sent without application/json content type.";
          kind = data_kind;
          severity = high;
          score = n.lit 18 2;
          location = some (codes "headers.Content-Type");
          hint = some (codes "Send Content-Type: application/json for JSON requests.");
          evidence = (codes "received", none_if_empty p.content_type) ∷ [];
        })

  -- `_header_signals`
  unfoldable pub header_signals : Request → RequestProfile → List (GuardSignal F)
  unfolding agent_signals type_signals control_signals
  header_signals req p = agent_signals p ++ (type_signals p ++ control_signals req.headers)

  -- `_shape_signals`
  unfoldable pub shape_signals : GuardLimits → RequestProfile → List (GuardSignal F)
  unfolding codes
  shape_signals lim p =
      found_if (ltb 10 p.stats.max_depth) (record {
        code = codes "shape:deep_json";
        message = codes "JSON body is nested deeply.";
        kind = anomaly;
        severity = medium;
        score = n.lit 1 1;
        location = some (codes "body");
        hint = some (codes "Deep JSON can trigger expensive validation and parser paths.");
        evidence = (codes "max_depth", number p.stats.max_depth) ∷ [];
      })
      ++ (found_if (ltb lim.max_string_length p.stats.max_string_length) (record {
        code = codes "shape:string_too_long";
        message = codes "JSON body contains a very long string.";
        kind = data_kind;
        severity = high;
        score = n.lit 18 2;
        location = some (codes "body");
        hint = some (codes "Use file streaming for large blobs instead of inline JSON strings.");
        evidence = (codes "max_string_length", number p.stats.max_string_length) ∷ [];
      })
          ++ found_if (ltb (lim.max_object_keys * 2) p.stats.total_keys) (record {
            code = codes "shape:wide_json";
            message = codes "JSON body contains a very wide object graph.";
            kind = anomaly;
            severity = medium;
            score = n.lit 1 1;
            location = some (codes "body");
            hint = some (codes "Split or page the payload before sending it to this route.");
            evidence = (codes "total_keys", number p.stats.total_keys) ∷ [];
          }))
