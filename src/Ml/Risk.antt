-- ===== src/Ml/Risk.antt =====
-- quickapi/ml/risk.py and quickapi/ml/anomaly.py: the features of a request and the scores of its risk
-- and of its being a bot. The classes of characters are those of ASCII.
pub mod Bounds
use quick_api.Base.{
  ℕ, zero, suc, ◌+◌, ◌*◌, Text, codes, lower, contains, split, str_beq, Dict, Value, str, int, pos,
  arr_of, Bool, true, false, not, ◌&&◌, ◌||◌, Option, none, some, or_else, List, [], ◌∷◌, ◌++◌, map,
  if◌then◌else◌, any, keep, mem, length, take, ltb, leb, ◌==◌, text_eq,
}
use quick_api.Http.{Request}
use quick_api.Http.Header.{Headers, get_header}
use quick_api.Ml.Floats.{Floats, min_of}
use quick_api.Ml.Shapes.{larger}
use quick_api.Ml.Profile.{Codecs, raw_of}

-- `SUSPICIOUS_TOKENS`
abbrev pub suspicious_tokens : List (Text × List Text)
suspicious_tokens =
    (
      codes "sql_injection",
      codes "drop table" ∷ codes "union select" ∷ codes " or 1=1" ∷ codes "'--" ∷ codes "\"--" ∷ [],
    )
    ∷ (
      codes "script_injection",
      codes "<script" ∷ codes "javascript:" ∷ codes "onerror=" ∷ codes "onload=" ∷ [],
    )
    ∷ (codes "path_traversal", codes "../" ∷ codes "..\\" ∷ codes "%2e" ∷ codes "%2f" ∷ [])
    ∷ (
      codes "abuse",
      codes "bruteforce" ∷ codes "spam" ∷ codes "attack" ∷ codes "credential stuffing" ∷ [],
    )
    ∷ []

pub record RequestFeatures (F : Type 0) : Type 0 where
  pub method : Text
  pub path_depth : ℕ
  pub body_bytes : ℕ
  pub header_count : ℕ
  pub query_count : ℕ
  pub digit_ratio : F
  pub symbol_ratio : F
  pub suspicious_hits : List Text

-- The groups that have a token in the text, in their order.
unfoldable pub hit_groups : List (Text × List Text) → Text → List Text
unfolding contains
hit_groups [] text = []
hit_groups ((group, tokens) ∷ groups) text =
    let rest = hit_groups groups text in
    if any (λ t. contains t text) tokens then group ∷ rest else rest

abbrev between : ℕ → ℕ → ℕ → Bool
between a b c = leb a c && leb c b

abbrev pub is_digit : ℕ → Bool
is_digit c = between b'0' b'9' c

abbrev pub is_alnum : ℕ → Bool
is_alnum c = is_digit c || (between b'a' b'z' c || between b'A' b'Z' c)

abbrev pub is_blank : ℕ → Bool
is_blank c = between 9 13 c || between 28 32 c

abbrev count_of : (ℕ → Bool) → Text → ℕ
count_of p t = length (keep p t)

abbrev pub lesser : ℕ → ℕ → ℕ
lesser a b = if ltb b a then b else a

abbrev pub has_any {ℓ} : {A : Type ℓ} → List A → Bool
has_any [] = false
has_any (x ∷ xs) = true

module _ {F : Type 0} ⦃n : Floats F⦄ where
  unfoldable pub extract_features : Codecs → Request → RequestFeatures F
  unfolding raw_of lower keep split hit_groups codes str_beq
  extract_features c req =
      let raw = raw_of c req in
      let combined = lower req.path ++ (codes " " ++ lower (c.decode (take 8192 raw))) in
      let chars = larger 1 (length combined) in
      record {
        method = req.method;
        path_depth = length (keep (λ part. not (part == [])) (split b'/' req.path));
        body_bytes = length raw;
        header_count = length req.headers;
        query_count = length req.query;
        digit_ratio = n.over (n.of_int (count_of is_digit combined)) (n.of_int chars);
        symbol_ratio =
            n.over (n.of_int (count_of (λ ch. not (is_alnum ch) && not (is_blank ch)) combined))
              (n.of_int chars);
        suspicious_hits = hit_groups suspicious_tokens combined;
      }

  -- `RequestFeatures.to_dict`
  unfoldable pub features_dict : RequestFeatures F → Dict Value
  unfolding codes
  features_dict f =
      (codes "method", str f.method)
      ∷ (codes "path_depth", int (pos f.path_depth))
      ∷ (codes "body_bytes", int (pos f.body_bytes))
      ∷ (codes "header_count", int (pos f.header_count))
      ∷ (codes "query_count", int (pos f.query_count))
      ∷ (codes "digit_ratio", n.value (n.round4 f.digit_ratio))
      ∷ (codes "symbol_ratio", n.value (n.round4 f.symbol_ratio))
      ∷ (codes "suspicious_hits", arr_of (map str f.suspicious_hits))
      ∷ []

  -- A rule: what is added to a score, and its reasons, when the test holds.
  abbrev add_if : Bool → F → List Text → F × List Text → F × List Text
  add_if true x names (score, reasons) = (n.plus score x, reasons ++ names)
  add_if false x names scored = scored

  -- The score and the reasons after the rules, in their order.
  abbrev rules_from : List (Bool × F × List Text) → F × List Text → F × List Text
  rules_from [] scored = scored
  rules_from (r ∷ rs) scored = rules_from rs (add_if r.0 r.1 r.2 scored)

  -- a score that is cut at a bound
  abbrev pub capped_at : F → F × List Text → F × List Text
  capped_at bound (score, reasons) = (min_of score bound, reasons)

  unfoldable pub score_risk : RequestFeatures F → Text → F × List Text
  unfolding codes str_beq
  score_risk f intent = capped_at (n.lit 99 2) (
      rules_from
        ((
          mem intent (codes "payment_attempt" ∷ codes "auth" ∷ codes "admin" ∷ []),
          n.lit 18 2,
          (codes "sensitive_intent:" ++ intent) ∷ [],
        )
          ∷ (
            mem f.method (codes "POST" ∷ codes "PUT" ∷ codes "PATCH" ∷ codes "DELETE" ∷ []),
            n.lit 6 2,
            [],
          )
          ∷ (
            ltb (1024 * 1024) f.body_bytes,
            min_of (n.lit 18 2)
                (n.over (n.log10 (n.over (n.of_int f.body_bytes) (n.of_int 1024))) (n.of_int 20)),
            codes "large_body" ∷ [],
          )
          ∷ (leb 6 f.path_depth, n.lit 8 2, codes "deep_path" ∷ [])
          ∷ (leb 8 f.query_count, n.lit 8 2, codes "many_query_params" ∷ [])
          ∷ (n.lt (n.lit 45 2) f.digit_ratio, n.lit 6 2, codes "high_digit_ratio" ∷ [])
          ∷ (n.lt (n.lit 35 2) f.symbol_ratio, n.lit 8 2, codes "high_symbol_ratio" ∷ [])
          ∷ (
            has_any f.suspicious_hits,
            n.plus (n.lit 48 2)
                (n.times (n.lit 8 2) (n.of_int (lesser 3 (length f.suspicious_hits)))),
            f.suspicious_hits,
          )
          ∷ [])
        (n.lit 4 2, []))

  unfoldable pub score_bot : RequestFeatures F → Headers → F × List Text
  unfolding get_header codes str_beq
  score_bot f headers = capped_at (n.lit 95 2) (
      rules_from
        ((
          not (has_any (or_else (get_header headers (codes "User-Agent")) [])),
          n.lit 28 2,
          codes "missing_user_agent" ∷ [],
        )
          ∷ (
            not (has_any (or_else (get_header headers (codes "Accept")) [])),
            n.lit 8 2,
            codes "missing_accept" ∷ [],
          )
          ∷ (leb f.header_count 2, n.lit 12 2, codes "low_header_count" ∷ [])
          ∷ (leb 10 f.query_count, n.lit 8 2, [])
          ∷ [])
        (n.lit 2 2, []))

  -- `detect_anomaly`: the reasons; there is an anomaly when there is one
  unfoldable pub detect_anomaly : RequestFeatures F → List Text
  unfolding codes
  detect_anomaly f =
      given (ltb (10 * 1024 * 1024) f.body_bytes) (codes "very_large_body")
      ++ (given (ltb 10 f.path_depth) (codes "extreme_path_depth")
          ++ (given (n.lt (n.lit 5 1) f.symbol_ratio) (codes "symbol_heavy_payload")
              ++ given (leb 2 (length f.suspicious_hits)) (codes "multiple_attack_patterns")))
    where
      given : Bool → Text → List Text
      given true reason = reason ∷ []
      given false reason = []
