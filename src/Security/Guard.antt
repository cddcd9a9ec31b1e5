-- ===== src/Security/Guard.antt =====
-- `SecurityGuard` of quickapi/security/guard.py. `shown` is Python's `str` of a body, `decode`
-- the decoding of bytes that skips what is no UTF-8, `new_id` the drawn request id and `now` what
-- the rate limiter's call of `time()` returned.
pub mod Laws
use quick_api.Base.{
  ℕ, Text, codes, lower, contains, Dict, Value, null, str, int, pos, obj_of, truthy, Bool, true,
  false, not, ◌&&◌, ◌||◌, Option, none, some, List, [], ◌∷◌, ◌++◌, ◌==◌, text_eq, str_beq,
  if◌then◌else◌, or_else, take, length, ltb, any, mem, get,
}
use quick_api.Http.{Request}
use quick_api.Http.Header.{Headers, get_header}
use quick_api.Response.{
  failure, format_error, bad_request, unsupported_media_type, too_many_requests,
}
use quick_api.Security.RateLimit.{allow, preset_of}

-- `SUSPICIOUS_PATH_TOKENS`, `SUSPICIOUS_BODY_TOKENS` and `SUSPICIOUS_HEADER_TOKENS`. The codes 92,
-- 0, 13 and 10 are the backslash, the null character, carriage return and line feed.
abbrev pub suspicious_path_tokens : List Text
suspicious_path_tokens =
    codes ".."
    ∷ codes "%2e"
    ∷ codes "%2f"
    ∷ (92 ∷ [])
    ∷ (0 ∷ [])
    ∷ codes "<script"
    ∷ codes "${"
    ∷ codes "/.env"
    ∷ codes "/wp-admin"
    ∷ codes "/phpmyadmin"
    ∷ codes "/server-status"
    ∷ codes "/actuator"
    ∷ []

abbrev pub suspicious_body_tokens : List Text
suspicious_body_tokens =
    codes "<script"
    ∷ codes "javascript:"
    ∷ codes "drop table"
    ∷ codes "union select"
    ∷ codes "xp_cmdshell"
    ∷ codes "powershell"
    ∷ codes "cmd.exe"
    ∷ codes "/bin/sh"
    ∷ codes "169.254.169.254"
    ∷ codes "metadata.google.internal"
    ∷ codes "file://"
    ∷ codes "../"
    ∷ (b'.' ∷ b'.' ∷ 92 ∷ [])
    ∷ (0 ∷ [])
    ∷ []

abbrev pub suspicious_header_tokens : List Text
suspicious_header_tokens = (13 ∷ []) ∷ (10 ∷ []) ∷ (0 ∷ []) ∷ []

-- The first token of the list that the text contains.
unfoldable pub first_token : List Text → Text → Option Text
unfolding contains
first_token [] text = none
first_token (t ∷ ts) text =
    let later = first_token ts text in if contains t text then some t else later

-- The first header whose line has a control character, by its name.
unfoldable pub bad_header : Headers → Option Text
unfolding contains codes
bad_header [] = none
bad_header ((key, content) ∷ h) =
    let later = bad_header h in
    if any (λ t. contains t (key ++ codes ": " ++ content)) suspicious_header_tokens
    then some key
    else later

unfoldable pub path_report : Text → Text → Value
path_report path matched = obj_of (
    (codes "where", str (codes "path"))
    ∷ (codes "value", str path)
    ∷ (codes "matched", str matched)
    ∷ (
      codes "hint",
      str (
          codes
            "Do not send traversal, scanner probe, encoded slash/dot, script, or null-byte patterns in the path."),
    )
    ∷ [])

unfoldable pub header_report : Text → Value
header_report key = obj_of (
    (codes "where", str (codes "headers." ++ key))
    ∷ (codes "hint", str (codes "Header values cannot contain control characters."))
    ∷ [])

unfoldable pub body_report : Text → Value
body_report matched = obj_of (
    (codes "where", str (codes "body"))
    ∷ (codes "matched", str matched)
    ∷ (
      codes "hint",
      str (
          codes
            "JSON body contains a blocked script, SQL, command, SSRF, traversal, or null-byte pattern."),
    )
    ∷ [])

module _ (shown : Value → Text) (decode : List ℕ → Text) where
  -- The text of the body that is searched.
  unfoldable pub body_text : Request → Text
  unfolding lower truthy
  body_text req = elim (req.raw_body) [
    | [] ↦ lower (if truthy req.body then shown req.body else [])
    | b ∷ bs ↦ lower (decode (take 4096 (b ∷ bs)))
  ]

  -- `_detect_suspicious_request`
  unfoldable pub detect : Request → Option Value
  unfolding first_token bad_header body_text lower path_report header_report body_report
  detect req = elim (first_token suspicious_path_tokens (lower req.path)) [
    | some t ↦ some (path_report req.path t)
    | none ↦ elim (bad_header req.headers) [
      | some key ↦ some (header_report key)
      | none ↦ elim (first_token suspicious_body_tokens (body_text req)) [
        | some t ↦ some (body_report t)
        | none ↦ none
      ]
    ]
  ]

abbrev pub has_bytes : List ℕ → Bool
has_bytes [] = false
has_bytes (b ∷ bs) = true

-- The content type is not one that a body of this method must have.
unfoldable pub wrong_content_type : Request → Bool
unfolding codes get_header lower contains str_beq
wrong_content_type req =
    mem req.method (codes "POST" ∷ codes "PUT" ∷ codes "PATCH" ∷ [])
    && (has_bytes req.raw_body
        && not (
            contains (codes "application/json")
              (lower (or_else (get_header req.headers (codes "Content-Type")) []))))

abbrev text_or_none : Text → Value
text_or_none [] = null
text_or_none (c ∷ t) = str (c ∷ t)

unfoldable pub too_large : Text → ℕ → Request → Dict Value
unfolding format_error
too_large new_id max_body_size req =
    format_error new_id 413 (codes "PAYLOAD_TOO_LARGE") (codes "Request body is too large")
      (obj_of (
        (codes "where", str (codes "body"))
        ∷ (codes "limit_bytes", int (pos max_body_size))
        ∷ (codes "received_bytes", int (pos (length req.raw_body)))
        ∷ (codes "hint", str (codes "Reduce the JSON payload size or raise max_body_size."))
        ∷ []))
      (codes "api_error")

unfoldable pub wrong_media : Text → Request → Dict Value
unfolding failure
wrong_media new_id req =
    failure new_id unsupported_media_type (some (codes "JSON content-type required")) (
      obj_of (
        (codes "where", str (codes "headers.Content-Type"))
        ∷ (
          codes "received",
          text_or_none (or_else (get_header req.headers (codes "Content-Type")) []),
        )
        ∷ (codes "expected", str (codes "application/json"))
        ∷ (codes "hint", str (codes "Send JSON requests with Content-Type: application/json."))
        ∷ []))

unfoldable pub limited : Text → Request → Dict Value
unfolding failure
limited new_id req = failure new_id too_many_requests none (
    obj_of (
      (codes "where", str (codes "rate_limit"))
      ∷ (codes "ip", str req.ip)
      ∷ (codes "hint", str (codes "Slow down requests or use a less strict route rate limit."))
      ∷ []))

pub record SecurityGuard : Type 0 where
  pub enabled : Bool
  pub max_body_size : ℕ
  pub buckets : Dict (List ℕ)

module _ (shown : Value → Text) (decode : List ℕ → Text) (new_id : Text) where
  -- The last step of `check`, which asks the rate limiter.
  unfoldable pub check_rate : SecurityGuard → ℕ → Request → Option (Dict Value) × SecurityGuard
  unfolding allow preset_of limited
  check_rate g now req =
      let (verdict, buckets) = allow (preset_of (codes "default")) g.buckets now req.ip in
      (if verdict then none else some (limited new_id req), record g { buckets = buckets })

  -- `check`: the rejection, if any, and the guard after it
  unfoldable pub check : SecurityGuard → ℕ → Request → Option (Dict Value) × SecurityGuard
  unfolding detect wrong_content_type too_large wrong_media check_rate failure
  check g now req =
      if ltb g.max_body_size (length req.raw_body)
      then (some (too_large new_id g.max_body_size req), g)
      else if not g.enabled
      then (none, g)
      else elim (detect shown decode req) [
        | some report ↦ (
          some (failure new_id bad_request (some (codes "Suspicious request rejected")) report),
          g,
        )
        | none ↦
            if wrong_content_type req
            then (some (wrong_media new_id req), g)
            else check_rate g now req
      ]
