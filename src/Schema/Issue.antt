-- ===== src/Schema/Issue.antt =====
-- `ValidationIssue` of quickapi/schema/validator.py, and how Python prints a number.
pub mod Digits
use quick_api.Base.{
  ℕ, suc, zero, ◌+◌, ◌/◌, ◌%◌, Text, codes, Dict, Value, str, Option, none, some, List, [], ◌∷◌,
  ◌++◌, if◌then◌else◌, ltb,
}

pub record ValidationIssue : Type 0 where
  pub location : Text
  pub message : Text
  pub expected : Option Text
  pub received : Option Text
  pub code : Text
  pub severity : Text
  pub hint : Option Text

abbrev entry : Text → Option Text → Dict Value
entry name none = []
entry name (some t) = (name, str t) ∷ []

-- `ValidationIssue.to_dict`; `location` is the field `where`.
unfoldable pub to_dict : ValidationIssue → Dict Value
unfolding codes
to_dict i =
    (codes "where", str i.location)
      ∷ (codes "message", str i.message)
      ∷ (codes "code", str i.code)
      ∷ (codes "severity", str i.severity)
      ∷ entry (codes "expected") i.expected
    ++ entry (codes "received") i.received
    ++ entry (codes "hint") i.hint

-- `_issue`
unfoldable pub issue : Text → Text → Text → Option Text → Option Text → ValidationIssue
unfolding codes
issue location code message expected received = record {
  location = location;
  message = message;
  expected = expected;
  received = received;
  code = code;
  severity = codes "error";
  hint = none;
}

-- The decimal digits of a number; its successor is fuel enough.
unfoldable pub digits : ℕ → ℕ → Text
digits zero n = []
digits (suc fuel) n =
    let front = digits fuel (n / 10) in
    if ltb n 10 then (b'0' + n) ∷ [] else front ++ (b'0' + n % 10) ∷ []

-- `str(n)`
unfoldable pub shown_number : ℕ → Text
unfolding digits
shown_number n = digits (suc n) n
