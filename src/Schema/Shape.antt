-- ===== src/Schema/Shape.antt =====
-- `validate_runtime_shape` of quickapi/schema/validator.py: the limits on any body, whatever its
-- schema. The keys of a JSON object are texts. `quoted` is Python's `repr` of a text.
pub mod Limits
use quick_api.Base.{
  ℕ, suc, zero, ◌+◌, Text, codes, Dict, Value, Items, Fields, null, bool, int, dec, str, arr, obj,
  Bool, Option, none, some, List, [], ◌∷◌, ◌++◌, map, if◌then◌else◌, ltb, any, length,
}
use quick_api.Base.Values.{no_item, item, no_field, field}
use quick_api.Schema.Issue
use quick_api.Schema.Issue.{ValidationIssue, issue, shown_number}

pub record ShapeLimits : Type 0 where
  pub max_depth : ℕ
  pub max_string_length : ℕ
  pub max_array_length : ℕ
  pub max_object_keys : ℕ

-- `len` of an array and of an object
abbrev pub count : Items → ℕ
count no_item = 0
count (item v vs) = suc (count vs)

abbrev pub width : Fields → ℕ
width no_field = 0
width (field k v fs) = suc (width fs)

-- `any(ord(ch) < 32 for ch in key)`
unfoldable pub has_control : Text → Bool
has_control key = any (λ c. ltb c 32) key

-- An issue of this check: a limit that is exceeded.
unfoldable pub exceeded : Text → Text → Text → Text → ℕ → ℕ → Text → ValidationIssue
unfolding codes shown_number
exceeded location code message limit_name limit received hint = record {
  location = location;
  message = location ++ message;
  expected = some (limit_name ++ codes "=" ++ shown_number limit);
  received = some (shown_number received);
  code = code;
  severity = codes "error";
  hint = some hint;
}

unfoldable pub too_deep : ShapeLimits → Text → ℕ → ValidationIssue
unfolding exceeded codes
too_deep lim location depth =
    exceeded location (codes "MAX_DEPTH") (codes " is nested too deeply") (codes "max_depth")
      lim.max_depth depth (codes "Flatten the JSON payload or raise the configured guard limit.")

unfoldable pub too_long : ShapeLimits → Text → Text → List ValidationIssue
unfolding exceeded codes
too_long lim location s =
    if ltb lim.max_string_length (length s)
    then exceeded location (codes "STRING_TOO_LONG") (codes " string is too long")
        (codes "max_string_length") lim.max_string_length (length s)
        (codes "Send a shorter string or configure ml_guard_max_string_length.")
      ∷ []
    else []

unfoldable pub too_many : ShapeLimits → Text → Items → List ValidationIssue
unfolding exceeded codes
too_many lim location vs =
    if ltb lim.max_array_length (count vs)
    then exceeded location (codes "ARRAY_TOO_LONG") (codes " array has too many items")
        (codes "max_array_length") lim.max_array_length (count vs)
        (codes "Page the data or configure ml_guard_max_array_length.")
      ∷ []
    else []

unfoldable pub too_wide : ShapeLimits → Text → Fields → List ValidationIssue
unfolding exceeded codes
too_wide lim location fs =
    if ltb lim.max_object_keys (width fs)
    then exceeded location (codes "OBJECT_TOO_WIDE") (codes " object has too many keys")
        (codes "max_object_keys") lim.max_object_keys (width fs)
        (codes "Split the payload or configure ml_guard_max_object_keys.")
      ∷ []
    else []

module _ (quoted : Text → Text) (lim : ShapeLimits) where
  unfoldable pub bad_key : Text → Text → List ValidationIssue
  unfolding has_control issue codes
  bad_key location key =
      if has_control key
      then issue (location ++ codes "." ++ quoted key) (codes "CONTROL_CHARACTER")
          (codes "JSON object key contains control characters") (some (codes "printable key"))
          (some (quoted key))
        ∷ []
      else []

  unfoldable mutual
    unfolding too_deep too_long too_many too_wide bad_key shown_number codes

    -- `_validate_shape`
    pub validate_shape : Value → Text → ℕ → List ValidationIssue
    validate_shape (str s) location depth =
        if ltb lim.max_depth depth
        then too_deep lim location depth ∷ []
        else too_long lim location s
    validate_shape (arr vs) location depth =
        let inside = validate_items vs location (suc lim.max_array_length) 0 (suc depth) in
        if ltb lim.max_depth depth
        then too_deep lim location depth ∷ []
        else too_many lim location vs ++ inside
    validate_shape (obj fs) location depth =
        let inside = validate_fields fs location (suc lim.max_object_keys) (suc depth) in
        if ltb lim.max_depth depth
        then too_deep lim location depth ∷ []
        else too_wide lim location fs ++ inside
    validate_shape null location depth =
        if ltb lim.max_depth depth then too_deep lim location depth ∷ [] else []
    validate_shape (bool b) location depth =
        if ltb lim.max_depth depth then too_deep lim location depth ∷ [] else []
    validate_shape (int n) location depth =
        if ltb lim.max_depth depth then too_deep lim location depth ∷ [] else []
    validate_shape (dec m k) location depth =
        if ltb lim.max_depth depth then too_deep lim location depth ∷ [] else []

    -- the first `budget` items, from this index on
    pub validate_items : Items → Text → ℕ → ℕ → ℕ → List ValidationIssue
    validate_items no_item location budget index depth = []
    validate_items (item v vs) location zero index depth = []
    validate_items (item v vs) location (suc budget) index depth =
        validate_shape v (location ++ codes "[" ++ shown_number index ++ codes "]") depth
        ++ validate_items vs location budget (suc index) depth

    -- the first `budget` entries
    pub validate_fields : Fields → Text → ℕ → ℕ → List ValidationIssue
    validate_fields no_field location budget depth = []
    validate_fields (field k v fs) location zero depth = []
    validate_fields (field k v fs) location (suc budget) depth =
        bad_key location k
        ++ (validate_shape v (location ++ codes "." ++ k) depth
            ++ validate_fields fs location budget depth)

  -- `validate_runtime_shape`
  unfoldable pub validate_runtime_shape : Value → Text → List (Dict Value)
  unfolding validate_shape Issue.to_dict
  validate_runtime_shape v location = map Issue.to_dict (validate_shape v location 0)
