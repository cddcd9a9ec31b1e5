-- ===== src/Security/Tokens.antt =====
-- quickapi/security/tokens.py
use quick_api.Base.{
  Text, codes, lower, strip, starts_with, drop, Bool, true, false, Option, none, some, [], ◌∷◌,
  if◌then◌else◌, str_beq,
}
use quick_api.Http.Header.{Headers, get_header}

abbrev auth_token : Option Text → Option Text
auth_token none = none
auth_token (some []) = none
auth_token (some (c ∷ value)) =
    if starts_with (lower (c ∷ value)) (codes "bearer ")
    then some (strip (drop 7 (c ∷ value)))
    else some (strip (c ∷ value))

-- `token_from_header`
unfoldable pub token_from_header : Headers → Option Text
unfolding get_header starts_with lower strip codes
token_from_header headers = auth_token (get_header headers (codes "Authorization"))

abbrev is_token : Option Text → Text → Bool
is_token none expected = false
is_token (some t) expected = str_beq t expected

-- `check_token`
unfoldable pub check_token : Headers → Option Text → Bool
unfolding token_from_header str_beq
check_token headers none = true
check_token headers (some expected) = is_token (token_from_header headers) expected
