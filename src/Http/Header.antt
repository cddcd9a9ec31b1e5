-- ===== src/Http/Header.antt =====
-- quickapi/http/headers.py: a dict whose keys are kept in canonical case.
pub mod Laws
use quick_api.Base.{ℕ, Text, Dict, get, put, upper, lower, split, join, Option, List, [], ◌∷◌, map}
use quick_api.Base.Strings.{upper_char, lower_char}

abbrev pub Headers : Type 0
Headers = Dict Text

-- `str.capitalize`
unfoldable pub capitalize : Text → Text
unfolding upper_char lower_char lower
capitalize [] = []
capitalize (c ∷ s) = upper_char c ∷ lower s

-- `Headers._normalize`
unfoldable pub normalize : Text → Text
unfolding capitalize split join
normalize key = join (b'-' ∷ []) (map capitalize (split b'-' key))

-- `Headers.__setitem__`
unfoldable pub set_item : Headers → Text → Text → Headers
unfolding normalize put
set_item h key value = put h (normalize key) value

-- `Headers.get`, without its default
unfoldable pub get_header : Headers → Text → Option Text
unfolding normalize get
get_header h key = get h (normalize key)

-- the loop of `Headers.__init__`
unfoldable pub set_all : Headers → List (Text × Text) → Headers
unfolding set_item
set_all h [] = h
set_all h ((key, value) ∷ rest) = set_all (set_item h key value) rest

unfoldable pub normalize_headers : List (Text × Text) → Headers
unfolding set_all
normalize_headers headers = set_all [] headers
