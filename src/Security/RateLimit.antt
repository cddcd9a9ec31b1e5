-- ===== src/Security/RateLimit.antt =====
-- `RateLimiter` of quickapi/security/rate_limit.py. A time is a number of microseconds, and `now`
-- is what the call of `time()` returned.
pub mod History
use quick_api.Base.{
  ℕ, ◌+◌, ◌-◌, ◌*◌, Text, codes, str_beq, Dict, get, put, Bool, true, false, List, [], ◌∷◌, ◌++◌,
  ◌==◌, text_eq, if◌then◌else◌, or_else, keep, length, ltb, leb,
}

pub record Preset : Type 0 where
  pub limit : ℕ
  pub window : ℕ

abbrev pub microseconds : ℕ
microseconds = 1_000_000

-- `PRESETS.get(preset, PRESETS["default"])`
unfoldable pub preset_of : Text → Preset
unfolding codes str_beq
preset_of name =
    if name == codes "strict"
    then record { limit = 20; window = 60 * microseconds }
    else if name == codes "auth"
    then record { limit = 10; window = 60 * microseconds }
    else record { limit = 60; window = 60 * microseconds }

-- `now - stamp < window`; it holds of a stamp that is later than `now`
unfoldable pub recent : ℕ → ℕ → ℕ → Bool
recent window now stamp = ltb (now - stamp) window

abbrev pub bucket : Dict (List ℕ) → Text → List ℕ
bucket buckets key = or_else (get buckets key) []

abbrev pub settle : Preset → Dict (List ℕ) → ℕ → Text → List ℕ → Bool × Dict (List ℕ)
settle p buckets now key stamps =
    if leb p.limit (length stamps)
    then (false, put buckets key stamps)
    else (true, put buckets key (stamps ++ now ∷ []))

-- `allow`: the verdict, and the buckets after it
unfoldable pub allow : Preset → Dict (List ℕ) → ℕ → Text → Bool × Dict (List ℕ)
unfolding recent keep get put
allow p buckets now key = settle p buckets now key (keep (recent p.window now) (bucket buckets key))
