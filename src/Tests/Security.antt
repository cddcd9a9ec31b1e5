-- ===== src/Tests/Security.antt =====
-- The rate limiter and the security guard at concrete inputs.
use quick_api.Base.{
  ℕ, Text, codes, Value, null, true, false, not, ◌&&◌, none, List, [], ◌∷◌, ◌≡◌, refl,
  if◌then◌else◌, str_beq, length, arith, ltb, is_none,
}
use quick_api.Http.{Request, build}
use quick_api.Security.RateLimit.{Preset, allow, preset_of}
use quick_api.Security.RateLimit.History.{allow_remembering, run, run-allow}
use quick_api.Security.Guard.{SecurityGuard, check, detect, wrong_content_type}
use quick_api.Security.Guard.Laws.{IsAdmitted, check-IsAdmitted, check-buckets}

abbrev two_per_minute : Preset
two_per_minute = record { limit = 2; window = 60 }

abbrev calls : List (ℕ × Text)
calls =
    (0, codes "a")
    ∷ (10, codes "a")
    ∷ (20, codes "b")
    ∷ (30, codes "a")
    ∷ (61, codes "a")
    ∷ (62, codes "a")
    ∷ []

rate_tests : run (allow two_per_minute) [] calls ≡ true ∷ true ∷ true ∷ false ∷ true ∷ false ∷ []
unfolding run allow codes str_beq
rate_tests = refl

run-allow_example :
    run (allow two_per_minute) [] calls ≡ run (allow_remembering two_per_minute) [] calls
run-allow_example = run-allow two_per_minute calls (omega arith)

abbrev ascii : List ℕ → Text
ascii bytes = bytes

abbrev shown : Value → Text
shown v = []

abbrev guard : SecurityGuard
guard = record { enabled = true; max_body_size = 100; buckets = [] }

abbrev clean : Request
clean =
    build (codes "POST") (codes "/cart") null []
      ((codes "content-type", codes "application/json") ∷ []) (codes "10.0.0.1") (codes "req_1")
      (codes "{}")

abbrev probe : Request
probe = build (codes "GET") (codes "/a/../b") null [] [] (codes "10.0.0.1") (codes "req_2") []

clean_passes : (check shown ascii (codes "req_1") guard 5 clean).0 ≡ none
unfolding check codes build str_beq
clean_passes = refl

probe_rejected : is_none (check shown ascii (codes "req_1") guard 5 probe).0 ≡ false
unfolding check codes build str_beq
probe_rejected = refl

check-IsAdmitted_example : IsAdmitted shown ascii guard 5 clean
check-IsAdmitted_example = check-IsAdmitted shown ascii (codes "req_1") guard 5 clean clean_passes

check-buckets_example : (check shown ascii (codes "req_1") guard 5 probe).1 ≡ (
    if not (ltb guard.max_body_size (length probe.raw_body))
      && guard.enabled
      && is_none (detect shown ascii probe)
      && not (wrong_content_type probe)
    then record guard { buckets = (allow (preset_of (codes "default")) guard.buckets 5 probe.ip).1 }
    else guard)
check-buckets_example = check-buckets shown ascii (codes "req_1") guard 5 probe
