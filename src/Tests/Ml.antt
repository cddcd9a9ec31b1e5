-- ===== src/Tests/Ml.antt =====
-- The guard at concrete inputs: floats are natural numbers of ten-thousandths.
use quick_api.Base.{
  ℕ, zero, suc, ◌+◌, ◌*◌, ◌/◌, Text, codes, contains, null, int, pos, true, false, none, List, [],
  ◌∷◌, ◌≡◌, ◌↔◌, inl, refl, ltb, leb, All, arith, ◌⊎◌, Raised, ok, raise,
}
use quick_api.Http.{Request, build}
use quick_api.Ml.Floats.{Floats, IsOrdered}
use quick_api.Ml.Signals.{GuardSignal, Policy, block, security, critical}
use quick_api.Ml.Profile.{Codecs, RequestProfile, profile_of}
use quick_api.Ml.Score.{GuardConfig, action_of}
use quick_api.Ml.Score.Action.{IsRefused, action_of-block_iff}
use quick_api.Ml.Dedupe.{dedupe_signals}
use quick_api.Ml.Dedupe.Worst.{IsDistinct, covers, dedupe_signals-IsDistinct}
use quick_api.Ml.Guard.{GuardParts, GuardReport, run_engine, inspect}
use quick_api.Ml.Guard.Blocks.{inspect-blocks}

abbrev scaled : ℕ → ℕ → ℕ
scaled m zero = m * 10_000
scaled m (suc k) = scaled m k / 10

instance unfoldable pub scaled_floats : Floats ℕ
scaled_floats = record {
  lit = scaled;
  of_int = λ m. m * 10_000;
  plus = λ a b. a + b;
  times = λ a b. a * b / 10_000;
  over = λ a b. a * 10_000 / b;
  lt = ltb;
  le = leb;
  log10 = λ a. a;
  round4 = λ a. a;
  value = λ a. int (pos a);
}

pub ordered : IsOrdered scaled_floats
unfolding scaled_floats
ordered = record { lt_irrefl = λ a. ground (arith); lt_trans = λ a b c e f. ground (arith, e, f) }

abbrev pub config : GuardConfig ℕ
config = record {
  enabled = true;
  block_enabled = true;
  strict_validation = false;
  limits = record {
    max_body_size = 1_000;
    max_string_length = 100;
    max_array_length = 100;
    max_object_keys = 100;
  };
  observe_threshold = 3_500;
  challenge_threshold = 6_200;
  block_threshold = 8_600;
}

abbrev pub codecs : Codecs
codecs = record { shown = λ v. []; encode = λ t. t; decode = λ bytes. bytes }

abbrev pub no_parts : GuardParts ℕ
no_parts = record {
  synaptic = none;
  engine = none;
  scan = λ req. none;
  validation = λ req. none;
  decide = none;
}

-- A request whose header carries a line feed.
abbrev pub split_header : Request
split_header =
    build (codes "GET") (codes "/") null [] ((codes "X-A", b'a' ∷ 10 ∷ b'b' ∷ []) ∷ [])
      (codes "10.0.0.1") (codes "req_1") []

abbrev pub unhashed : Request → List ℕ → Text
unhashed req raw = []

inspect-blocks_example :
    ((report : GuardReport ℕ) × (inspect codecs unhashed config no_parts split_header none [] [] 0
        ≡ ok report)
      × (report.action ≡ block))
    ⊎ ((e : Raised) × (run_engine no_parts.engine split_header ≡ raise e)
        × (inspect codecs unhashed config no_parts split_header none [] [] 0 ≡ raise e))
unfolding build contains codes
inspect-blocks_example =
    inspect-blocks codecs unhashed config no_parts split_header none [] [] 0 refl refl (inl refl)

abbrev probe_signal : ℕ → GuardSignal ℕ
probe_signal score = record {
  code = codes "ssrf:probe";
  message = [];
  kind = security;
  severity = critical;
  score = score;
  location = none;
  hint = none;
  evidence = [];
}

abbrev two_probes : List (GuardSignal ℕ)
two_probes = probe_signal 2_200 ∷ probe_signal 3_200 ∷ []

abbrev allowing : Policy
allowing = record { action = codes "allow"; details = [] }

action_of-block_iff_example :
    (action_of config 4_000 two_probes allowing [] ≡ block)
    ↔ ((config.block_enabled ≡ true) × IsRefused config 4_000 two_probes allowing [])
action_of-block_iff_example = action_of-block_iff config 4_000 two_probes allowing []

dedupe_signals-IsDistinct_example :
    IsDistinct (dedupe_signals two_probes)
    × All (λ s. covers (dedupe_signals two_probes) s ≡ true) two_probes
dedupe_signals-IsDistinct_example = dedupe_signals-IsDistinct ordered two_probes

abbrev plain_profile : RequestProfile
plain_profile = profile_of codecs unhashed config.limits split_header none []
