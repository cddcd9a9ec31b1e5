-- ===== src/Tests/Tools.antt =====
-- The tool runner and the registry of databases at concrete inputs.
use quick_api.Stores.{Adapter, register_adapter, health}
use quick_api.Base.{
  Dict, null, get, ok, raise, text_eq, Text, codes, Value, str, arr_of, none, some, List, [], ◌∷◌,
  ◌++◌, ◌≡◌, refl, str_beq,
}
use quick_api.Tools.{
  FileSystem, ToolRunner, Started, good, plan, plan_convert, path_text, tool_name, path_name,
}
use quick_api.Tools.Workspace.{IsGuarded, IsWithin, plan-IsGuarded, plan_convert-IsGuarded}

-- A file system without links, where every path is one part below "/w".
abbrev flat : FileSystem
flat = record { resolve = λ p. codes "w" ∷ p ∷ []; resolve_under = λ root p. root ++ p ∷ [] }

abbrev runner : ToolRunner
runner = record {
  allowed_bins = codes "ffmpeg" ∷ codes "Git" ∷ [];
  default_timeout = 30_000;
  workspace_root = some (codes "w" ∷ []);
}

abbrev shown : Value → Text
shown v = []

abbrev git_status : Value
git_status = arr_of (str (codes "/usr/bin/GIT.exe") ∷ str (codes "status") ∷ [])

abbrev started : Started
started = record {
  command = codes "/usr/bin/GIT.exe" ∷ codes "status" ∷ [];
  cwd = some (codes "w" ∷ codes "a" ∷ []);
  timeout = 30_000;
}

name_tests :
    (path_name (codes "a/b/./") ≡ codes "b") × (tool_name (codes "FFmpeg.EXE") ≡ codes "ffmpeg")
unfolding path_name tool_name codes str_beq
name_tests = (refl, refl)

git_starts : plan flat shown runner git_status (some (codes "a")) none ≡ good started
unfolding plan codes str_beq arr_of
git_starts = refl

plan-IsGuarded_example : IsGuarded runner started
plan-IsGuarded_example =
    plan-IsGuarded flat shown runner git_status (some (codes "a")) none started git_starts

abbrev converting : Started
converting = record {
  command =
      codes "ffmpeg" ∷ codes "-y" ∷ codes "-i" ∷ codes "/w/in" ∷ codes "-an" ∷ codes "/w/out" ∷ [];
  cwd = some (codes "w" ∷ []);
  timeout = 300_000;
}

conversion_starts :
    plan_convert flat runner (codes "in") (codes "out") (codes "-an" ∷ []) (some 300_000)
    ≡ good converting
unfolding plan_convert codes str_beq
conversion_starts = refl

plan_convert-IsGuarded_example :
    IsGuarded runner converting
    × ((from to : List Text) × IsWithin runner.workspace_root (some from)
        × IsWithin runner.workspace_root (some to)
        × (converting.command
            ≡ codes "ffmpeg"
              ∷ codes "-y"
              ∷ codes "-i"
              ∷ path_text from
              ∷ (codes "-an" ∷ [] ++ path_text to ∷ [])))
plan_convert-IsGuarded_example =
    plan_convert-IsGuarded flat runner (codes "in") (codes "out") (codes "-an" ∷ []) (some 300_000)
      converting conversion_starts

abbrev adapters : Dict Adapter
adapters = (codes "main", ok null) ∷ (codes "logs", ok null) ∷ []

abbrev broken : Adapter
broken = raise (record { kind = codes "RuntimeError"; message = codes "down" })

-- An adapter that is down leaves the report of the others.
others_stay :
    get (health (register_adapter adapters (codes "main") broken)) (codes "logs") ≡ some null
unfolding get codes str_beq health register_adapter
others_stay = refl
