-- ===== src/Tools/Results.antt =====
-- What `ToolRunner.run` of quickapi/tools/runner.py returns once the process was started.
use quick_api.Base.{
  ℕ, zero, ◌-◌, Text, codes, ℤ, pos, str, obj_of, Bool, true, false, none, some, [], ◌∷◌, ◌++◌,
  text_eq, length, drop, Raised,
}
use quick_api.Tools.{ToolResult, Started}

-- How the process ends.
pub data ProcessEnd : Type 0 where
  exited : ℤ → Text → Text → ProcessEnd
  timed_out : Text → Text → ProcessEnd
  failed : Raised → ProcessEnd

-- `s[-20000:]`
abbrev pub tail_text : Text → Text
tail_text s = drop (length s - 20000) s

abbrev is_zero : ℤ → Bool
is_zero (pos zero) = true
is_zero _ = false

-- The result of `run` once the process was started; `seconds` is how the timeout is printed.
unfoldable pub tool_result : (ℕ → Text) → Started → ℕ → ProcessEnd → ToolResult
unfolding codes
tool_result seconds s duration (exited code out err) = record {
  accepted = is_zero code;
  command = s.command;
  stdout = tail_text out;
  stderr = tail_text err;
  returncode = some code;
  duration_ms = duration;
  error = none;
}
tool_result seconds s duration (timed_out out err) = record {
  accepted = false;
  command = s.command;
  stdout = tail_text out;
  stderr = tail_text err;
  returncode = none;
  duration_ms = duration;
  error = some (
      obj_of (
        (codes "code", str (codes "TOOL_TIMEOUT"))
        ∷ (codes "message", str (codes "Tool exceeded timeout " ++ seconds s.timeout ++ codes "s."))
        ∷ []));
}
tool_result seconds s duration (failed e) = record {
  accepted = false;
  command = s.command;
  stdout = [];
  stderr = [];
  returncode = none;
  duration_ms = duration;
  error = some (obj_of ((codes "type", str e.kind) ∷ (codes "message", str e.message) ∷ []));
}
