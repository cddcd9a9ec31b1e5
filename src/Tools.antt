-- ===== src/Tools.antt =====
-- `ToolRunner` of quickapi/tools/runner.py. `shown` is Python's `str` of a value that is no text. The
-- file system resolves paths, to the list of their parts from the root; the process is started
-- outside, and `plan` is what `run` decides before. A time is a number of milliseconds.
pub mod Workspace
pub mod Results
use quick_api.Base.{
  ℕ, suc, zero, ◌-◌, Text, codes, lower, split, join, starts_with, str_beq, Dict, Value, Items, ℤ,
  pos, str, arr, obj_of, arr_of, to_dict, Bool, true, false, not, ◌||◌, Option, none, some, List,
  [], ◌∷◌, ◌++◌, map, ◌==◌, text_eq, if◌then◌else◌, or_else, keep, length, drop, take, mem,
  sorted_set, Raised,
}
use quick_api.Base.Values.{to_list}

pub record ToolResult : Type 0 where
  pub accepted : Bool
  pub command : List Text
  pub stdout : Text
  pub stderr : Text
  pub returncode : Option ℤ
  pub duration_ms : ℕ
  pub error : Option Value

-- What the file system resolves: `Path(p).expanduser().resolve()` and `(root / p).resolve()`.
pub record FileSystem : Type 0 where
  pub resolve : Text → List Text
  pub resolve_under : List Text → Text → List Text

pub record ToolRunner : Type 0 where
  pub allowed_bins : List Text
  pub default_timeout : ℕ
  pub workspace_root : Option (List Text)

abbrev or_defaults : List Text → List Text
or_defaults [] =
    codes "ffmpeg"
    ∷ codes "ffprobe"
    ∷ codes "python"
    ∷ codes "node"
    ∷ codes "npm"
    ∷ codes "npx"
    ∷ codes "git"
    ∷ []
or_defaults (b ∷ bs) = b ∷ bs

-- `__init__`; `allowed_bins=None` is the empty list.
unfoldable pub new : FileSystem → List Text → ℕ → Option Text → ToolRunner
new fs allowed_bins default_timeout workspace_root = record {
  allowed_bins = or_defaults allowed_bins;
  default_timeout = default_timeout;
  workspace_root = root_of workspace_root;
}
  where
    root_of : Option Text → Option (List Text)
    root_of none = none
    root_of (some []) = none
    root_of (some (c ∷ t)) = some (fs.resolve (c ∷ t))

-- The last element of a list of texts, or the empty text.
abbrev last_text : List Text → Text → Text
last_text [] t = t
last_text (u ∷ us) t = last_text us u

-- `Path(p).name`: the last part that is neither empty nor a dot
unfoldable pub path_name : Text → Text
unfolding split keep codes str_beq
path_name p = last_text (keep (λ part. not (part == [] || part == codes ".")) (split b'/' p)) []

-- `s.removesuffix(".exe")`
unfoldable pub without_exe : Text → Text
unfolding codes str_beq
without_exe s = if drop (length s - 4) s == codes ".exe" then take (length s - 4) s else s

-- The name by which an executable is looked up.
unfoldable pub tool_name : Text → Text
unfolding lower without_exe
tool_name s = without_exe (lower s)

-- `resolved.relative_to(root)` raises nothing.
unfoldable pub is_below : List Text → List Text → Bool
unfolding str_beq
is_below [] parts = true
is_below (r ∷ root) [] = false
is_below (r ∷ root) (p ∷ parts) = let rest = is_below root parts in if r == p then rest else false

-- `str(path)`
unfoldable pub path_text : List Text → Text
unfolding join
path_text parts = b'/' ∷ join (b'/' ∷ []) parts

abbrev pub refused : List Text → Dict Value → ToolResult
refused command error = record {
  accepted = false;
  command = command;
  stdout = [];
  stderr = [];
  returncode = none;
  duration_ms = 0;
  error = some (obj_of error);
}

unfoldable pub not_a_list : ToolResult
unfolding codes
not_a_list = refused [] (
    (codes "code", str (codes "INVALID_COMMAND"))
    ∷ (
      codes "message",
      str (codes "Command must be a JSON list, for example ['ffmpeg', '-version']."),
    )
    ∷ [])

unfoldable pub empty_command : ToolResult
unfolding codes
empty_command = refused [] (
    (codes "code", str (codes "EMPTY_COMMAND"))
    ∷ (codes "message", str (codes "Command cannot be empty."))
    ∷ [])

unfoldable pub tool_not_allowed : ToolRunner → Text → List Text → ToolResult
unfolding codes sorted_set
tool_not_allowed r first rest = refused (first ∷ rest) (
    (codes "code", str (codes "TOOL_NOT_ALLOWED"))
    ∷ (codes "message", str (codes "'" ++ first ++ codes "' is not in the allowed tool list."))
    ∷ (codes "allowed_bins", arr_of (map str (sorted_set r.allowed_bins)))
    ∷ [])

unfoldable pub cwd_outside : List Text → List Text → ToolResult
unfolding codes path_text
cwd_outside root resolved = refused [] (
    (codes "code", str (codes "CWD_OUTSIDE_WORKSPACE"))
    ∷ (codes "message", str (codes "Tool cwd is outside the configured workspace root."))
    ∷ (codes "workspace_root", str (path_text root))
    ∷ (codes "cwd", str (path_text resolved))
    ∷ [])

unfoldable pub path_outside : List Text → List Text → ToolResult
unfolding codes path_text
path_outside root resolved = refused [] (
    (codes "code", str (codes "PATH_OUTSIDE_WORKSPACE"))
    ∷ (codes "message", str (codes "Tool file path is outside the configured workspace root."))
    ∷ (codes "workspace_root", str (path_text root))
    ∷ (codes "path", str (path_text resolved))
    ∷ [])

-- A value, or the refusal that is returned in its place.
pub data Checked (A : Type 0) : Type 0 where
  good : A → Checked A
  bad : ToolResult → Checked A

-- What `run` starts: the command, the working directory and the timeout.
pub record Started : Type 0 where
  pub command : List Text
  pub cwd : Option (List Text)
  pub timeout : ℕ

-- `str(part)`
abbrev pub part_text : (Value → Text) → Value → Text
part_text shown (str t) = t
part_text shown v = shown v

module _ (fs : FileSystem) where
  -- `_resolve_cwd`
  unfoldable pub resolve_cwd : ToolRunner → Option Text → Checked (Option (List Text))
  unfolding is_below cwd_outside
  resolve_cwd r none = good r.workspace_root
  resolve_cwd r (some cwd) = elim (r.workspace_root) [
    | none ↦ good (some (fs.resolve cwd))
    | some root ↦
        if is_below root (fs.resolve cwd)
        then good (some (fs.resolve cwd))
        else bad (cwd_outside root (fs.resolve cwd))
  ]

  -- the parts of a file's path, seen from the root when it is no absolute path
  unfoldable pub file_parts : List Text → Text → List Text
  unfolding starts_with codes
  file_parts root path =
      if starts_with path (codes "/") then fs.resolve path else fs.resolve_under root path

  -- `_resolve_workspace_file`
  unfoldable pub resolve_file : ToolRunner → Text → Checked (List Text)
  unfolding is_below path_outside file_parts
  resolve_file r path = elim (r.workspace_root) [
    | none ↦ good (fs.resolve path)
    | some root ↦
        if is_below root (file_parts root path)
        then good (file_parts root path)
        else bad (path_outside root (file_parts root path))
  ]

  abbrev or_default : Option ℕ → ℕ → ℕ
  or_default none d = d
  or_default (some zero) d = d
  or_default (some (suc n)) d = suc n

  -- `run` of a command that is not empty, up to the start of the process
  unfoldable pub plan_parts :
      ToolRunner → Text → List Text → Option Text → Option ℕ → Checked Started
  unfolding path_name tool_name tool_not_allowed resolve_cwd
  plan_parts r first rest cwd timeout =
      if mem (tool_name (path_name first)) (map tool_name r.allowed_bins)
      then elim (resolve_cwd r cwd) [
        | bad e ↦ bad e
        | good safe_cwd ↦ good (record {
          command = first ∷ rest;
          cwd = safe_cwd;
          timeout = or_default timeout r.default_timeout;
        })
      ]
      else bad (tool_not_allowed r first rest)

  module _ (shown : Value → Text) where
    abbrev plan_list : ToolRunner → List Text → Option Text → Option ℕ → Checked Started
    plan_list r [] cwd timeout = bad empty_command
    plan_list r (first ∷ rest) cwd timeout = plan_parts r first rest cwd timeout

    -- `run`, up to the start of the process
    unfoldable pub plan : ToolRunner → Value → Option Text → Option ℕ → Checked Started
    unfolding not_a_list empty_command plan_parts
    plan r (arr items) cwd timeout = plan_list r (map (part_text shown) (to_list items)) cwd timeout
    plan r v cwd timeout = bad not_a_list

  -- `ffmpeg_convert`, up to the start of the process
  unfoldable pub plan_convert : ToolRunner → Text → Text → List Text → Option ℕ → Checked Started
  unfolding resolve_file plan_parts path_text codes
  plan_convert r source target extra timeout = elim (resolve_file r source) [
    | bad e ↦ bad e
    | good source_path ↦ elim (resolve_file r target) [
      | bad e ↦ bad e
      | good target_path ↦
          plan_parts r (codes "ffmpeg")
            (codes "-y"
              ∷ codes "-i"
              ∷ path_text source_path
              ∷ (extra ++ path_text target_path ∷ []))
            none timeout
    ]
  ]
