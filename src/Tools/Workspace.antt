-- ===== src/Tools/Workspace.antt =====
-- What a tool that is started keeps to: the list of tools, and the workspace.
use mathlib.Core.List.{append-nil}
use quick_api.Base.{
  ℕ, ap, sym, Text, codes, Value, null, bool, int, dec, str, arr, obj, true, Option, none, some,
  List, [], ◌∷◌, ◌++◌, map, ◌≡◌, ◌⊎◌, inl, inr, refl, mem, Bool-cases, Option-cases, arith, str_iff,
}
use quick_api.Base.Values.{to_list, no_item, item}
use quick_api.Tools.{
  ToolResult, ToolRunner, FileSystem, Checked, good, bad, Started, is_below, tool_name, path_name,
  path_text, resolve_cwd, resolve_file, file_parts, plan_parts, plan, plan_convert, part_text,
}

-- The directory is the root or lies below it, where there is a root.
abbrev pub IsWithin : Option (List Text) → Option (List Text) → Type 0
IsWithin none dir = Unit
IsWithin (some root) none = ⊥
IsWithin (some root) (some dir) = (rest : List Text) × (dir ≡ root ++ rest)

is_below-rest :
    (root dir : List Text) → is_below root dir ≡ true → (rest : List Text) × (dir ≡ root ++ rest)
unfolding is_below
is_below-rest [] dir e = (dir, refl)
is_below-rest (r ∷ root) [] e = absurd (cc e)
is_below-rest (r ∷ root) (p ∷ dir) e =
    let same : r ≡ p = ground (arith, e, str_iff r p) in
    let (rest, below) = is_below-rest root dir (ground (arith, e)) in (rest, cc (same, below))

good_eq : {A : Type 0} (a b : A) → good a ≡ good b → a ≡ b
good_eq a b e = cc

itself-IsWithin : (root : Option (List Text)) → IsWithin root root
itself-IsWithin none = tt
itself-IsWithin (some root) = ([], sym (append-nil root))

resolve_cwd-IsWithin :
    (fs : FileSystem) (r : ToolRunner) (cwd : Option Text) (dir : Option (List Text))
    → resolve_cwd fs r cwd ≡ good dir
    → IsWithin r.workspace_root dir
unfolding resolve_cwd
resolve_cwd-IsWithin fs r none dir e = rw (← good_eq _ _ e) (itself-IsWithin r.workspace_root)
resolve_cwd-IsWithin fs r (some cwd) dir e = elim (Option-cases r.workspace_root) [
  | inl free ↦ rw free tt
  | inr (root, there) ↦ elim (Bool-cases (is_below root (fs.resolve cwd))) [
    | inr outside ↦ absurd (cc (rw (there, outside, resolve_cwd) at e))
    | inl inside ↦
        rw (there, ← good_eq _ _ (rw (there, inside, resolve_cwd) at e))
          (is_below-rest root (fs.resolve cwd) inside)
  ]
]

resolve_file-IsWithin :
    (fs : FileSystem) (r : ToolRunner) (path : Text) (parts : List Text)
    → resolve_file fs r path ≡ good parts
    → IsWithin r.workspace_root (some parts)
unfolding resolve_file
resolve_file-IsWithin fs r path parts e = elim (Option-cases r.workspace_root) [
  | inl free ↦ rw free tt
  | inr (root, there) ↦ elim (Bool-cases (is_below root (file_parts fs root path))) [
    | inr outside ↦ absurd (cc (rw (there, outside, resolve_file) at e))
    | inl inside ↦
        rw (there, ← good_eq _ _ (rw (there, inside, resolve_file) at e))
          (is_below-rest root (file_parts fs root path) inside)
  ]
]

checked_cases :
    {A : Type 0} (c : Checked A) → ((a : A) × (c ≡ good a)) ⊎ ((e : ToolResult) × (c ≡ bad e))
checked_cases (good a) = inl (a, refl)
checked_cases (bad e) = inr (e, refl)

-- What a started command keeps to: its first word names a tool of the list, and its working
-- directory is within the workspace.
pub record IsGuarded (r : ToolRunner) (s : Started) : Type 0 where
  pub first : Text
  pub rest : List Text
  pub words : s.command ≡ first ∷ rest
  pub listed : mem (tool_name (path_name first)) (map tool_name r.allowed_bins) ≡ true
  pub within : IsWithin r.workspace_root s.cwd

plan_parts-IsGuarded :
    (fs : FileSystem) (r : ToolRunner) (first : Text) (rest : List Text) (cwd : Option Text)
    (timeout : Option ℕ) (s : Started)
    → plan_parts fs r first rest cwd timeout ≡ good s
    → (s.command ≡ first ∷ rest) × IsGuarded r s
unfolding plan_parts
plan_parts-IsGuarded fs r first rest cwd timeout s e =
    elim (Bool-cases (mem (tool_name (path_name first)) (map tool_name r.allowed_bins))) [
      | inr strange ↦ absurd (cc (rw (strange, plan_parts) at e))
      | inl known ↦ elim (checked_cases (resolve_cwd fs r cwd)) [
        | inr (x, wrong) ↦ absurd (cc (rw (known, wrong, plan_parts) at e))
        | inl (dir, fine) ↦
            let same = good_eq _ _ (rw (known, fine, plan_parts) at e) in
            let words = sym (ap (λ t. t.command) same) in
            (
              words,
              record {
                first = first;
                rest = rest;
                words = words;
                listed = known;
                within = rw (← ap (λ t. t.cwd) same) (resolve_cwd-IsWithin fs r cwd dir fine);
              },
            )
      ]
    ]

-- A tool that `run` starts has a first word that names a tool of the allowed list, by its last path
-- component, without regard to case or to `.exe`, and is started in a directory that is the
-- workspace's root or lies below it, where a root is configured.
pub plan-IsGuarded :
    (fs : FileSystem) (shown : Value → Text) (r : ToolRunner) (command : Value) (cwd : Option Text)
    (timeout : Option ℕ) (s : Started)
    → plan fs shown r command cwd timeout ≡ good s
    → IsGuarded r s
unfolding plan
plan-IsGuarded fs shown r (arr no_item) cwd timeout s e = absurd (cc e)
plan-IsGuarded fs shown r (arr (item v vs)) cwd timeout s e =
    (plan_parts-IsGuarded fs r (part_text shown v) (map (part_text shown) (to_list vs)) cwd timeout
      s e).1
plan-IsGuarded fs shown r null cwd timeout s e = absurd (cc e)
plan-IsGuarded fs shown r (bool b) cwd timeout s e = absurd (cc e)
plan-IsGuarded fs shown r (int n) cwd timeout s e = absurd (cc e)
plan-IsGuarded fs shown r (dec m k) cwd timeout s e = absurd (cc e)
plan-IsGuarded fs shown r (str t) cwd timeout s e = absurd (cc e)
plan-IsGuarded fs shown r (obj d) cwd timeout s e = absurd (cc e)

-- A conversion that is started runs `ffmpeg` from the list of tools, on a source and a target that
-- are within the workspace, with the extra arguments between them, inside the workspace.
pub plan_convert-IsGuarded :
    (fs : FileSystem) (r : ToolRunner) (source target : Text) (extra : List Text)
    (timeout : Option ℕ) (s : Started)
    → plan_convert fs r source target extra timeout ≡ good s
    → IsGuarded r s
      × ((from to : List Text) × IsWithin r.workspace_root (some from)
          × IsWithin r.workspace_root (some to)
          × (s.command
              ≡ codes "ffmpeg"
                ∷ codes "-y"
                ∷ codes "-i"
                ∷ path_text from
                ∷ (extra ++ path_text to ∷ [])))
unfolding plan_convert
plan_convert-IsGuarded fs r source target extra timeout s e =
    elim (checked_cases (resolve_file fs r source)) [
      | inr (x, wrong) ↦ absurd (cc (rw (wrong, plan_convert) at e))
      | inl (from, fine) ↦ elim (checked_cases (resolve_file fs r target)) [
        | inr (x, wrong) ↦ absurd (cc (rw (fine, wrong, plan_convert) at e))
        | inl (to, good_too) ↦
            let (words, guarded) =
              plan_parts-IsGuarded fs r _ _ none timeout s
                (rw (fine, good_too, plan_convert) at e) in
            (
              guarded,
              (
                from,
                to,
                resolve_file-IsWithin fs r source from fine,
                resolve_file-IsWithin fs r target to good_too,
                words,
              ),
            )
      ]
    ]
