-- ===== src/ControlPlane/Workspace.antt =====
-- The observation of the workspace, src/core/controlPlane/diff.ts: `createWorkspaceSnapshot`,
-- `diffSnapshots`, `gitChangedFiles`, `observeWorkspace` and `computeDesiredStateDiff`.
pub mod Laws
use Prim.Native.Char.{code}
use tomorrowedge.Prelude.{
  ℕ, zero, suc, String, Bool, true, false, not, ◌&&◌, ◌||◌, Option, none, some, List, [], ◌∷◌, ◌++◌,
  map, ◌==◌, append, starts_with, unique, has_text, includes, filter, eqb, leb, length,
  if◌then◌else◌, sort,
}
use tomorrowedge.ControlPlane.Specs.{
  GoalSpec, EvaluationResult, ObservedWorkspaceState, DesiredStateDiff, run_baseline, git_status,
  snapshot, Attempt, returned, threw,
}
use tomorrowedge.ControlPlane.Paths.{normalize_path}

-- `Record<string, string>`: a key stands once.
abbrev pub Files : Type 0
Files = List (String × String)

pub record WorkspaceSnapshot : Type 0 where
  pub files : Files
  pub hash : String

unfoldable pub lookup : String → Files → Option String
lookup key [] = none
lookup key ((k, v) ∷ files) = if k == key then some v else lookup key files

-- `files[key] = value`
unfoldable pub assign : String → String → Files → Files
assign key value [] = (key, value) ∷ []
assign key value ((k, v) ∷ files) =
    if k == key then (k, value) ∷ files else (k, v) ∷ assign key value files

-- What the source calls outside of the repository, in one state of the world: the glob of the
-- workspace's files, the digest of a file's content and of the table, and `git status`.
pub record Disk : Type 0 where
  pub entries : Attempt (List String)
  pub digest : String → String
  pub digest_table : Files → String
  pub git_stdout : Option String

snapshot_files : (String → String) → List String → Files → Files
unfolding assign
snapshot_files digest [] files = files
snapshot_files digest (entry ∷ entries) files =
    snapshot_files digest entries (assign (normalize_path entry) (digest entry) files)

unfoldable pub create_workspace_snapshot : Disk → Attempt WorkspaceSnapshot
unfolding snapshot_files
create_workspace_snapshot disk = elim disk.entries [
  | threw message ↦ threw message
  | returned entries ↦
      let files = snapshot_files disk.digest (sort entries) [] in
      returned (record { files = files; hash = disk.digest_table files })
]

abbrev keys : Files → List String
keys [] = []
keys ((k, v) ∷ files) = k ∷ keys files

abbrev differs : Option String → Option String → Bool
differs none none = false
differs (some a) (some b) = not (a == b)
differs _ _ = true

unfoldable pub diff_snapshots : WorkspaceSnapshot → WorkspaceSnapshot → List String
unfolding lookup unique
diff_snapshots before after =
    filter (λ key. differs (lookup key before.files) (lookup key after.files))
      (sort (unique [] (keys before.files ++ keys after.files)))

-- The white space of `trim` and of `\s`.
unfoldable pub is_space : ℕ → Bool
is_space c =
    leb 9 c && leb c 13
    || eqb c 32
    || eqb c 160
    || eqb c 0x1680
    || leb 0x2000 c && leb c 0x200a
    || eqb c 0x2028
    || eqb c 0x2029
    || eqb c 0x202f
    || eqb c 0x205f
    || eqb c 0x3000
    || eqb c 0xfeff

unfoldable pub trim_start : String → String
unfolding is_space
trim_start String.[] = ""
trim_start (String.◌∷◌ c s) =
    let rest = trim_start s in if is_space (code c) then rest else String.◌∷◌ c s

unfoldable pub trim_end : String → String
unfolding is_space
trim_end String.[] = ""
trim_end (String.◌∷◌ c s) =
    let rest = trim_end s in if is_space (code c) && rest == "" then "" else String.◌∷◌ c rest

unfoldable pub trim : String → String
unfolding trim_start trim_end
trim s = trim_end (trim_start s)

-- `split(/\r?\n/)`; the carriage return that may stand before a line's end is left to `trim`.
split_lines_from : String → String → List String
split_lines_from cur String.[] = cur ∷ []
split_lines_from cur (String.◌∷◌ c s) =
    let closed = cur ∷ split_lines_from "" s in
    let longer = split_lines_from (append cur (String.◌∷◌ c String.[])) s in
    if eqb (code c) 10 then closed else longer

-- `replace(/^..\s+/, "")`: the first two characters, neither a line's end, and white space.
drop_status : String → String
unfolding is_space trim_start
drop_status (String.◌∷◌ a (String.◌∷◌ b (String.◌∷◌ c s))) =
    if is_space (code c) then trim_start s else String.◌∷◌ a (String.◌∷◌ b (String.◌∷◌ c s))
drop_status line = line

-- The last part of `split(" -> ")`; the first argument counts what is left of a separator.
last_part : ℕ → String → String → String
last_part k cur String.[] = cur
last_part (suc k) cur (String.◌∷◌ c s) = last_part k cur s
last_part zero cur (String.◌∷◌ c s) =
    let next = last_part 3 "" s in
    let longer = last_part zero (append cur (String.◌∷◌ c String.[])) s in
    if starts_with (String.◌∷◌ c s) " -> " then next else longer

-- The path that one trimmed line of `git status --porcelain` names.
unfoldable pub git_line_path : String → String
unfolding drop_status last_part
git_line_path line =
    let named = drop_status line in
    normalize_path (if has_text named " -> " then last_part zero "" named else named)

unfoldable pub git_changed_files : Option String → Bool × List String
unfolding git_line_path split_lines_from trim
git_changed_files none = (false, [])
git_changed_files (some stdout) =
    (true, map git_line_path (filter (λ l. not (l == "")) (map trim (split_lines_from "" stdout))))

observed_from :
    Bool → List String → Option WorkspaceSnapshot → WorkspaceSnapshot → ObservedWorkspaceState
unfolding diff_snapshots
observed_from available files (some baseline) now =
    let changed = diff_snapshots baseline now in
    record {
      files_changed = changed;
      changed_file_count = length changed;
      git_available = available;
      diff_basis = run_baseline;
      snapshot_hash = some now.hash;
    }
observed_from true files none now = record {
  files_changed = files;
  changed_file_count = length files;
  git_available = true;
  diff_basis = git_status;
  snapshot_hash = some now.hash;
}
observed_from false files none now = record {
  files_changed = [];
  changed_file_count = 0;
  git_available = false;
  diff_basis = snapshot;
  snapshot_hash = some now.hash;
}

unfoldable pub observe_workspace : Disk → Option WorkspaceSnapshot → Attempt ObservedWorkspaceState
unfolding create_workspace_snapshot git_changed_files observed_from
observe_workspace disk baseline = elim (create_workspace_snapshot disk) [
  | threw message ↦ threw message
  | returned now ↦
      let (available, files) = git_changed_files disk.git_stdout in
      returned (observed_from available files baseline now)
]

abbrev condition_ids :
    (Bool → Bool) → List tomorrowedge.ControlPlane.Specs.SuccessCondition → List String
condition_ids keep [] = []
condition_ids keep (c ∷ cs) =
    if keep c.required then c.id ∷ condition_ids keep cs else condition_ids keep cs

abbrev unknown_ids :
    List String → List tomorrowedge.ControlPlane.Specs.SuccessCondition → List String
unknown_ids known [] = []
unknown_ids known (c ∷ cs) =
    if includes known c.id then unknown_ids known cs else c.id ∷ unknown_ids known cs

unfoldable pub compute_desired_state_diff : GoalSpec → Option EvaluationResult → DesiredStateDiff
compute_desired_state_diff goal none = record {
  missing_conditions = condition_ids (λ required. required) goal.success_conditions;
  satisfied_conditions = [];
  regressions = [];
  unknown_conditions = condition_ids not goal.success_conditions;
}
compute_desired_state_diff goal (some e) = record {
  missing_conditions = e.missing_conditions;
  satisfied_conditions = e.satisfied_conditions;
  regressions = e.regressions;
  unknown_conditions =
      unknown_ids (e.satisfied_conditions ++ e.missing_conditions) goal.success_conditions;
}
