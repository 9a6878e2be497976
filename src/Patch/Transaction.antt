-- ===== src/Patch/Transaction.antt =====
-- The writing of a patch, the second half of `applyUnifiedDiffWithResult` in
-- src/core/patch/patchApplier.ts: the plans are carried out one by one behind their undo snapshots
-- (`createUndoSnapshot` of src/core/patch/undoManager.ts), and a throw rolls back what was applied.
pub mod Laws
pub mod Rounds
pub mod Rollback
use tomorrowedge.Prelude.{
  ℕ, suc, String, Bool, true, false, Option, none, some, List, [], ◌∷◌, ◌++◌, ◌==◌, if◌then◌else◌,
}
use tomorrowedge.ControlPlane.Specs.{Attempt, returned, threw}
use tomorrowedge.ControlPlane.Effects.{Effect, pure, ◌>>=◌, ◌>>◌}

pub record PatchApplyResult : Type 0 where
  pub changed_files : List String
  pub undo_snapshot_ids : List String

-- What is planned for one file of the patch.
pub record FilePlan : Type 0 where
  pub target : String
  pub absolute : String
  pub original : String
  pub existed : Bool
  pub next : String
  pub is_delete : Bool

abbrev pub FileTexts : Type 0
FileTexts = String → Option String

-- The file system, and how many of its operations have been asked for.
pub record World : Type 0 where
  pub files : FileTexts
  pub clock : ℕ

-- What the environment decides: which operation fails and with which message, what a failed write
-- leaves of its file, and the path and the text of a snapshot.
pub record Disk : Type 0 where
  pub fault : ℕ → Option String
  pub left_behind : ℕ → Option String
  pub snapshot_path : ℕ → String
  pub snapshot_text : ℕ → String → String → String

abbrev pub put : String → Option String → FileTexts → FileTexts
put path content files p = if path == p then content else files p

abbrev pub tick : World → World
tick w = record w { clock = suc w.clock }

abbrev pub put_at : String → Option String → World → World
put_at path content w = record { files = put path content w.files; clock = suc w.clock }

-- `mkdir(dir, { recursive: true })` writes no file.
unfoldable pub make_directory : Disk → Effect World (Unit {0})
make_directory disk w = elim (disk.fault w.clock) [
  | none ↦ (tick w, returned tt)
  | some e ↦ (tick w, threw e)
]

unfoldable pub write_file : Disk → String → String → Effect World (Unit {0})
write_file disk path content w = elim (disk.fault w.clock) [
  | none ↦ (put_at path (some content) w, returned tt)
  | some e ↦ (put_at path (disk.left_behind w.clock) w, threw e)
]

-- `rm(path, { force: true })`
unfoldable pub remove_file : Disk → String → Effect World (Unit {0})
remove_file disk path w = elim (disk.fault w.clock) [
  | none ↦ (put_at path none w, returned tt)
  | some e ↦ (tick w, threw e)
]

abbrev pub current_clock : Effect World ℕ
current_clock w = (w, returned w.clock)

unfoldable pub create_undo_snapshot : Disk → String → String → Effect World String
unfolding make_directory write_file
create_undo_snapshot disk relative_path content = do
  make_directory disk
  id ← current_clock
  write_file disk (disk.snapshot_path id) (disk.snapshot_text id relative_path content)
  pure (disk.snapshot_path id)

unfoldable pub write_plan : Disk → FilePlan → Effect World String
unfolding make_directory create_undo_snapshot remove_file write_file
write_plan disk plan = do
  make_directory disk
  id ← create_undo_snapshot disk plan.target plan.original
  if plan.is_delete then remove_file disk plan.absolute else write_file disk plan.absolute plan.next
  pure id

-- The variables of the loop; the applied plans stand latest first.
pub record Applied : Type 0 where
  pub applied : List FilePlan
  pub changed : List String
  pub snapshots : List String

pub data Progress : Type 0 where
  completed : Applied → Progress
  interrupted : String → Applied → Progress

abbrev pub push_plan : Applied → FilePlan → String → Applied
push_plan a plan id = record {
  applied = plan ∷ a.applied;
  changed = a.changed ++ plan.target ∷ [];
  snapshots = a.snapshots ++ id ∷ [];
}

-- One round of the loop, in front of the others.
abbrev pub carry_on :
    (Applied → World → World × Progress)
    → Applied
    → FilePlan
    → World × Attempt String
    → World × Progress
carry_on next a plan (w, threw e) = (w, interrupted e a)
carry_on next a plan (w, returned id) = next (push_plan a plan id) w

unfoldable pub apply_plans : Disk → List FilePlan → Applied → World → World × Progress
unfolding write_plan
apply_plans disk [] a w = (w, completed a)
apply_plans disk (plan ∷ plans) a w =
    carry_on (apply_plans disk plans) a plan (write_plan disk plan w)

unfoldable pub restore_plan : Disk → FilePlan → Effect World (Unit {0})
unfolding make_directory remove_file write_file
restore_plan disk plan =
    if plan.existed
    then make_directory disk >> write_file disk plan.absolute plan.original
    else remove_file disk plan.absolute

-- `rollbackAppliedPlans`, of the plans latest first.
unfoldable pub rollback_applied_plans : Disk → List FilePlan → Effect World (Unit {0})
unfolding restore_plan
rollback_applied_plans disk [] = pure tt
rollback_applied_plans disk (plan ∷ plans) =
    restore_plan disk plan >> rollback_applied_plans disk plans

abbrev pub throw {ℓ} : {A : Type ℓ} → String → Effect World A
throw e w = (w, threw e)

abbrev pub conclude : Disk → World × Progress → World × Attempt PatchApplyResult
conclude disk (w, completed a) =
    (w, returned (record { changed_files = a.changed; undo_snapshot_ids = a.snapshots }))
conclude disk (w, interrupted e a) = (rollback_applied_plans disk a.applied >> throw e) w

abbrev pub nothing_applied : Applied
nothing_applied = record { applied = []; changed = []; snapshots = [] }

unfoldable pub carry_out : Disk → List FilePlan → Effect World PatchApplyResult
unfolding apply_plans rollback_applied_plans
carry_out disk plans w = conclude disk (apply_plans disk plans nothing_applied w)
