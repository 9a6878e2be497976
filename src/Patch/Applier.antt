-- ===== src/Patch/Applier.antt =====
-- `applyUnifiedDiffWithResult` of src/core/patch/patchApplier.ts from the parsed files on: a plan
-- is made for each file of the patch, and then all of them are carried out.
pub mod Laws
use tomorrowedge.Prelude.{
  ℕ, String, Bool, true, false, not, Option, none, some, List, [], ◌∷◌, ◌++◌, ◌==◌, append, cat,
  join, show, eqb, if◌then◌else◌, length, is_empty, is_some, or_else,
}
use tomorrowedge.ControlPlane.Specs.{Attempt, returned, threw}
use tomorrowedge.ControlPlane.Effects.{Effect}
use tomorrowedge.Safety.Inside.{AbsolutePath, FileTree, resolve_inside}
use tomorrowedge.ControlPlane.Attempts.{◌>>=◌}
use tomorrowedge.Patch.Anchors.{
  StructuredPatch, apply_unique_deletion_anchored, apply_unique_changed_substring,
}
use tomorrowedge.Patch.Transaction.{FilePlan, FileTexts, World, Disk, PatchApplyResult, carry_out}

pub record ParsedPatchFile : Type 0 where
  pub old_file_name : String
  pub new_file_name : String
  pub hunks : ℕ
  pub is_create : Bool
  pub is_delete : Bool
  pub is_rename : Bool
  pub is_binary : Bool

-- The text of an absolute path, by which the files are known.
abbrev pub path_text : AbsolutePath → String
path_text names = append "/" (join "/" names)

-- The package `diff`: `applyPatch` as it is called, with a fuzz factor or without, and `none` for
-- `false`; and the message of a file that cannot be read.
pub record Tools : Type 0 where
  pub apply_patch : String → StructuredPatch → Bool → Option String
  pub unreadable : String → Option String

-- `a || b` of texts
abbrev pub or_text : String → String → String
or_text a b = if a == "" then b else a

abbrev pub target_of : ParsedPatchFile → String
target_of file =
    if file.is_delete then file.old_file_name else or_text file.new_file_name file.old_file_name

abbrev pub read_original : Tools → FileTexts → String → Attempt String
read_original tools files path = elim (files path) [
  | none ↦ returned ""
  | some content ↦ elim (tools.unreadable path) [ none ↦ returned content | some e ↦ threw e ]
]

-- `a === false ? b : a`
abbrev pub or_try : Option String → Option String → Option String
or_try none b = b
or_try (some s) b = some s

-- Exact, then fuzzy, then by the removed lines, then by what changes in a line.
unfoldable pub patched : Tools → String → StructuredPatch → Option String
unfolding apply_unique_deletion_anchored apply_unique_changed_substring
patched tools original patch =
    or_try
      (or_try
        (or_try (tools.apply_patch original patch false) (tools.apply_patch original patch true))
        (apply_unique_deletion_anchored original patch.hunks))
      (apply_unique_changed_substring original patch.hunks)

abbrev pub plan_from :
    FileTexts → String → ParsedPatchFile → String → String → Option String → Attempt FilePlan
plan_from files target file absolute original none =
    threw (cat ("Failed to apply patch for " ∷ target ∷ []))
plan_from files target file absolute original (some next) = returned (record {
  target = target;
  absolute = absolute;
  original = original;
  existed = is_some (files absolute);
  next = next;
  is_delete = file.is_delete;
})

unfoldable pub plan_file :
    FileTree → Tools → String → FileTexts → ParsedPatchFile → StructuredPatch → Attempt FilePlan
unfolding resolve_inside patched
plan_file tree tools cwd files file patch =
    let target = target_of file in
    if target == ""
    then threw "Patch application failed: unified diff file target is missing."
    else (do
      names ← resolve_inside tree cwd target
      original ← read_original tools files (path_text names)
      plan_from files target file (path_text names) original (patched tools original patch))

-- The loop over the files, each with the patch at its index.
unfoldable pub plan_files :
    FileTree
    → Tools
    → String
    → FileTexts
    → List ParsedPatchFile
    → List StructuredPatch
    → Attempt (List FilePlan)
unfolding plan_file
plan_files tree tools cwd files [] patches = returned []
plan_files tree tools cwd files (file ∷ rest) [] = returned []
plan_files tree tools cwd files (file ∷ rest) (patch ∷ patches) = do
  plan ← plan_file tree tools cwd files file patch
  plans ← plan_files tree tools cwd files rest patches
  returned (plan ∷ plans)

-- What is parsed must be there, and one patch for each file.
unfoldable pub check_parsed : List ParsedPatchFile → List StructuredPatch → Attempt (Unit {0})
unfolding show
check_parsed files patches =
    if is_empty files
    then threw "Patch application failed: no parseable unified diff files."
    else if is_empty patches
    then threw "Patch application failed: no parseable unified diff files."
    else if not (eqb (length files) (length patches))
    then threw (
        cat (
          "Patch application failed: parsed file count mismatch ("
          ∷ show (length files)
          ∷ " target(s), "
          ∷ show (length patches)
          ∷ " patch(es))."
          ∷ []))
    else returned tt

unfoldable pub plans_of :
    FileTree
    → Tools
    → String
    → FileTexts
    → List ParsedPatchFile
    → List StructuredPatch
    → Attempt (List FilePlan)
unfolding check_parsed plan_files
plans_of tree tools cwd files parsed patches =
    check_parsed parsed patches >>= λ _. plan_files tree tools cwd files parsed patches

-- A throw while the plans are made changes nothing.
abbrev pub planned_then :
    (List FilePlan → Effect World PatchApplyResult)
    → Attempt (List FilePlan)
    → Effect World PatchApplyResult
planned_then next (threw e) w = (w, threw e)
planned_then next (returned plans) w = next plans w

unfoldable pub apply_parsed :
    FileTree
    → Tools
    → Disk
    → String
    → List ParsedPatchFile
    → List StructuredPatch
    → Effect World PatchApplyResult
unfolding plans_of carry_out
apply_parsed tree tools disk cwd parsed patches w =
    planned_then (carry_out disk) (plans_of tree tools cwd w.files parsed patches) w
