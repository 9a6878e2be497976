-- ===== src/Patch/Validator.antt =====
-- `validateUnifiedDiff` and `assertPatchSafe` of src/core/patch/patchValidator.ts, the files that
-- src/core/patch/patchParser.ts reads off a diff of texts, and `applyUnifiedDiffWithResult` of
-- src/core/patch/patchApplier.ts under both. The list of patches is what the package `diff` parses
-- of the normalized diff; the package `ignore` is a test of paths.
pub mod Texts
pub mod Laws
pub use tomorrowedge.Patch.Validator.Texts.{
  PatchValidationIssue, PatchValidationResult, is_dev_null, path_of, safety,
}
unfoldable pub use tomorrowedge.Patch.Validator.Texts.{
  strip_prefix, parse_file, added_text_for_file, artifact_issues,
}
use tomorrowedge.Patch.Validator.Texts.{is_sensitive, issue, quality_issue}
use tomorrowedge.Prelude.{
  ℕ, String, Bool, true, false, not, ◌&&◌, ◌||◌, Option, none, some, List, [], ◌∷◌, ◌++◌, map, ◌==◌,
  append, cat, join, strip, starts_with, filter, find, is_empty, length, or_else, if◌then◌else◌,
}
use tomorrowedge.ControlPlane.Specs.{Attempt, returned, threw}
use tomorrowedge.ControlPlane.Effects.{Effect}
use tomorrowedge.Safety.Inside.{FileTree, resolve, is_path_traversal, normalize_slashes}
use tomorrowedge.Safety.Risk.{FileRisk, classify_file_risk}
use tomorrowedge.Patch.Anchors.{StructuredPatch}
use tomorrowedge.Patch.Transaction.{FileTexts, World, Disk, PatchApplyResult}
use tomorrowedge.Patch.Applier.{ParsedPatchFile, Tools, path_text, or_text, apply_parsed}
use tomorrowedge.Patch.Quality.{added_text, removed_text, text_quality_issue}
use tomorrowedge.Patch.Declarations.{
  duplicate_declaration_issues, artifact_quality_issues_for_text, unique_strings,
}

-- The checks of the text of a file, behind those of its path.
unfoldable pub content_issues :
    FileTree
    → Tools
    → String
    → FileTexts
    → List StructuredPatch
    → String
    → List PatchValidationIssue
content_issues tree tools cwd files patches path =
    let artifact = artifact_issues tree tools cwd files patches path in
    elim (text_quality_issue (added_text_for_file patches path) path) [
      | some reason ↦ quality_issue path reason ∷ []
      | none ↦
          if not (is_empty artifact)
          then map (quality_issue path) artifact
          else if is_sensitive (classify_file_risk path 0)
          then issue path "path is classified as sensitive"
          else []
    ]

-- One round of the loop of `validateUnifiedDiff`.
unfoldable pub file_issues :
    FileTree
    → Tools
    → (String → Bool)
    → String
    → FileTexts
    → List StructuredPatch
    → ParsedPatchFile
    → List PatchValidationIssue
unfolding normalize_slashes
file_issues tree tools ignores cwd files patches file =
    let path = path_of file in
    let content = content_issues tree tools cwd files patches path in
    if path == ""
    then []
    else if file.is_binary
    then issue path "binary patches are not supported"
    else if file.is_rename
    then issue path "rename patches require explicit manual handling"
    else if is_path_traversal tree cwd path
    then issue path "path escapes project root"
    else if ignores path
    then issue path "path is ignored by safety or ignore rules"
    else content

unfoldable pub all_issues :
    FileTree
    → Tools
    → (String → Bool)
    → String
    → FileTexts
    → List StructuredPatch
    → List ParsedPatchFile
    → List PatchValidationIssue
all_issues tree tools ignores cwd files patches [] = []
all_issues tree tools ignores cwd files patches (file ∷ rest) =
    file_issues tree tools ignores cwd files patches file
    ++ all_issues tree tools ignores cwd files patches rest

unfoldable pub validate_patches :
    FileTree
    → Tools
    → (String → Bool)
    → String
    → FileTexts
    → List StructuredPatch
    → PatchValidationResult
unfolding normalize_slashes
validate_patches tree tools ignores cwd files patches =
    let parsed = map parse_file patches in
    let issues = all_issues tree tools ignores cwd files patches parsed in
    record {
      ok = is_empty issues;
      issues = issues;
      files = filter (λ path. not (path == "")) (map path_of parsed);
    }

unfoldable pub assert_patch_safe : PatchValidationResult → Attempt (List String)
assert_patch_safe result =
    if not result.ok
    then threw (
        append "Patch blocked by safety validation: " (
          join "; " (
            map (λ (i : PatchValidationIssue). cat (i.path ∷ ": " ∷ i.reason ∷ [])) result.issues)))
    else returned result.files

abbrev checked_then :
    Attempt (List String) → Effect World PatchApplyResult → Effect World PatchApplyResult
checked_then (threw e) next w = (w, threw e)
checked_then (returned files) next w = next w

-- `applyUnifiedDiffWithResult` of a diff of texts.
unfoldable pub apply_text_diff :
    FileTree
    → Tools
    → Disk
    → (String → Bool)
    → String
    → List StructuredPatch
    → Bool
    → Effect World PatchApplyResult
apply_text_diff tree tools disk ignores cwd patches approved w =
    if not approved
    then (w, threw "Patch application blocked: approval required.")
    else checked_then (assert_patch_safe (validate_patches tree tools ignores cwd w.files patches))
        (apply_parsed tree tools disk cwd (map parse_file patches) patches) w
