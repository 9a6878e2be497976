-- ===== src/Patch/Validator/Texts.antt =====
-- The issues of a text, src/core/patch/patchValidator.ts, and the files of a patch by parseUnifiedDiff.
use tomorrowedge.Prelude.{
  String, Bool, true, false, not, ◌&&◌, ◌||◌, Option, none, some, List, [], ◌∷◌, ◌++◌, ◌==◌, cat,
  strip, find, length, or_else, if◌then◌else◌,
}
use tomorrowedge.Safety.Inside.{FileTree, resolve, normalize_slashes}
use tomorrowedge.Safety.Risk.{FileRisk}
use tomorrowedge.Patch.Anchors.{StructuredPatch}
use tomorrowedge.Patch.Transaction.{FileTexts}
use tomorrowedge.Patch.Applier.{ParsedPatchFile, Tools, path_text, or_text}
use tomorrowedge.Patch.Quality.{added_text, removed_text}
use tomorrowedge.Patch.Declarations.{
  duplicate_declaration_issues, artifact_quality_issues_for_text, unique_strings,
}

pub data IssueCategory : Type 0 where
  safety artifact_quality : IssueCategory

pub record PatchValidationIssue : Type 0 where
  pub path : String
  pub reason : String
  pub category : Option IssueCategory

pub record PatchValidationResult : Type 0 where
  pub ok : Bool
  pub issues : List PatchValidationIssue
  pub files : List String

abbrev pub is_dev_null : String → Bool
is_dev_null name = name == "/dev/null" || name == "dev/null"

abbrev or_whole : String → Option String → String
or_whole name none = name
or_whole name (some rest) = rest

abbrev without_prefix : String → String
without_prefix name = or_whole (or_whole name (strip "b/" name)) (strip "a/" name)

unfoldable pub strip_prefix : String → String
strip_prefix name = if is_dev_null name then "" else without_prefix name

-- A file of a diff of texts: where the whole diff has no mark of a binary patch, no part of it has.
unfoldable pub parse_file : StructuredPatch → ParsedPatchFile
unfolding strip_prefix
parse_file patch =
    let old = or_else patch.old_file_name "" in
    let new = or_else patch.new_file_name "" in
    record {
      old_file_name = strip_prefix old;
      new_file_name = strip_prefix new;
      hunks = length patch.hunks;
      is_create = is_dev_null old;
      is_delete = is_dev_null new;
      is_rename =
          not (old == "")
          && not (new == "")
          && not (strip_prefix old == strip_prefix new)
          && not (is_dev_null old)
          && not (is_dev_null new);
      is_binary = false;
    }

-- `normalizePath(parsedFile.newFileName || parsedFile.oldFileName)`
abbrev pub path_of : ParsedPatchFile → String
path_of file = normalize_slashes (or_text file.new_file_name file.old_file_name)

-- `normalizePath(stripPrefix(patch.newFileName ?? patch.oldFileName ?? ""))`
abbrev patch_path : StructuredPatch → String
patch_path patch =
    normalize_slashes (strip_prefix (or_else patch.new_file_name (or_else patch.old_file_name "")))

abbrev flat : List (List String) → List String
flat [] = []
flat (lines ∷ rest) = lines ++ flat rest

abbrev added_of : Option StructuredPatch → String
added_of none = ""
added_of (some patch) = added_text (flat patch.hunks)

-- `addedTextForFile`
unfoldable pub added_text_for_file : List StructuredPatch → String → String
unfolding normalize_slashes strip_prefix
added_text_for_file patches path =
    added_of (find (λ patch. patch_path patch == normalize_slashes path) patches)

-- `readExistingText`: what cannot be read counts as empty.
abbrev existing_text : FileTree → Tools → String → FileTexts → String → String
existing_text tree tools cwd files path =
    let absolute = path_text (resolve cwd path) in
    elim (files absolute) [
      | none ↦ ""
      | some content ↦ elim (tools.unreadable absolute) [ none ↦ content | some e ↦ "" ]
    ]

artifact_issues_of : Tools → String → String → StructuredPatch → List String
unfolding duplicate_declaration_issues artifact_quality_issues_for_text unique_strings
artifact_issues_of tools original path patch =
    let added = added_text (flat patch.hunks) in
    let removed = removed_text (flat patch.hunks) in
    let next =
      or_else (tools.apply_patch original patch false) (cat (original ∷ "\n" ∷ added ∷ [])) in
    unique_strings (
      duplicate_declaration_issues original added removed
      ++ artifact_quality_issues_for_text path next)

-- `artifactQualityIssuesForPatch` of the patch that is found for the path.
unfoldable pub artifact_issues :
    FileTree → Tools → String → FileTexts → List StructuredPatch → String → List String
unfolding artifact_issues_of strip_prefix normalize_slashes
artifact_issues tree tools cwd files patches path =
    elim (find (λ patch. patch_path patch == path) patches) [
      | none ↦ []
      | some patch ↦ artifact_issues_of tools (existing_text tree tools cwd files path) path patch
    ]

abbrev pub is_sensitive : FileRisk → Bool
is_sensitive FileRisk.sensitive = true
is_sensitive _ = false

abbrev pub issue : String → String → List PatchValidationIssue
issue path reason = record { path = path; reason = reason; category = none } ∷ []

abbrev pub quality_issue : String → String → PatchValidationIssue
quality_issue path reason = record {
  path = path;
  reason = reason;
  category = some IssueCategory.artifact_quality;
}
