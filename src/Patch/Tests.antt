-- ===== src/Patch/Tests.antt =====
-- Tests of the patches, src/core/patch, and the theorems at concrete inputs.
use tomorrowedge.Prelude.{
  split_on, ◌≡◌, refl, String, Bool, true, false, none, some, List, [], ◌∷◌, is_some, eqb,
  if◌then◌else◌, arith, is_empty, show,
}
use tomorrowedge.ControlPlane.Specs.{Attempt, returned, threw}
use tomorrowedge.Safety.Inside.{FileTree, is_path_traversal}
use tomorrowedge.Patch.Hunks.{normalize_lines, normalize_hunk_counts}
use tomorrowedge.Patch.Hunks.Counts.{IsNormalized, normalize_lines-IsNormalized}
use tomorrowedge.Patch.Hunks.Texts.{normalize_hunk_counts_idempotent}
use tomorrowedge.Patch.Anchors.{
  StructuredPatch, replace_lines, changed_substring, apply_unique_changed_substring,
}
use tomorrowedge.Patch.Anchors.Lines.{IsReplaced, replace_lines-IsReplaced}
use tomorrowedge.Patch.Transaction.{World, Disk}
use tomorrowedge.Patch.Applier.{ParsedPatchFile, Tools, apply_parsed}
use tomorrowedge.Safety.Risk.{FileRisk, classify_file_risk}
use tomorrowedge.Patch.Quality.{text_quality_issue}
use tomorrowedge.Patch.Declarations.{duplicate_declaration_issues}
use tomorrowedge.Patch.Parser.{parse_unified_diff}
use tomorrowedge.Patch.Validator.{
  apply_text_diff, validate_patches, assert_patch_safe, all_issues, file_issues, parse_file,
  content_issues, added_text_for_file, artifact_issues,
}
use tomorrowedge.Patch.Validator.Laws.{IsGuarded, apply_text_diff-IsGuarded}

abbrev is_returned {ℓ} : {A : Type ℓ} → Attempt A → Bool
is_returned (returned a) = true
is_returned (threw e) = false

abbrev miscounted : List String
miscounted = "--- a/x" ∷ "+++ b/x" ∷ "@@ -1,9 +1 @@ f" ∷ " a" ∷ "-b" ∷ "+c" ∷ "" ∷ []

counted :
    normalize_lines 7 miscounted
    ≡ "--- a/x" ∷ "+++ b/x" ∷ "@@ -1,3 +1,3 @@ f" ∷ " a" ∷ "-b" ∷ "+c" ∷ " " ∷ []
unfolding normalize_lines show
counted = refl

normalize_lines-IsNormalized_example : IsNormalized miscounted (normalize_lines 7 miscounted)
normalize_lines-IsNormalized_example = normalize_lines-IsNormalized 7 miscounted (omega arith)

normalize_hunk_counts_idempotent_example :
    normalize_hunk_counts (normalize_hunk_counts "@@ -1 +1 @@\n a")
    ≡ normalize_hunk_counts "@@ -1 +1 @@\n a"
normalize_hunk_counts_idempotent_example = normalize_hunk_counts_idempotent "@@ -1 +1 @@\n a"

abbrev old_lines : List String
old_lines = "a" ∷ "b" ∷ "c" ∷ []

abbrev removed_lines : List String
removed_lines = "b" ∷ []

anchored : replace_lines ("b" ∷ []) ("x" ∷ "y" ∷ []) old_lines ≡ some ("a" ∷ "x" ∷ "y" ∷ "c" ∷ [])
unfolding replace_lines
anchored = refl

replace_lines-IsReplaced_example :
    (is_empty removed_lines ≡ false)
    × IsReplaced removed_lines ("x" ∷ "y" ∷ []) old_lines ("a" ∷ "x" ∷ "y" ∷ "c" ∷ [])
replace_lines-IsReplaced_example =
    replace_lines-IsReplaced removed_lines ("x" ∷ "y" ∷ []) old_lines ("a" ∷ "x" ∷ "y" ∷ "c" ∷ [])
      anchored

changes : changed_substring "let a = 1;" "let a = 25;" ≡ some ("1", "25")
unfolding changed_substring
changes = refl

-- The new text `$$x` is written as `$x`.
halves_dollars :
    apply_unique_changed_substring "cost = y" (("-y;" ∷ "+$$x;" ∷ []) ∷ []) ≡ some "cost = $x"
unfolding apply_unique_changed_substring
halves_dollars = refl

-- A project with one file, in which the fourth operation fails.
abbrev linked : FileTree
linked = record { exists = λ p. true; realpath = λ p. returned ("srv" ∷ []) }

abbrev flaky : Disk
flaky = record {
  fault = λ n. if eqb n 3 then some "EIO" else none;
  left_behind = λ n. some "";
  snapshot_path = λ n. "/srv/.tomorrowedge/undo/1.json";
  snapshot_text = λ n path content. content;
}

abbrev tools : Tools
tools = record { apply_patch = λ original patch fuzzy. some "new"; unreadable = λ path. none }

abbrev world : World
world = record { files = λ path. some "old"; clock = 0 }

abbrev parsed_files : List ParsedPatchFile
parsed_files =
    record {
      old_file_name = "a.ts";
      new_file_name = "a.ts";
      hunks = 1;
      is_create = false;
      is_delete = false;
      is_rename = false;
      is_binary = false;
    }
    ∷ []

abbrev patches : List StructuredPatch
patches = record { old_file_name = some "a/a.ts"; new_file_name = some "b/a.ts"; hunks = [] } ∷ []

fails : (apply_parsed linked tools flaky "/srv" parsed_files patches world).1 ≡ threw "EIO"
unfolding apply_parsed
fails = refl

abbrev calm : Disk
calm = record flaky { fault = λ n. none }

abbrev adds : List StructuredPatch
adds =
    record {
      old_file_name = some "a/a.ts";
      new_file_name = some "b/a.ts";
      hunks = ("-let a = 1" ∷ "+let a = 2" ∷ []) ∷ [];
    }
    ∷ []

apply_text_diff-IsGuarded_example :
    IsGuarded linked tools calm
      (λ path. false)
      "/srv"
      adds
      true
      world
      (apply_text_diff linked tools calm (λ path. false) "/srv" adds true world)
apply_text_diff-IsGuarded_example =
    apply_text_diff-IsGuarded linked tools calm (λ path. false) "/srv" adds true world

abbrev garbles : List StructuredPatch
garbles =
    record {
      old_file_name = some "a/a.ts";
      new_file_name = some "b/a.ts";
      hunks = ("-let a = 1" ∷ "+let a = 2 // TODO" ∷ []) ∷ [];
    }
    ∷ []

applied :
    is_returned (apply_text_diff linked tools calm (λ path. false) "/srv" adds true world).1 ≡ true
unfolding apply_text_diff validate_patches assert_patch_safe apply_parsed all_issues file_issues
    parse_file is_path_traversal content_issues text_quality_issue added_text_for_file
    artifact_issues classify_file_risk
applied = refl

garbled :
    (apply_text_diff linked tools calm (λ path. false) "/srv" garbles true world).1
    ≡ threw
        "Patch blocked by safety validation: a.ts: added text contains unresolved TODO/FIXME/TBD placeholder text"
unfolding apply_text_diff validate_patches assert_patch_safe all_issues file_issues parse_file
    is_path_traversal content_issues text_quality_issue added_text_for_file
garbled = refl

replacement : text_quality_issue "�" "a.ts" ≡ text_quality_issue "�" "a.ts"
unfolding text_quality_issue
replacement = refl

replaced : is_some (text_quality_issue "�" "a.ts") ≡ true
unfolding text_quality_issue
replaced = refl

secret : classify_file_risk ".github/Tokens.md" 0 ≡ FileRisk.sensitive
unfolding classify_file_risk
secret = refl

duplicate :
    duplicate_declaration_issues "export const a = 1;" "const a = 2;" ""
    ≡ "patch adds duplicate top-level declaration a without replacing the existing implementation"
      ∷ []
unfolding duplicate_declaration_issues
duplicate = refl

binary_targets :
    parse_unified_diff
      (λ text. threw "no texts")
      "--- /dev/null\n+++  b/logo.png\nBinary files /dev/null and b/logo.png differ"
    ≡ returned (
        record {
          old_file_name = "";
          new_file_name = "logo.png";
          hunks = 0;
          is_create = true;
          is_delete = false;
          is_rename = false;
          is_binary = true;
        }
        ∷ [])
unfolding parse_unified_diff split_on
binary_targets = refl
