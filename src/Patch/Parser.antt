-- ===== src/Patch/Parser.antt =====
-- `parseUnifiedDiff` of src/core/patch/patchParser.ts, with the targets of a binary patch. What the
-- package `diff` makes of a text is a parameter.
use Prim.Native.Char.{code}
use tomorrowedge.Prelude.{
  String, Bool, true, false, not, ◌&&◌, ◌||◌, Option, none, some, List, [], ◌∷◌, map, ◌==◌, strip,
  starts_with, has_text, or_else, if◌then◌else◌,
}
use tomorrowedge.ControlPlane.Specs.{Attempt, returned}
use tomorrowedge.ControlPlane.Attempts.{◌>>=◌}
use tomorrowedge.ControlPlane.Workspace.{trim, trim_start, is_space}
use tomorrowedge.Safety.Letters.{to_lower}
use tomorrowedge.Patch.Hunks.{is_line_end, normalize_hunk_counts}
use tomorrowedge.Patch.Anchors.{StructuredPatch}
use tomorrowedge.Patch.Applier.{ParsedPatchFile}
use tomorrowedge.Patch.Validator.{is_dev_null, strip_prefix, parse_file}

-- `.+ differ`
differ_follows : String → Bool
differ_follows String.[] = false
differ_follows (String.◌∷◌ c s) =
    not (is_line_end (code c)) && (starts_with s " differ" || differ_follows s)

names_binary_files : String → Bool
unfolding differ_follows
names_binary_files String.[] = false
names_binary_files (String.◌∷◌ c s) =
    let here : Bool = elim (strip "binary files " (String.◌∷◌ c s)) [
      | none ↦ false
      | some rest ↦ differ_follows rest
    ] in
    here || names_binary_files s

-- `/GIT binary patch|Binary files .+ differ/i`
unfoldable pub is_binary_diff : String → Bool
unfolding to_lower names_binary_files
is_binary_diff text =
    has_text (to_lower text) "git binary patch" || names_binary_files (to_lower text)

line_of : String → String
line_of String.[] = ""
line_of (String.◌∷◌ c s) = if is_line_end (code c) then "" else String.◌∷◌ c (line_of s)

-- The last character of a white text that ends no line.
last_blank : String → Option String
last_blank String.[] = none
last_blank (String.◌∷◌ c s) = elim (last_blank s) [
  | some blank ↦ some blank
  | none ↦ if is_line_end (code c) then none else some (String.◌∷◌ c "")
]

-- `\s+(.+)$`, where the white space may run over the ends of lines.
name_behind : String → Option String
unfolding trim_start is_space line_of last_blank
name_behind String.[] = none
name_behind (String.◌∷◌ c s) =
    let blank = last_blank s in
    if not (is_space (code c))
    then none
    else if trim_start s == ""
    then blank
    else some (line_of (trim_start s))

-- The first line that is a header with the marks; the flag tells that a line starts here.
header_name : String → Bool → String → Option String
unfolding name_behind
header_name marks starts_line String.[] = none
header_name marks starts_line (String.◌∷◌ c s) =
    let later = header_name marks (is_line_end (code c)) s in
    let here : Option String = elim (strip marks (String.◌∷◌ c s)) [
      | none ↦ none
      | some rest ↦ name_behind rest
    ] in
    if starts_line then (elim here [ none ↦ later | some name ↦ some name ]) else later

unfoldable pub parse_binary_patch_targets : String → List ParsedPatchFile
unfolding header_name strip_prefix
parse_binary_patch_targets diff =
    let old = or_else (header_name "---" true diff) "" in
    let new = or_else (header_name "+++" true diff) "" in
    record {
      old_file_name = strip_prefix old;
      new_file_name = strip_prefix new;
      hunks = 0;
      is_create = is_dev_null old;
      is_delete = is_dev_null new;
      is_rename =
          not (strip_prefix old == "")
          && not (strip_prefix new == "")
          && not (strip_prefix old == strip_prefix new);
      is_binary = true;
    }
    ∷ []

unfoldable pub parse_unified_diff :
    (String → Attempt (List StructuredPatch)) → String → Attempt (List ParsedPatchFile)
unfolding normalize_hunk_counts trim is_binary_diff parse_binary_patch_targets parse_file
parse_unified_diff parse_patch unified_diff =
    let normalized = normalize_hunk_counts unified_diff in
    if trim normalized == ""
    then returned []
    else if is_binary_diff normalized
    then returned (parse_binary_patch_targets normalized)
    else parse_patch normalized >>= λ patches. returned (map parse_file patches)
