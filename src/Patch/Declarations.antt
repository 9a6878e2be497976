-- ===== src/Patch/Declarations.antt =====
-- The search for declarations and headings that stand twice, src/core/patch/patchValidator.ts.
pub mod Names
unfoldable pub use tomorrowedge.Patch.Declarations.Names.{
  lines_of, top_level_declarations, duplicate_top_level_declaration_issues,
}
use tomorrowedge.Patch.Declarations.Names.{◌>>=◌, spaces, count, repeated}
use Prim.Native.Char.{code}
use tomorrowedge.Prelude.{
  ℕ, ◌+◌, String, Bool, false, not, ◌&&◌, ◌||◌, Option, none, some, List, [], ◌∷◌, ◌++◌, map, ◌==◌,
  append, cat, strip, starts_with, split_on, includes, filter, unique, eqb, leb, ltb, if◌then◌else◌,
  all_chars,
}
use tomorrowedge.ControlPlane.Workspace.{trim, trim_start, trim_end, is_space}
use tomorrowedge.Safety.Letters.{to_lower}
use tomorrowedge.Patch.Hunks.{is_line_end}
use tomorrowedge.Patch.Quality.{is_word, looks_like_mojibake, looks_like_placeholder}

-- The hash signs at the start of a line, and what stands behind them.
hashes : String → String × String
hashes String.[] = ("", "")
hashes (String.◌∷◌ c s) =
    if eqb (code c) b'#' then (append "#" (hashes s).0, (hashes s).1) else ("", String.◌∷◌ c s)

-- A title of white space only, of which the first character is the `\s+` of the heading.
blank_title : String → Option String
blank_title String.[] = none
blank_title (String.◌∷◌ c s) = if all_chars is_line_end s then none else some ""

title : String → Option String
unfolding trim_start trim_end blank_title spaces
title behind = elim (spaces behind) [
  | none ↦ none
  | some rest ↦
      let text = trim_end rest in
      let blank = blank_title behind in
      if text == ""
      then blank
      else if all_chars (λ c. not (is_line_end c)) text
      then some text
      else none
]

-- A heading by `/^(#{1,3})\s+(.+?)\s*$/`, in lower case.
heading : String → Option String
unfolding hashes title to_lower
heading line =
    let (signs, behind) = hashes line in
    if includes ("#" ∷ "##" ∷ "###" ∷ []) signs
    then (title behind >>= λ text. some (cat (signs ∷ " " ∷ to_lower text ∷ [])))
    else none

headings : List String → List String
unfolding heading
headings [] = []
headings (line ∷ lines) = elim (heading line) [
  | none ↦ headings lines
  | some h ↦ h ∷ headings lines
]

unfoldable pub duplicate_markdown_heading_issues : String → List String
unfolding headings repeated lines_of
duplicate_markdown_heading_issues content =
    map (λ h. cat ("README contains duplicate heading \"" ∷ h ∷ "\"" ∷ []))
      (repeated (headings (lines_of content)))

declaration_issue : List String → List String → List String → String → List String
unfolding count
declaration_issue added existing removed name =
    if ltb 1 (count name added)
    then append "patch adds duplicate top-level declaration " name ∷ []
    else if includes existing name && not (includes removed name)
    then cat (
        "patch adds duplicate top-level declaration " ∷ name
        ∷ " without replacing the existing implementation" ∷ [])
      ∷ []
    else []

declaration_issues : List String → List String → List String → List String → List String
unfolding declaration_issue
declaration_issues added existing removed [] = []
declaration_issues added existing removed (name ∷ names) =
    declaration_issue added existing removed name ++ declaration_issues added existing removed names

unfoldable pub duplicate_declaration_issues : String → String → String → List String
unfolding top_level_declarations declaration_issues trim
duplicate_declaration_issues original added removed =
    if trim added == ""
    then []
    else declaration_issues (top_level_declarations added) (top_level_declarations original)
        (top_level_declarations removed) (top_level_declarations added)

unfoldable pub unique_strings : List String → List String
unfolding trim unique
unique_strings values = unique [] (map trim (filter (λ v. not (trim v == "")) values))

-- `[\w-]+` up to the end of the ending.
readme_part : String → Bool
readme_part String.[] = false
readme_part (String.◌∷◌ c s) =
    (is_word (code c) || eqb (code c) b'-') && (s == ".md" || readme_part s)

-- What stands behind `README`: `(?:\.[\w-]+)?\.md$`.
readme_end : String → Bool
unfolding readme_part
readme_end String.[] = false
readme_end (String.◌∷◌ c s) = String.◌∷◌ c s == ".md" || eqb (code c) b'.' && readme_part s

-- `/README(?:\.[\w-]+)?\.md$/i`, of a path in lower case.
is_readme : String → Bool
unfolding readme_end
is_readme String.[] = false
is_readme (String.◌∷◌ c s) = elim (strip "readme" (String.◌∷◌ c s)) [
  | none ↦ is_readme s
  | some rest ↦ readme_end rest || is_readme s
]

-- `artifactQualityIssuesForText`
unfoldable pub artifact_quality_issues_for_text : String → String → List String
unfolding trim looks_like_mojibake looks_like_placeholder duplicate_top_level_declaration_issues
    is_readme to_lower duplicate_markdown_heading_issues unique_strings
artifact_quality_issues_for_text path content =
    let garbled = looks_like_mojibake content in
    let open_end = looks_like_placeholder content in
    if trim content == ""
    then []
    else unique_strings (
        (if garbled
          then "artifact text appears to contain mojibake; regenerate valid UTF-8 output" ∷ []
          else [])
        ++ (if open_end
            then "artifact contains unresolved TODO/FIXME/TBD placeholder text" ∷ []
            else [])
        ++ duplicate_top_level_declaration_issues content
        ++ (if is_readme (to_lower path) then duplicate_markdown_heading_issues content else []))
