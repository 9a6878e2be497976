-- ===== src/Patch/Anchors.antt =====
-- The two fallbacks of src/core/patch/patchApplier.ts for a hunk that does not apply where it
-- says: `applyUniqueDeletionAnchoredPatch` looks for the removed lines, and
-- `applyUniqueChangedSubstringPatch` for what changes within one line.
pub mod Lines
pub mod Substrings
use Prim.Native.Char.{Char, code}
use tomorrowedge.Prelude.{
  ℕ, zero, suc, ◌+◌, String, Bool, true, false, not, ◌&&◌, ◌||◌, Option, none, some, List, [], ◌∷◌,
  ◌++◌, map, ◌==◌, append, join, split_on, starts_with, eqb, ltb, if◌then◌else◌, length, is_empty,
  filter,
}

-- A file of a parsed patch, as the package `diff` gives it: the names and the lines of each hunk.
pub record StructuredPatch : Type 0 where
  pub old_file_name : Option String
  pub new_file_name : Option String
  pub hunks : List (List String)

-- `line.slice(1)`
abbrev pub rest_of : String → String
rest_of String.[] = ""
rest_of (String.◌∷◌ c s) = s

unfoldable pub lines_with : String → List String → List String
lines_with sign lines = map rest_of (filter (λ line. starts_with line sign) lines)

-- `removedLines.every((line, offset) => lines[index + offset] === line)`, of the lines from `index`
-- on: the lines behind the removed ones.
unfoldable pub behind : List String → List String → Option (List String)
behind [] lines = some lines
behind (r ∷ rs) [] = none
behind (r ∷ rs) (l ∷ ls) = if r == l then behind rs ls else none

-- A place where the removed lines stand: the lines in front of it, and those behind it.
abbrev pub Place : Type 0
Place = List String × List String

abbrev pub one_line_on : String → Place → Place
one_line_on l (front, back) = (l ∷ front, back)

abbrev pub place_here : Option (List String) → List Place
place_here none = []
place_here (some back) = ([], back) ∷ []

-- The loop that collects the indices at which the removed lines stand.
unfoldable pub places : List String → List String → List Place
unfolding behind
places removed [] = place_here (behind removed [])
places removed (l ∷ ls) =
    place_here (behind removed (l ∷ ls)) ++ map (one_line_on l) (places removed ls)

-- `lines.splice(matches[0], removedLines.length, ...addedLines)`, if there is one match.
abbrev pub spliced : List String → List Place → Option (List String)
spliced added [] = none
spliced added ((front, back) ∷ []) = some (front ++ added ++ back)
spliced added (p ∷ q ∷ ps) = none

unfoldable pub replace_lines : List String → List String → List String → Option (List String)
unfolding places
replace_lines removed added lines =
    if is_empty removed then none else spliced added (places removed lines)

unfoldable pub apply_unique_deletion_anchored : String → List (List String) → Option String
unfolding replace_lines lines_with
apply_unique_deletion_anchored next [] = some next
apply_unique_deletion_anchored next (hunk ∷ hunks) =
    let lines = replace_lines (lines_with "-" hunk) (lines_with "+" hunk) (split_on "\n" next) in
    elim lines [ none ↦ none | some ls ↦ apply_unique_deletion_anchored (join "\n" ls) hunks ]

abbrev pub text_length : String → ℕ
text_length String.[] = 0
text_length (String.◌∷◌ c s) = suc (text_length s)

-- What stands behind the longest common beginning: the loop over `prefixLength`.
unfoldable pub behind_prefix : String → String → String × String
behind_prefix (String.◌∷◌ c s) (String.◌∷◌ d t) =
    let further = behind_prefix s t in
    if eqb (code c) (code d) then further else (String.◌∷◌ c s, String.◌∷◌ d t)
behind_prefix s t = (s, t)

abbrev pub turned_onto : String → String → String
turned_onto String.[] t = t
turned_onto (String.◌∷◌ c s) t = turned_onto s (String.◌∷◌ c t)

-- What stands in front of the longest common end: the loop over `suffixLength`, which stays behind
-- the common beginning.
unfoldable pub before_suffix : String → String → String × String
unfolding behind_prefix
before_suffix s t =
    let (s', t') = behind_prefix (turned_onto s "") (turned_onto t "") in
    (turned_onto s' "", turned_onto t' "")

abbrev pub worthwhile : String → String → Option (String × String)
worthwhile old_text new_text =
    if old_text == "" || ltb 80 (text_length old_text) || old_text == new_text
    then none
    else some (old_text, new_text)

unfoldable pub changed_substring : String → String → Option (String × String)
unfolding behind_prefix before_suffix
changed_substring old_line new_line =
    let (old_rest, new_rest) = behind_prefix old_line new_line in
    let (old_text, new_text) = before_suffix old_rest new_rest in worthwhile old_text new_text

-- `countOccurrences`, of a needle that is not empty; what an occurrence covers is skipped.
unfoldable pub count_from : String → ℕ → String → ℕ
count_from needle skip String.[] = 0
count_from needle (suc skip) (String.◌∷◌ c s) = count_from needle skip s
count_from needle zero (String.◌∷◌ c s) =
    let found = starts_with (String.◌∷◌ c s) needle in
    (if found then 1 else 0)
    + count_from needle (if found then text_length (rest_of needle) else 0) s

unfoldable pub count_occurrences : String → String → ℕ
unfolding count_from
count_occurrences source needle = count_from needle 0 source

-- The replacement text of `replace`, in which `$$`, `$&`, `` $` `` and `$'` stand for a dollar sign,
-- the match, and the text before and behind it. The flag tells that a dollar sign stands before.
unfoldable pub expand : String → String → String → Bool → String → String
expand front match back false String.[] = ""
expand front match back true String.[] = "$"
expand front match back false (String.◌∷◌ c s) =
    let plain = String.◌∷◌ c (expand front match back false s) in
    let dollar = expand front match back true s in if eqb (code c) b'$' then dollar else plain
expand front match back true (String.◌∷◌ c s) =
    let rest = expand front match back false s in
    if eqb (code c) b'$'
    then append "$" rest
    else if eqb (code c) b'&'
    then append match rest
    else if eqb (code c) b'`'
    then append front rest
    else if eqb (code c) 39
    then append back rest
    else append "$" (String.◌∷◌ c rest)

-- What stands behind a beginning of the text.
abbrev pub drop_text : ℕ → String → String
drop_text zero s = s
drop_text (suc n) String.[] = ""
drop_text (suc n) (String.◌∷◌ c s) = drop_text n s

-- `s.replace(needle, newText)` for a text `needle`: its first occurrence.
unfoldable pub replace_first : String → String → String → String → String
unfolding expand
replace_first front needle new_text String.[] = ""
replace_first front needle new_text (String.◌∷◌ c s) =
    let back = drop_text (text_length needle) (String.◌∷◌ c s) in
    let further = replace_first (append front (String.◌∷◌ c String.[])) needle new_text s in
    if starts_with (String.◌∷◌ c s) needle
    then append (expand front needle back false new_text) back
    else String.◌∷◌ c further

abbrev pub single_line : List String → Option String
single_line (line ∷ []) = some line
single_line _ = none

abbrev replaced_in : String → Option (String × String) → Option String
replaced_in next none = none
replaced_in next (some (old_text, new_text)) =
    if eqb (count_occurrences next old_text) 1
    then some (replace_first "" old_text new_text next)
    else none

-- One hunk of `applyUniqueChangedSubstringPatch`.
unfoldable pub replace_substring : List String → String → Option String
unfolding lines_with changed_substring count_occurrences replace_first
replace_substring hunk next = elim (single_line (lines_with "-" hunk)) [
  | none ↦ none
  | some removed ↦ elim (single_line (lines_with "+" hunk)) [
    | none ↦ none
    | some added ↦ replaced_in next (changed_substring removed added)
  ]
]

unfoldable pub apply_unique_changed_substring : String → List (List String) → Option String
unfolding replace_substring
apply_unique_changed_substring next [] = some next
apply_unique_changed_substring next (hunk ∷ hunks) = elim (replace_substring hunk next) [
  | none ↦ none
  | some s ↦ apply_unique_changed_substring s hunks
]
