-- ===== src/Patch/Hunks.antt =====
-- `normalizeUnifiedDiffHunkCounts` of src/core/patch/patchParser.ts, which counts the lines of each
-- hunk of a unified diff anew.
pub mod Headers
pub mod Laws
pub mod Counts
pub mod Texts
use Prim.Native.Char.{Char, code}
use tomorrowedge.Prelude.{
  ℕ, zero, suc, ◌+◌, String, Bool, true, false, not, ◌&&◌, ◌||◌, Option, none, some, List, [], ◌∷◌,
  ◌++◌, ◌==◌, append, cat, join, split_on, starts_with, show, eqb, leb, if◌then◌else◌, length,
  is_digit, all_chars, strip,
}

-- What `.` of a regular expression does not match.
abbrev pub is_line_end : ℕ → Bool
is_line_end c = eqb c 10 || eqb c 13 || eqb c 0x2028 || eqb c 0x2029

-- The captures of `/^@@ -(\d+)(?:,\d+)? \+(\d+)(?:,\d+)? @@(.*)$/`.
pub record HunkHeader : Type 0 where
  pub old_start : String
  pub new_start : String
  pub section : String

-- `\d*`: the digits at the start, and the text behind them.
unfoldable pub digits : String → String × String
digits String.[] = ("", "")
digits (String.◌∷◌ c s) =
    if is_digit (code c) then (String.◌∷◌ c (digits s).0, (digits s).1) else ("", String.◌∷◌ c s)

abbrev pub some_digits : String × String → Option (String × String)
some_digits (run, rest) = if run == "" then none else some (run, rest)

-- `(?:,\d+)?`
unfoldable pub skip_count : String → String
unfolding digits
skip_count s = elim (strip "," s) [
  | none ↦ s
  | some counted ↦ elim (some_digits (digits counted)) [ none ↦ s | some p ↦ p.1 ]
]

infixl 5 ◌>>=◌
abbrev pub ◌>>=◌ {ℓ κ} : {A : Type ℓ} {B : Type κ} → Option A → (A → Option B) → Option B
none >>= next = none
some a >>= next = next a

unfoldable pub match_header : String → Option HunkHeader
unfolding digits skip_count all_chars
match_header line = do
  s ← strip "@@ -" line
  (old_start, s) ← some_digits (digits s)
  s ← strip " +" (skip_count s)
  (new_start, s) ← some_digits (digits s)
  s ← strip " @@" (skip_count s)
  if all_chars (λ c. not (is_line_end c)) s
      then some (record { old_start = old_start; new_start = new_start; section = s })
      else none

unfoldable pub print_header : HunkHeader → ℕ → ℕ → String
print_header h old_lines new_lines = cat (
    "@@ -"
    ∷ h.old_start
    ∷ ","
    ∷ show old_lines
    ∷ " +"
    ∷ h.new_start
    ∷ ","
    ∷ show new_lines
    ∷ " @@"
    ∷ h.section
    ∷ [])

unfoldable pub is_patch_boundary : String → Bool
is_patch_boundary line =
    starts_with line "@@ " || starts_with line "--- " || starts_with line "diff --git "

-- An empty line is one of context.
abbrev pub as_context : String → String
as_context line = if line == "" then " " else line

-- What a line of a hunk adds to the counts: not the note on a missing newline.
unfoldable pub counts_old : String → ℕ
counts_old line =
    if starts_with line "\\ No newline"
    then 0
    else if starts_with line " " || starts_with line "-"
    then 1
    else 0

unfoldable pub counts_new : String → ℕ
counts_new line =
    if starts_with line "\\ No newline"
    then 0
    else if starts_with line " " || starts_with line "+"
    then 1
    else 0

-- The state of the inner loop, with the lines from `cursor` on.
pub record Hunk : Type 0 where
  pub hunk_lines : List String
  pub old_lines : ℕ
  pub new_lines : ℕ
  pub remaining : List String

abbrev pub add_line : Hunk → String → Hunk
add_line hunk line = record hunk {
  hunk_lines = hunk.hunk_lines ++ line ∷ [];
  old_lines = hunk.old_lines + counts_old line;
  new_lines = hunk.new_lines + counts_new line;
}

-- The inner loop.
unfoldable pub collect_hunk : Hunk → List String → Hunk
unfolding is_patch_boundary counts_old counts_new
collect_hunk hunk [] = record hunk { remaining = [] }
collect_hunk hunk (raw ∷ lines) =
    let further = collect_hunk (add_line hunk (as_context raw)) lines in
    if is_patch_boundary raw then record hunk { remaining = raw ∷ lines } else further

abbrev pub empty_hunk : Hunk
empty_hunk = record { hunk_lines = []; old_lines = 0; new_lines = 0; remaining = [] }

-- The outer loop; the fuel is the number of lines, of which each round takes one at least.
unfoldable pub normalize_lines : ℕ → List String → List String
unfolding collect_hunk match_header print_header
normalize_lines zero lines = []
normalize_lines (suc fuel) [] = []
normalize_lines (suc fuel) (header ∷ lines) =
    let hunk = collect_hunk empty_hunk lines in
    let plain = normalize_lines fuel lines in
    let behind = normalize_lines fuel hunk.remaining in
    elim (match_header header) [
      | none ↦ header ∷ plain
      | some h ↦ print_header h hunk.old_lines hunk.new_lines ∷ hunk.hunk_lines ++ behind
    ]

unfoldable pub normalize_hunk_counts : String → String
unfolding normalize_lines
normalize_hunk_counts unified_diff =
    let lines = split_on "\n" unified_diff in join "\n" (normalize_lines (length lines) lines)
