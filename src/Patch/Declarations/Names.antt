-- ===== src/Patch/Declarations/Names.antt =====
-- The names that a text declares, src/core/patch/patchValidator.ts, its regular expressions written
-- out.
use Prim.Native.Char.{code}
use tomorrowedge.Prelude.{
  ℕ, ◌+◌, String, Bool, not, ◌&&◌, ◌||◌, Option, none, some, List, [], ◌∷◌, map, ◌==◌, append,
  strip, starts_with, split_on, filter, unique, eqb, leb, ltb, if◌then◌else◌,
}
use tomorrowedge.ControlPlane.Workspace.{trim_start, is_space}
use tomorrowedge.Patch.Quality.{is_word}

-- A line without the carriage return at its end.
drop_return : String → String
drop_return String.[] = ""
drop_return (String.◌∷◌ c s) =
    if eqb (code c) 13 && s == "" then "" else String.◌∷◌ c (drop_return s)

-- `text.split(/\r?\n/)`
unfoldable pub lines_of : String → List String
unfolding drop_return split_on
lines_of text = returns (split_on "\n" text)
  where
    returns : List String → List String
    returns [] = []
    returns (l ∷ []) = l ∷ []
    returns (l ∷ m ∷ ls) = drop_return l ∷ returns (m ∷ ls)

infixl 5 ◌>>=◌
abbrev pub ◌>>=◌ {ℓ κ} : {A : Type ℓ} {B : Type κ} → Option A → (A → Option B) → Option B
none >>= next = none
some a >>= next = next a

-- `\s+`
unfoldable pub spaces : String → Option String
unfolding trim_start is_space
spaces String.[] = none
spaces (String.◌∷◌ c s) = if is_space (code c) then some (trim_start s) else none

-- A keyword, and the white space behind it.
keyword : String → String → Option String
unfolding spaces
keyword word s = strip word s >>= spaces

abbrev or_text : Option String → String → String
or_text none s = s
or_text (some t) s = t

-- `[\w$]`
abbrev is_name : ℕ → Bool
is_name c = is_word c || eqb c b'$'

-- `[A-Za-z_$]`
abbrev starts_name : ℕ → Bool
starts_name c = is_name c && not (leb b'0' c && leb c b'9')

-- The longest beginning of characters of names that ends with a word's end: dollar signs at its
-- end are left out.
name_run : String → String
name_run String.[] = ""
name_run (String.◌∷◌ c s) =
    let rest = name_run s in
    if not (is_name (code c))
    then ""
    else if eqb (code c) b'$' && rest == ""
    then ""
    else String.◌∷◌ c rest

identifier : String → Option String
unfolding name_run
identifier String.[] = none
identifier (String.◌∷◌ c s) =
    let run = name_run (String.◌∷◌ c s) in
    if starts_name (code c) && not (run == "") then some run else none

abbrev first_match : Option String → Option String → Option String
first_match none b = b
first_match (some a) b = some a

-- What stands behind `(?:(?:async\s+)?function|class)\s+`.
function_or_class : String → Option String
unfolding keyword
function_or_class s =
    first_match (keyword "function" (or_text (keyword "async" s) s)) (keyword "class" s)

variable : String → Option String
unfolding keyword
variable s = first_match (keyword "const" s) (first_match (keyword "let" s) (keyword "var" s))

-- The name that a line declares, if it declares one at the top level.
declared_name : String → Option String
unfolding function_or_class variable identifier keyword
declared_name line =
    let behind = or_text (keyword "export" line) line in
    first_match (function_or_class behind >>= identifier) (variable behind >>= identifier)

abbrev is_top_level : String → Bool
is_top_level raw =
    let line = trim_start raw in
    not (line == "") && (not (ltb 0 (indent raw)) || starts_with line "export ")
  where
    indent : String → ℕ
    indent String.[] = 0
    indent (String.◌∷◌ c s) = if is_space (code c) then 1 else 0

-- The names of `topLevelDeclarations`.
declared_names : List String → List String
unfolding declared_name trim_start is_space
declared_names [] = []
declared_names (raw ∷ lines) =
    let rest = declared_names lines in
    if is_top_level raw
    then (elim (declared_name (trim_start raw)) [ none ↦ rest | some name ↦ name ∷ rest ])
    else rest

unfoldable pub top_level_declarations : String → List String
unfolding declared_names lines_of
top_level_declarations text = declared_names (lines_of text)

unfoldable pub count : String → List String → ℕ
count value [] = 0
count value (v ∷ vs) = (if v == value then 1 else 0) + count value vs

-- The values of `countBy` that stand more than once, in the order in which they first stand.
unfoldable pub repeated : List String → List String
unfolding count unique
repeated values = filter (λ v. ltb 1 (count v values)) (unique [] values)

unfoldable pub duplicate_top_level_declaration_issues : String → List String
unfolding top_level_declarations repeated
duplicate_top_level_declaration_issues content =
    map (append "artifact contains duplicate top-level declaration ")
      (repeated (top_level_declarations content))
