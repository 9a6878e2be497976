-- ===== src/Safety/Shell.antt =====
-- The shell guard, src/safety/shellGuard.ts: the splitting of a command into words and the tests
-- that a command passes before it runs.
pub mod Words
pub mod Characters
pub mod Executables
pub mod Laws
use Prim.Native.Char.{Char, code}
use tomorrowedge.Prelude.{
  ℕ, String, Bool, true, false, not, ◌&&◌, ◌||◌, Option, none, some, List, [], ◌∷◌, ◌++◌, map, ◌==◌,
  append, cat, includes, eqb, if◌then◌else◌, is_some, is_empty,
}
use tomorrowedge.ControlPlane.Specs.{Attempt, returned, threw}
use tomorrowedge.ControlPlane.Workspace.{is_space, trim}
use tomorrowedge.Safety.Letters.{to_lower}

pub record ShellRisk : Type 0 where
  pub allowed : Bool
  pub reason : String
  pub argv : Option (List String)

abbrev pub blocked_executables : List String
blocked_executables =
    "rm" ∷ "del" ∷ "erase" ∷ "rmdir" ∷ "shutdown" ∷ "reboot" ∷ "format" ∷ "mkfs" ∷ "curl" ∷ "wget"
    ∷ "powershell" ∷ "pwsh" ∷ "cmd" ∷ "bash" ∷ "sh" ∷ []

abbrev pub default_allowed_executables : List String
default_allowed_executables =
    "npm" ∷ "node" ∷ "npx" ∷ "pnpm" ∷ "yarn" ∷ "python" ∷ "python3" ∷ "pytest" ∷ "tsx" ∷ "tsc"
    ∷ "vitest" ∷ "jest" ∷ "cargo" ∷ "rustc" ∷ "make" ∷ "cmake" ∷ "go" ∷ "uv" ∷ "pip" ∷ "bun"
    ∷ "deno" ∷ []

unfoldable pub is_shell_character : ℕ → Bool
is_shell_character c =
    eqb c b';'
    || eqb c b'&'
    || eqb c b'|'
    || eqb c b'`'
    || eqb c b'<'
    || eqb c b'>'
    || eqb c 13
    || eqb c 10

-- `$` behind which `(` stands.
abbrev pub opens_call : ℕ → String → Bool
opens_call c String.[] = false
opens_call c (String.◌∷◌ d s) = eqb c b'$' && eqb (code d) b'('

-- `/[;&|`<>]|\$\(|\r|\n/.test(s)`
unfoldable pub has_metacharacters : String → Bool
unfolding is_shell_character
has_metacharacters String.[] = false
has_metacharacters (String.◌∷◌ c s) =
    is_shell_character (code c) || opens_call (code c) s || has_metacharacters s

abbrev pub is_quote : ℕ → Bool
is_quote c = eqb c 39 || eqb c 34

-- The characters that a backslash stands before to be taken as they are.
unfoldable pub needs_escape : ℕ → Bool
unfolding is_space
needs_escape c = is_space c || eqb c 92 || is_quote c

abbrev pub single : Char → String
single c = String.◌∷◌ c String.[]

-- The next character, where a backslash before it is an escape.
abbrev pub escaped_next : String → Option Char
escaped_next String.[] = none
escaped_next (String.◌∷◌ d s) = if needs_escape (code d) then some d else none

abbrev pub closes : Option ℕ → ℕ → Bool
closes none c = false
closes (some q) c = eqb c q

-- `if (current) tokens.push(current)`
abbrev pub push_token : List String → String → List String
push_token tokens current = if current == "" then tokens else tokens ++ current ∷ []

-- The loop of `splitCommand`. Where `skip` is true the character has been taken with the backslash
-- before it (`index += 1`).
unfoldable pub split_from : List String → String → Option ℕ → Bool → String → Attempt (List String)
unfolding needs_escape is_space
split_from tokens current quote skip String.[] =
    if is_some quote
    then threw "Unclosed quote in shell command."
    else returned (push_token tokens current)
split_from tokens current quote true (String.◌∷◌ c s) = split_from tokens current quote false s
split_from tokens current quote false (String.◌∷◌ c s) =
    let kept = split_from tokens (append current (single c)) quote false s in
    let opened = split_from tokens current (some (code c)) false s in
    let closed = split_from tokens current none false s in
    let ended = split_from (push_token tokens current) "" quote false s in
    let escaped = λ (d : Char). split_from tokens (append current (single d)) quote true s in
    if eqb (code c) 92
    then (elim (escaped_next s) [ none ↦ kept | some d ↦ escaped d ])
    else if is_quote (code c) && not (is_some quote)
    then opened
    else if closes quote (code c)
    then closed
    else if is_space (code c) && not (is_some quote)
    then ended
    else kept

unfoldable pub split_command : String → Attempt (List String)
unfolding split_from
split_command command = split_from [] "" none false command

-- `.replace(/\.(cmd|exe|bat|ps1)$/i, "")`: the ending is dropped where it stands last.
drop_extension : String → String
unfolding to_lower
drop_extension String.[] = ""
drop_extension (String.◌∷◌ c s) =
    let rest = drop_extension s in
    if includes (".cmd" ∷ ".exe" ∷ ".bat" ∷ ".ps1" ∷ []) (to_lower (String.◌∷◌ c s))
    then ""
    else String.◌∷◌ c rest

unfoldable pub normalize_executable : String → String
unfolding to_lower drop_extension
normalize_executable executable = drop_extension (to_lower executable)

abbrev refused : String → ShellRisk
refused reason = record { allowed = false; reason = reason; argv = none }

-- What both entries share: the tests of the text, and the words of the command.
words_of : String → String → Attempt (List String)
unfolding trim has_metacharacters split_command
words_of metacharacter_reason command =
    let trimmed = trim command in
    if trimmed == ""
    then threw "empty shell command"
    else if has_metacharacters trimmed
    then threw metacharacter_reason
    else split_command trimmed

-- The last two tests, on whether the executable is dangerous and whether it is listed.
abbrev judged_words : Bool → Bool → String → List String → ShellRisk
judged_words true listed file args = refused (cat ("dangerous executable blocked: " ∷ file ∷ []))
judged_words false false file args =
    refused (cat ("executable is not in the safe verification allowlist: " ∷ file ∷ []))
judged_words false true file args = record {
  allowed = true;
  reason = "safe verification command";
  argv = some (file ∷ args);
}

assess_words : List String → List String → ShellRisk
unfolding normalize_executable
assess_words allowed_executables [] = refused "empty shell command"
assess_words allowed_executables (file ∷ args) =
    let executable = normalize_executable file in
    let blocked = includes blocked_executables executable in
    let listed = includes (map normalize_executable allowed_executables) executable in
    judged_words blocked listed file args

-- The `catch` of the splitting, and what is done with the words.
abbrev caught : (List String → ShellRisk) → Attempt (List String) → ShellRisk
caught next (threw reason) = refused reason
caught next (returned argv) = next argv

unfoldable pub assess_shell_command : String → List String → ShellRisk
unfolding words_of assess_words
assess_shell_command command allowed_executables =
    caught (assess_words allowed_executables)
      (words_of "shell metacharacters are blocked in TomorrowEdge full/partial execution" command)

abbrev parsed : List String → ShellRisk
parsed argv =
    if is_empty argv
    then refused "empty shell command"
    else record { allowed = true; reason = "parsed command"; argv = some argv }

unfoldable pub parse_shell_command : String → ShellRisk
unfolding words_of
parse_shell_command command =
    caught parsed
      (words_of "shell metacharacters are blocked; pass a single executable plus arguments" command)
