-- ===== src/Safety/Tests.antt =====
-- Tests of the safety rules, src/safety and src/core/tools/fsTool.ts, and the theorems at concrete
-- inputs.
use tomorrowedge.Prelude.{
  ◌≡◌, refl, ◌↔◌, subst, String, true, false, some, List, [], ◌∷◌, All, join, map, split_on,
}
use tomorrowedge.ControlPlane.Specs.{returned, threw}
use tomorrowedge.Safety.Shell.{
  split_command, assess_shell_command, parse_shell_command, default_allowed_executables,
}
use tomorrowedge.Safety.Shell.Words.{write_word, split_command-write_word}
use tomorrowedge.Safety.Shell.Laws.{IsSafe, assess-IsSafe_iff}
use tomorrowedge.Safety.Inside.{
  AbsolutePath, FileTree, resolve, is_inside, resolve_inside, is_path_traversal,
}
use tomorrowedge.Safety.Inside.Names.{Plain}
use tomorrowedge.Safety.Inside.Laws.{LiesWithin, is_inside_iff}
use tomorrowedge.Safety.Inside.Resolving.{
  IsResolved, resolve_inside-IsResolved, is_path_traversal_iff,
}

splits_quotes : split_command "npm run 'a b' c\\ d" ≡ returned ("npm" ∷ "run" ∷ "a b" ∷ "c d" ∷ [])
unfolding split_command
splits_quotes = refl

keeps_open_quote : split_command "echo 'a" ≡ threw "Unclosed quote in shell command."
unfolding split_command
keeps_open_quote = refl

blocks_cased : (assess_shell_command "BASH.EXE -c ls" ("bash" ∷ [])).allowed ≡ false
unfolding assess_shell_command
blocks_cased = refl

allows_npm :
    (assess_shell_command " npm test " default_allowed_executables).argv
    ≡ some ("npm" ∷ "test" ∷ [])
unfolding assess_shell_command
allows_npm = refl

refuses_pipe : (parse_shell_command "ls | sh").allowed ≡ false
unfolding parse_shell_command
refuses_pipe = refl

resolves_dots : resolve "/srv/app" "a/./../b" ≡ "srv" ∷ "app" ∷ "b" ∷ []
unfolding resolve split_on
resolves_dots = refl

abbrev names : List String
names = "a b" ∷ "it's" ∷ "\\" ∷ []

split_command-write_word_example : split_command (join " " (map write_word names)) ≡ returned names
split_command-write_word_example =
    split_command-write_word names (λ h. cc h, (λ h. cc h, (λ h. cc h, tt)))

assess-IsSafe_iff_example :
    ((assess_shell_command "npm test" default_allowed_executables).allowed ≡ true)
    ↔ IsSafe "npm test" default_allowed_executables
        (assess_shell_command "npm test" default_allowed_executables).argv
assess-IsSafe_iff_example = assess-IsSafe_iff "npm test" default_allowed_executables

abbrev srv : AbsolutePath
srv = "srv" ∷ []

abbrev notes : AbsolutePath
notes = "srv" ∷ "..notes" ∷ []

notes-Plain : All Plain notes
notes-Plain = ((refl, refl), ((refl, refl), tt))

is_inside_iff_example : (is_inside srv notes ≡ true) ↔ LiesWithin srv notes
is_inside_iff_example = is_inside_iff srv notes notes-Plain

-- A file of the project whose name starts with two dots is taken for one outside.
dots_outside : is_inside srv notes ≡ false
unfolding is_inside
dots_outside = refl

-- Everything exists and leads to the root.
abbrev linked : FileTree
linked = record { exists = λ p. true; realpath = λ p. returned srv }

linked_named : (p q : AbsolutePath) → linked.realpath p ≡ returned q → All Plain q
linked_named p q h =
    let root_it_is : srv ≡ q = cc h in subst (All Plain) root_it_is ((refl, refl), tt)

linked_known :
    (p : AbsolutePath)
    → (linked.exists p ≡ true) ↔ ((q : AbsolutePath) × (linked.realpath p ≡ returned q))
linked_known p = (λ h. (srv, refl), λ h. refl)

resolves : resolve_inside linked "/srv" "a.ts" ≡ returned ("srv" ∷ "a.ts" ∷ [])
unfolding resolve_inside
resolves = refl

resolve_inside-IsResolved_example : IsResolved linked "/srv" "a.ts" ("srv" ∷ "a.ts" ∷ [])
resolve_inside-IsResolved_example =
    resolve_inside-IsResolved linked "/srv" "a.ts" linked_named ("srv" ∷ "a.ts" ∷ []) resolves

is_path_traversal_iff_example :
    (is_path_traversal linked "/srv" "../x" ≡ false)
    ↔ (resolve_inside linked "/srv" "../x" ≡ returned (resolve "/srv" "../x"))
is_path_traversal_iff_example = is_path_traversal_iff linked "/srv" "../x" linked_known
