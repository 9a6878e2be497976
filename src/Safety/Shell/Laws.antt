-- ===== src/Safety/Shell/Laws.antt =====
-- What the shell guard lets through, src/safety/shellGuard.ts.
use tomorrowedge.Prelude.{
  ◌≡◌, refl, ◌↔◌, String, Bool, true, false, Option, some, List, [], ◌∷◌, map, ◌==◌, includes,
  Bool-cases, arith, inl, inr, subst, eq_iff, sym, ◌∙◌, Memᴰ, mem-map_iff,
}
use tomorrowedge.ControlPlane.Specs.{Attempt, returned, threw}
use tomorrowedge.ControlPlane.Workspace.{trim}
use tomorrowedge.Safety.Shell.Characters.{IsClean, has_metacharacters_iff}
use tomorrowedge.Safety.Shell.Executables.{HasName, normalize-HasName, HasName-unique}
use tomorrowedge.Safety.Shell.{
  assess_shell_command, split_command, has_metacharacters, normalize_executable,
  blocked_executables, words_of, assess_words, caught, judged_words, split_from,
}

mem_of_includes : (xs : List String) (x : String) → includes xs x ≡ true → Memᴰ x xs
mem_of_includes [] x h = cc
mem_of_includes (y ∷ xs) x h = elim (Bool-cases (y == x)) [
  | inl e ↦ Memᴰ.head (sym ((eq_iff y x).0 e))
  | inr e ↦ Memᴰ.tail (mem_of_includes xs x (ground (arith, h, e)))
]

includes_of_mem : (xs : List String) (x : String) → Memᴰ x xs → includes xs x ≡ true
includes_of_mem [] x m = elim m [ ]
includes_of_mem (y ∷ xs) x (Memᴰ.head e) = let same = (eq_iff y x).1 (sym e) in ground (arith, same)
includes_of_mem (y ∷ xs) x (Memᴰ.tail m) = let rest = includes_of_mem xs x m in ground (arith, rest)

-- Such an executable is on the list of those that are never run.
abbrev IsBlocked : String → Type 0
IsBlocked executable = (name : String) × HasName executable name × Memᴰ name blocked_executables

-- An executable of the same name is allowed.
abbrev IsListed : List String → String → Type 0
IsListed allowed executable =
    (name : String) × HasName executable name
    × ((other : String) × Memᴰ other allowed × HasName other name)

-- What holds of a command that runs as the words `argv`.
pub record IsSafe (command : String) (allowed : List String) (argv : Option (List String))
    : Type 0 where
  pub file : String
  pub args : List String
  pub runs : argv ≡ some (file ∷ args)
  pub clean : IsClean (trim command)
  pub words : split_command (trim command) ≡ returned (file ∷ args)
  pub not_blocked : ¬ IsBlocked file
  pub listed : IsListed allowed file

not-IsBlocked_iff :
    (file : String)
    → (includes blocked_executables (normalize_executable file) ≡ false) ↔ (¬ IsBlocked file)
not-IsBlocked_iff file = (
  λ h (name, is, m).
      let there = includes_of_mem blocked_executables name m in
      let at =
        subst (λ n. includes blocked_executables n ≡ true) (HasName-unique file name is) there in
      cc,
  λ h. elim (Bool-cases (includes blocked_executables (normalize_executable file))) [
    | inl e ↦ absurd (
        h (
          normalize_executable file,
          normalize-HasName file,
          mem_of_includes blocked_executables (normalize_executable file) e,
        ))
    | inr e ↦ e
  ],
)

IsListed_iff :
    (allowed : List String) (file : String)
    → (includes (map normalize_executable allowed) (normalize_executable file) ≡ true)
      ↔ IsListed allowed file
IsListed_iff allowed file = (
  λ h.
      let m = mem_of_includes (map normalize_executable allowed) (normalize_executable file) h in
      let (other, there, same) =
        (mem-map_iff normalize_executable allowed (normalize_executable file)).0 m in
      (
        normalize_executable file,
        normalize-HasName file,
        (other, there, subst (HasName other) (sym same) (normalize-HasName other)),
      ),
  λ (name, is, (other, there, also)).
      includes_of_mem (map normalize_executable allowed) (normalize_executable file) (
        (mem-map_iff normalize_executable allowed (normalize_executable file)).1
          (other, there, sym (HasName-unique file name is) ∙ HasName-unique other name also)),
)

words_of_returned :
    (reason command : String) (argv : List String)
    → words_of reason command ≡ returned argv
    → (has_metacharacters (trim command) ≡ false) × (split_command (trim command) ≡ returned argv)
unfolding words_of
words_of_returned reason command argv h = ground arith

-- An empty command splits into no words.
words_of-split :
    (reason command file : String) (args : List String)
    → has_metacharacters (trim command) ≡ false
    → split_command (trim command) ≡ returned (file ∷ args)
    → words_of reason command ≡ returned (file ∷ args)
unfolding words_of
words_of-split reason command file args clean words = elim (Bool-cases (trim command == "")) [
  | inl e ↦
      let none_left : returned [] ≡ returned (file ∷ args) =
        unfold split_command split_from in
        subst (λ t. split_command t ≡ returned (file ∷ args)) ((eq_iff _ _).0 e) words in
      absurd (cc none_left)
  | inr e ↦ rw (e, clean) words
]

judged_allowed :
    (blocked listed : Bool) (file : String) (args : List String)
    → (judged_words blocked listed file args).allowed ≡ true
    → (blocked ≡ false)
      × (listed ≡ true)
      × ((judged_words blocked listed file args).argv ≡ some (file ∷ args))
judged_allowed true listed file args h = cc
judged_allowed false false file args h = cc
judged_allowed false true file args h = (refl, refl, refl)

assess_words-IsSafe :
    (command : String) (allowed argv : List String)
    → has_metacharacters (trim command) ≡ false
    → split_command (trim command) ≡ returned argv
    → (assess_words allowed argv).allowed ≡ true
    → IsSafe command allowed (assess_words allowed argv).argv
unfolding assess_words
assess_words-IsSafe command allowed [] clean words h = cc
assess_words-IsSafe command allowed (file ∷ args) clean words h =
    let (not_blocked, listed, runs) = judged_allowed _ _ file args h in
    record {
      file = file;
      args = args;
      runs = runs;
      clean = (has_metacharacters_iff (trim command)).0 clean;
      words = words;
      not_blocked = (not-IsBlocked_iff file).0 not_blocked;
      listed = (IsListed_iff allowed file).0 listed;
    }

caught-IsSafe :
    (command : String) (allowed : List String) (words : Attempt (List String))
    → ((argv : List String)
        → words ≡ returned argv
        → (has_metacharacters (trim command) ≡ false)
          × (split_command (trim command) ≡ returned argv))
    → (caught (assess_words allowed) words).allowed ≡ true
    → IsSafe command allowed (caught (assess_words allowed) words).argv
caught-IsSafe command allowed (threw reason) known h = cc
caught-IsSafe command allowed (returned argv) known h =
    assess_words-IsSafe command allowed argv (known argv refl).0 (known argv refl).1 h

-- A command is allowed exactly if, without the white space at its ends, it has no shell character
-- (`;`, `&`, `|`, a backquote, `<`, `>`, an end of a line) and no `$` before `(`, it splits into
-- words, and the first of them, in lower case and without an ending .cmd, .exe, .bat or .ps1, is
-- the name of an allowed executable and not one of the dangerous ones; what runs is those words.
pub assess-IsSafe_iff :
    (command : String) (allowed : List String)
    → ((assess_shell_command command allowed).allowed ≡ true)
      ↔ IsSafe command allowed (assess_shell_command command allowed).argv
unfolding assess_shell_command
assess-IsSafe_iff command allowed = (
  caught-IsSafe command allowed (words_of _ command) (λ argv e. words_of_returned _ command argv e),
  λ s.
      rw
        (
          words_of-split _ command s.file s.args ((has_metacharacters_iff (trim command)).1 s.clean)
              s.words,
          assess_words,
          (not-IsBlocked_iff s.file).1 s.not_blocked,
          (IsListed_iff allowed s.file).1 s.listed,
        )
        refl,
)
