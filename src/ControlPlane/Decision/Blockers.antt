-- ===== src/ControlPlane/Decision/Blockers.antt =====
-- The prefix tests of `decideAfterPostEvaluation` on the texts that `collectBlockers` writes.
use tomorrowedge.Prelude.{
  ℕ, String, ◌≡◌, refl, ◌∙◌, ap, Bool, true, false, not, Option, none, some, List, [], ◌∷◌, ◌++◌,
  is_empty, length, cat, starts_with, arith, if◌then◌else◌,
}
use tomorrowedge.ControlPlane.Specs.{GoalSpec, LoopSpec, ActionResult, EvaluationResult}
use tomorrowedge.ControlPlane.Paths.{find_denied_path_violations, find_allowed_path_violations}
use tomorrowedge.ControlPlane.Decision.{
  when, exceeds, too_many_message, denied_message, outside_message, advisory_message,
  warning_blockers, names_or_unknown, failed_gate_ids, check_blockers, collect_blockers,
  blocker_with,
}

skip_when :
    (prefix message : String) (b : Bool) (rest : List String)
    → starts_with message prefix ≡ false
    → blocker_with prefix (when b message ++ rest) ≡ blocker_with prefix rest
skip_when prefix message true rest h = rw h
skip_when prefix message false rest h = refl

hit_when :
    (prefix message : String) (b : Bool) (rest : List String)
    → starts_with message prefix ≡ true
    → blocker_with prefix (when b message ++ rest)
      ≡ (if b then some message else blocker_with prefix rest)
hit_when prefix message true rest h = rw h
hit_when prefix message false rest h = refl

-- A prefix that no text of `check_blockers` has.
record IsForeign (prefix : String) : Type 0 where
  checks : (s : String) → starts_with (cat ("blocking checks failed: " ∷ s ∷ [])) prefix ≡ false
  advisory : starts_with advisory_message prefix ≡ false
  budget : starts_with "budget exhausted" prefix ≡ false
  warning : (s : String) → starts_with (cat ("warning: " ∷ s ∷ [])) prefix ≡ false

module _ {prefix : String} (foreign : IsForeign prefix) where
  warning_blockers-none : (w : List String) → blocker_with prefix (warning_blockers w) ≡ none
  unfolding warning_blockers
  warning_blockers-none [] = refl
  warning_blockers-none (w ∷ ws) = ground (arith, foreign.warning w, warning_blockers-none ws)

  check_blockers-none :
      (loop : LoopSpec) (action : ActionResult) (e : EvaluationResult)
      → blocker_with prefix (check_blockers loop action e) ≡ none
  unfolding check_blockers
  check_blockers-none loop action e = ground (
    arith,
    foreign.checks (names_or_unknown (failed_gate_ids e.hard_gate_results)),
    foreign.advisory,
    foreign.budget,
    warning_blockers-none e.warnings,
  )

denied-IsForeign : IsForeign "modified denied path"
denied-IsForeign = record {
  checks = λ s. refl;
  advisory = refl;
  budget = refl;
  warning = λ s. refl;
}

outside-IsForeign : IsForeign "modified path outside allowed_paths"
outside-IsForeign = record {
  checks = λ s. refl;
  advisory = refl;
  budget = refl;
  warning = λ s. refl;
}

too_many-IsForeign : IsForeign "too many files changed"
too_many-IsForeign = record {
  checks = λ s. refl;
  advisory = refl;
  budget = refl;
  warning = λ s. refl;
}

too_many_message-starts :
    (most : Option ℕ) (n : ℕ)
    → exceeds most n ≡ true
    → starts_with (too_many_message most n) "too many files changed" ≡ true
unfolding exceeds too_many_message
too_many_message-starts none n h = cc
too_many_message-starts (some most) n h = refl

too_many_message-foreign :
    (most : Option ℕ) (n : ℕ)
    → (starts_with (too_many_message most n) "modified denied path" ≡ false)
      × (starts_with (too_many_message most n) "modified path outside allowed_paths" ≡ false)
unfolding too_many_message
too_many_message-foreign none n = (refl, refl)
too_many_message-foreign (some most) n = (refl, refl)

module _ (goal : GoalSpec) (loop : LoopSpec) (action : ActionResult) (changed : List String)
    (e : EvaluationResult) where
  abbrev pub denied : List String
  denied = find_denied_path_violations changed goal.constraints.denied_paths

  abbrev pub outside : List String
  outside = find_allowed_path_violations changed goal.constraints.allowed_paths

  abbrev pub too_many : Bool
  too_many = exceeds goal.constraints.max_files_changed (length changed)

  abbrev pub blockers : List String
  blockers = collect_blockers goal loop action changed e

  pub find_denied :
      blocker_with "modified denied path" blockers
      ≡ (if not (is_empty denied) then some (denied_message denied) else none)
  unfolding collect_blockers denied_message outside_message
  find_denied =
      hit_when "modified denied path" _ (not (is_empty denied)) _ refl
      ∙ ap (λ rest. if not (is_empty denied) then some (denied_message denied) else rest)
          (skip_when "modified denied path" _ (not (is_empty outside)) _ refl
            ∙ skip_when "modified denied path" _ too_many _ (too_many_message-foreign _ _).0
            ∙ check_blockers-none denied-IsForeign loop action e)

  pub find_outside :
      blocker_with "modified path outside allowed_paths" blockers
      ≡ (if not (is_empty outside) then some (outside_message outside) else none)
  unfolding collect_blockers denied_message outside_message
  find_outside =
      skip_when "modified path outside allowed_paths" _ (not (is_empty denied)) _ refl
      ∙ hit_when "modified path outside allowed_paths" _ (not (is_empty outside)) _ refl
      ∙ ap (λ rest. if not (is_empty outside) then some (outside_message outside) else rest)
          (skip_when "modified path outside allowed_paths" _ too_many _
              (too_many_message-foreign _ _).1
            ∙ check_blockers-none outside-IsForeign loop action e)

  find_too_many_in_checks :
      (b : Bool)
      → (b ≡ true
          → starts_with
              (too_many_message goal.constraints.max_files_changed (length changed))
              "too many files changed"
            ≡ true)
      → blocker_with "too many files changed" (
          when b (too_many_message goal.constraints.max_files_changed (length changed))
          ++ check_blockers loop action e)
        ≡ (if b
            then some (too_many_message goal.constraints.max_files_changed (length changed))
            else none)
  find_too_many_in_checks true h = rw (h refl)
  find_too_many_in_checks false h = check_blockers-none too_many-IsForeign loop action e

  pub find_too_many : blocker_with "too many files changed" blockers ≡ (
      if too_many
      then some (too_many_message goal.constraints.max_files_changed (length changed))
      else none)
  unfolding collect_blockers denied_message outside_message
  find_too_many =
      skip_when "too many files changed" _ (not (is_empty denied)) _ refl
      ∙ skip_when "too many files changed" _ (not (is_empty outside)) _ refl
      ∙ find_too_many_in_checks too_many (too_many_message-starts _ _)
