-- ===== src/ControlPlane/PartTests.antt =====
-- The parts of the runtime on the small workspace: gates, evaluation, decision, ledger, paths.
use tomorrowedge.Prelude.{
  ◌≡◌, ◌≢◌, ◌⊎◌, ◌↔◌, refl, unique, true, false, none, [], ◌∷◌, show, sort, Memᴰ, includes,
}
use tomorrowedge.ControlPlane.Specs.{
  EvaluationResult, ObservedWorkspaceState, ActionResult, success, run_baseline,
}
use tomorrowedge.ControlPlane.Paths.{
  find_denied_path_violations, find_allowed_path_violations, normalize_path, normalized, covers,
}
use tomorrowedge.ControlPlane.Paths.Laws.{IsCovered, find_denied-mem_iff, find_allowed-mem_iff}
use tomorrowedge.ControlPlane.Workspace.{
  WorkspaceSnapshot, lookup, diff_snapshots, git_line_path, trim,
}
use tomorrowedge.ControlPlane.Gates.{GateContext, run_gate}
use tomorrowedge.ControlPlane.Gates.Laws.{IsVerdictOf, run_gate-IsVerdictOf}
use tomorrowedge.ControlPlane.Evaluator.{evaluate}
use tomorrowedge.ControlPlane.Evaluator.Laws.{IsEvaluation, evaluate-IsEvaluation}
use tomorrowedge.ControlPlane.Decision.{
  collect_blockers, should_converge, decide_after_post_evaluation,
}
use tomorrowedge.ControlPlane.Decision.Laws.{
  decide_by_violations, decide-collect_blockers, IsDecision, decide-IsDecision,
}
use tomorrowedge.ControlPlane.StatusStore.{empty_ledger, write_status, render_progress_markdown}
use tomorrowedge.ControlPlane.StatusStore.Laws.{IsWritten, IsThrown, write_status_cases}
use tomorrowedge.ControlPlane.Status.{initial_status, start_state}
use tomorrowedge.ControlPlane.Samples.{host, goal, npm_test, acceptance, policy, options}

parts : Unit {0}
unfolding evaluate run_gate collect_blockers should_converge decide_after_post_evaluation
    write_status render_progress_markdown find_denied_path_violations find_allowed_path_violations
    normalize_path normalized covers lookup diff_snapshots unique git_line_path trim show sort
parts = tt

abbrev observed : ObservedWorkspaceState
observed = record {
  files_changed = "src/a.ts" ∷ "secrets/key.txt" ∷ [];
  changed_file_count = 2;
  git_available = false;
  diff_basis = run_baseline;
  snapshot_hash = none;
}

abbrev context : GateContext
context = record {
  evidence_dir = "logs";
  observed = observed;
  previous_evaluation = none;
  current_gate_results = [];
}

abbrev failing : EvaluationResult
failing = (evaluate (host 9 "fix.js") goal acceptance "logs" observed none 1).1

abbrev passing : EvaluationResult
passing = (evaluate (host 1 "fix.js") goal acceptance "logs" observed none 1).1

abbrev action : ActionResult
action = record {
  status = success;
  summary = "wrote";
  changed_files = [];
  commands_run = [];
  artifacts = [];
  budget_exhausted = false;
  error = none;
}

passing-converges : should_converge policy passing [] ≡ true
unfolding parts
passing-converges = refl

blockers_found :
    collect_blockers goal policy action observed.files_changed failing
    ≡ "modified denied path: secrets/key.txt" ∷ "blocking checks failed: tests" ∷ []
unfolding parts
blockers_found = refl

run_gate-IsVerdictOf_example :
    IsVerdictOf npm_test (run_gate (host 1 "fix.js") context npm_test 1).1
run_gate-IsVerdictOf_example = run_gate-IsVerdictOf (host 1 "fix.js") context npm_test 1

evaluate-IsEvaluation_example : IsEvaluation (λ path. true) goal acceptance observed failing
evaluate-IsEvaluation_example =
    evaluate-IsEvaluation (host 9 "fix.js") goal acceptance "logs" observed none 1

decide-collect_blockers_example :
    decide_after_post_evaluation policy 1 3 failing
      (collect_blockers goal policy action observed.files_changed failing)
      start_state
      action
    ≡ decide_by_violations goal policy action observed.files_changed failing 1 3 start_state
decide-collect_blockers_example =
    decide-collect_blockers goal policy action observed.files_changed failing 1 3 start_state

decide-IsDecision_example :
    IsDecision goal policy action observed.files_changed failing 1 3 start_state (
      decide_after_post_evaluation policy 1 3 failing
        (collect_blockers goal policy action observed.files_changed failing)
        start_state
        action)
decide-IsDecision_example =
    decide-IsDecision goal policy action observed.files_changed failing 1 3 start_state

write_status_cases_example :
    IsWritten
      (initial_status options)
      empty_ledger
      (write_status (host 1 "fix.js") ".runs/r1" (initial_status options) empty_ledger 0)
    ⊎ IsThrown
        (initial_status options)
        empty_ledger
        (write_status (host 1 "fix.js") ".runs/r1" (initial_status options) empty_ledger 0)
write_status_cases_example =
    write_status_cases (host 1 "fix.js") ".runs/r1" (initial_status options) empty_ledger 0

one_denied :
    find_denied_path_violations observed.files_changed ("./secrets/" ∷ []) ≡ "secrets/key.txt" ∷ []
unfolding parts
one_denied = refl

find_denied-mem_iff_example :
    Memᴰ "secrets/key.txt" (find_denied_path_violations observed.files_changed ("./secrets/" ∷ []))
    ↔ (Memᴰ "secrets/key.txt" observed.files_changed
        × IsCovered "secrets/key.txt" ("./secrets/" ∷ []))
find_denied-mem_iff_example =
    find_denied-mem_iff observed.files_changed ("./secrets/" ∷ []) "secrets/key.txt"

src-named : normalized ("src" ∷ []) ≢ []
unfolding parts
src-named = λ e. cc

src-part : includes (normalized ("src" ∷ [])) "." ≡ false
unfolding parts
src-part = refl

find_allowed-mem_iff_example :
    Memᴰ "secrets/key.txt" (find_allowed_path_violations observed.files_changed ("src" ∷ []))
    ↔ (Memᴰ "secrets/key.txt" observed.files_changed × (¬ IsCovered "secrets/key.txt" ("src" ∷ [])))
find_allowed-mem_iff_example =
    find_allowed-mem_iff observed.files_changed ("src" ∷ []) "secrets/key.txt" src-named src-part

abbrev before : WorkspaceSnapshot
before = record { files = ("a.ts", "1") ∷ ("b.ts", "2") ∷ []; hash = "h" }

abbrev after : WorkspaceSnapshot
after = record { files = ("b.ts", "3") ∷ ("c.ts", "4") ∷ []; hash = "h" }

three_changed : diff_snapshots before after ≡ "a.ts" ∷ "b.ts" ∷ "c.ts" ∷ []
unfolding parts
three_changed = refl
