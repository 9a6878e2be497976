-- ===== src/ControlPlane/Tests.antt =====
-- The runtime on the small workspace.
use tomorrowedge.Prelude.{
  ◌≡◌, ◌≢◌, ◌⊎◌, inl, ◌≤◌, ◌<◌, refl, false, some, List, [], ◌∷◌, ◌++◌, map, show, sort, length,
  Memᴰ, arith,
}
use tomorrowedge.ControlPlane.Specs.{
  StatusSpec, StatusPhase, converged, aborted, initialized, evaluating, Attempt, returned, threw,
  post_action,
}
use tomorrowedge.ControlPlane.Paths.{
  find_denied_path_violations, find_allowed_path_violations, normalize_path,
}
use tomorrowedge.ControlPlane.Workspace.{
  observe_workspace, compute_desired_state_diff, create_workspace_snapshot,
}
use tomorrowedge.ControlPlane.Gates.{run_gate}
use tomorrowedge.ControlPlane.Evaluator.{evaluate}
use tomorrowedge.ControlPlane.Decision.{
  collect_blockers, should_converge, decide_after_post_evaluation, update_decision_state,
}
use tomorrowedge.ControlPlane.StatusStore.{empty_ledger, write_status, render_progress_markdown}
use tomorrowedge.ControlPlane.Status.{
  test_commands, hard_gate_commands, gate_logs, evidence_dir, initial_status, converged_round,
  acted_round, max_iterations,
}
use tomorrowedge.ControlPlane.Pass.{round}
use tomorrowedge.ControlPlane.Controller.{run}
use tomorrowedge.ControlPlane.Controller.Laws.{IsChain}
use tomorrowedge.ControlPlane.Controller.Outcomes.{
  IsConvergence, run-trace, run-IsConvergence, run_settles, run-violation-aborts, run-latest,
}
use tomorrowedge.ControlPlane.Samples.{options, host}

runtime : Unit {0}
unfolding run round initial_status converged_round acted_round max_iterations test_commands
    hard_gate_commands gate_logs evidence_dir write_status render_progress_markdown collect_blockers
    should_converge decide_after_post_evaluation update_decision_state evaluate run_gate
    observe_workspace compute_desired_state_diff create_workspace_snapshot
    find_denied_path_violations find_allowed_path_violations normalize_path show sort
runtime = tt

abbrev phases : List StatusSpec → List StatusPhase
phases trace = map (λ (s : StatusSpec). s.phase) trace

run_converges :
    phases (run (host 1 "fix.js") options empty_ledger 0).ledger.trace
    ≡ initialized ∷ converged ∷ []
unfolding runtime
run_converges = refl

run_gives_up :
    phases (run (host 9 "fix.js") options empty_ledger 0).ledger.trace
    ≡ initialized ∷ evaluating ∷ evaluating ∷ aborted ∷ []
unfolding runtime
run_gives_up = refl

run_denied :
    phases (run (host 1 "secrets/key.txt") options empty_ledger 0).ledger.trace
    ≡ initialized ∷ aborted ∷ []
unfolding runtime
run_denied = refl

-- The status that an outcome returns.
abbrev status_of : Attempt StatusSpec → StatusSpec
status_of (returned s) = s
status_of (threw message) = initial_status options

abbrev solved : StatusSpec
solved = status_of (run (host 1 "fix.js") options empty_ledger 0).outcome

abbrev given_up : StatusSpec
given_up = status_of (run (host 9 "fix.js") options empty_ledger 0).outcome

solved-returned : (run (host 1 "fix.js") options empty_ledger 0).outcome ≡ returned solved
unfolding runtime
solved-returned = refl

solved-converged : solved.phase ≡ converged
unfolding runtime
solved-converged = refl

given_up-returned : (run (host 9 "fix.js") options empty_ledger 0).outcome ≡ returned given_up
unfolding runtime
given_up-returned = refl

run-trace_example :
    (run (host 1 "fix.js") options empty_ledger 0).ledger.trace ≡ []
    ⊎ ((passes : List StatusSpec) × ((run (host 1 "fix.js") options empty_ledger 0).ledger.trace
          ≡ initial_status options ∷ passes)
        × IsChain 1 passes
        × (length passes ≤ max_iterations options))
run-trace_example = run-trace (host 1 "fix.js") options empty_ledger 0

run-IsConvergence_example : IsConvergence (host 1 "fix.js") options solved
run-IsConvergence_example =
    run-IsConvergence (host 1 "fix.js") options empty_ledger 0 solved solved-returned
      solved-converged

three_left : 0 < max_iterations options
unfolding runtime
three_left = omega arith

run_settles_example :
    (given_up.decision.should_continue ≡ false)
    × ((given_up.phase ≡ converged) ⊎ (given_up.phase ≡ aborted))
    × (given_up.iteration ≤ max_iterations options)
run_settles_example =
    run_settles (host 9 "fix.js") options empty_ledger 0 given_up given_up-returned refl three_left

-- The status of a run whose adapter writes a denied file.
abbrev denied : StatusSpec
denied = status_of (run (host 1 "secrets/key.txt") options empty_ledger 0).outcome

denied-traced : Memᴰ denied (run (host 1 "secrets/key.txt") options empty_ledger 0).ledger.trace
unfolding runtime
denied-traced = Memᴰ.tail (Memᴰ.head refl)

denied-acted : denied.evaluation_phase ≡ some post_action
unfolding runtime
denied-acted = refl

denied-violates :
    find_denied_path_violations denied.observed_state.files_changed
      options.goal.constraints.denied_paths
    ≢ []
unfolding runtime
denied-violates = λ e. cc

run-violation-aborts_example : denied.phase ≡ aborted
run-violation-aborts_example =
    run-violation-aborts (host 1 "secrets/key.txt") options empty_ledger 0 denied
      (run (host 1 "secrets/key.txt") options empty_ledger 0).ledger.trace refl denied-traced
      denied-acted (inl denied-violates)

run-latest_example :
    ((run (host 1 "fix.js") options empty_ledger 0).ledger.latest ≡ some solved)
    × ((before : List StatusSpec) × ((run (host 1 "fix.js") options empty_ledger 0).ledger.trace
          ≡ before ++ solved ∷ []))
run-latest_example = run-latest (host 1 "fix.js") options empty_ledger 0 solved solved-returned
