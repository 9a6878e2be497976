-- ===== src/ControlPlane/Pass.antt =====
-- One pass of the reconciliation loop, the body of the `for` loop of `ReconciliationController.run`
-- in src/core/controlPlane/controller.ts.
pub mod Laws
use tomorrowedge.Prelude.{
  ℕ, zero, suc, ◌+◌, min, String, Bool, true, false, not, Option, none, some, List, [], ◌∷◌, ◌++◌,
  map, filter, is_some, cat, show, or_else, ltb, if◌then◌else◌, ◌==◌,
}
use tomorrowedge.ControlPlane.Specs.{
  GateType, GoalSpec, EvalSpec, LoopSpec, GateSpec, GateResult, EvaluationResult,
  ObservedWorkspaceState, DesiredStateDiff, StatusPhase, initialized, converged, aborted,
  EvaluationPhase, pre_action, post_action, Decision, ObservedState, Evidence, StatusSpec,
  ActionResult, skipped, DiffBasis, snapshot, Attempt, returned, threw,
}
use tomorrowedge.ControlPlane.Effects.{Effect, pure, total, ◌>>=◌, ◌>>◌}
use tomorrowedge.ControlPlane.Workspace.{
  WorkspaceSnapshot, create_workspace_snapshot, observe_workspace, compute_desired_state_diff,
}
use tomorrowedge.ControlPlane.Host.{ActionInput, Host}
use tomorrowedge.ControlPlane.Evaluator.{evaluate}
use tomorrowedge.ControlPlane.StatusStore.{Ledger, empty_ledger, Written, write_status}
use tomorrowedge.ControlPlane.Decision.{
  collect_blockers, should_converge, DecisionState, FinalDecision, decide_after_post_evaluation,
  update_decision_state,
}
use tomorrowedge.ControlPlane.Status.{
  RunOptions, empty_action, test_commands, hard_gate_commands, all_results, gate_logs, evidence_dir,
  StatusInput, build_status, Round, initial_status, converged_round, acted_round, max_iterations,
  start_state,
}

module _ {W : Type 0} (host : Host W) where
  abbrev pub write_file : String → Effect W (Unit {0})
  write_file path w = elim (host.write_file path w) [
    | returned w' ↦ (w', returned tt)
    | threw message ↦ (w, threw message)
  ]

  abbrev pub observe : Option WorkspaceSnapshot → Effect W ObservedWorkspaceState
  observe baseline w = (w, observe_workspace (host.disk w) baseline)

  -- `createWorkspaceSnapshot(cwd).catch(() => undefined)`
  abbrev pub take_baseline : W → Option WorkspaceSnapshot
  take_baseline w = elim (create_workspace_snapshot (host.disk w)) [
    | returned taken ↦ some taken
    | threw message ↦ none
  ]

  module _ (options : RunOptions) (baseline : Option WorkspaceSnapshot) where
    abbrev goal : GoalSpec
    goal = options.goal

    -- The evidence files of a pass that ends before an action.
    conclude_before_action :
        ℕ → ObservedWorkspaceState → EvaluationResult → List String → DecisionState → Effect W Round
    conclude_before_action iteration observed e blockers state = do
      let dir = evidence_dir options.run_dir iteration
      write_file (cat (dir ∷ "/changed_files.json" ∷ []))
      write_file (cat (dir ∷ "/post_gate_results.json" ∷ []))
      write_file (cat (dir ∷ "/gate_results.json" ∷ []))
      write_file (cat (dir ∷ "/controller_decision.json" ∷ []))
      pure (converged_round options iteration observed e blockers state)

    -- The end of a pass with an action: what it is decided by is at hand.
    conclude_after_action :
        ℕ
        → DecisionState
        → EvaluationResult
        → ActionResult
        → ObservedWorkspaceState
        → EvaluationResult
        → Effect W Round
    conclude_after_action iteration state before action after e = do
      let dir = evidence_dir options.run_dir iteration
      write_file (cat (dir ∷ "/post_gate_results.json" ∷ []))
      let diff = compute_desired_state_diff goal (some e)
      let blockers = collect_blockers goal options.loop action after.files_changed e
      let state' = update_decision_state state e diff after.files_changed action
      let decided =
          decide_after_post_evaluation options.loop iteration (max_iterations options) e blockers
            state' action
      write_file (cat (dir ∷ "/changed_files.json" ∷ []))
      write_file (cat (dir ∷ "/gate_results.json" ∷ []))
      write_file (cat (dir ∷ "/controller_decision.json" ∷ []))
      pure (
          acted_round options iteration host.adapter_id before action after e blockers state'
            decided)

    -- Behind the action: observe and evaluate again.
    evaluate_after_action :
        ℕ
        → Option EvaluationResult
        → DecisionState
        → EvaluationResult
        → ActionResult
        → Effect W Round
    unfolding conclude_after_action
    evaluate_after_action iteration previous state before action = do
      after ← observe baseline
      e ← total (
          evaluate host goal options.evaluation (evidence_dir options.run_dir iteration) after
            previous)
      conclude_after_action iteration state before action after e

    -- The rest of a pass: act, observe and evaluate again, decide.
    act_and_decide :
        ℕ
        → StatusSpec
        → Option EvaluationResult
        → DecisionState
        → ObservedWorkspaceState
        → EvaluationResult
        → Effect W Round
    unfolding evaluate_after_action
    act_and_decide iteration last previous state observed before = do
      action ← host.act (record {
        goal = goal;
        iteration = iteration;
        observed = observed;
        delta = compute_desired_state_diff goal (some before);
        status = last;
        evidence_dir = evidence_dir options.run_dir iteration;
      })
      evaluate_after_action iteration previous state before action

    -- One pass of the loop, up to the writing of its status.
    decide_round :
        ℕ
        → StatusSpec
        → Option EvaluationResult
        → DecisionState
        → ObservedWorkspaceState
        → EvaluationResult
        → Effect W Round
    unfolding conclude_before_action act_and_decide
    decide_round iteration last previous state observed before = do
      write_file (cat (evidence_dir options.run_dir iteration ∷ "/pre_gate_results.json" ∷ []))
      let blockers =
          collect_blockers goal options.loop (empty_action host.adapter_id) observed.files_changed
            before
      if should_converge options.loop before blockers
          then conclude_before_action iteration observed before blockers state
          else act_and_decide iteration last previous state observed before

    unfoldable pub round : ℕ → StatusSpec → Option EvaluationResult → DecisionState → Effect W Round
    unfolding decide_round
    round iteration last previous state = do
      observed ← observe baseline
      before ← total (
          evaluate host goal options.evaluation
            (cat (evidence_dir options.run_dir iteration ∷ "/pre_action" ∷ [])) observed previous)
      decide_round iteration last previous state observed before
