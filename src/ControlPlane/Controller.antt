-- ===== src/ControlPlane/Controller.antt =====
-- The reconciliation loop, `ReconciliationController.run` of src/core/controlPlane/controller.ts,
-- around the passes.
pub mod Laws
pub mod Runs
pub mod Outcomes
use tomorrowedge.Prelude.{
  ℕ, zero, suc, ◌+◌, min, String, Bool, true, false, not, Option, none, some, List, [], ◌∷◌, ◌++◌,
  map, filter, is_some, cat, show, or_else, ltb, if◌then◌else◌, ◌==◌,
}
use tomorrowedge.ControlPlane.Specs.{
  GateType, GoalSpec, EvalSpec, LoopSpec, GateSpec, GateResult, EvaluationResult,
  ObservedWorkspaceState, DesiredStateDiff, StatusPhase, initialized, converged, aborted,
  EvaluationPhase, pre_action, post_action, Decision, ObservedState, Evidence, StatusSpec,
  ActionResult, skipped, DiffBasis, snapshot, Attempt, returned, threw,
}
use tomorrowedge.ControlPlane.Effects.{Effect, pure, total, ◌>>=◌, ◌>>◌}
use tomorrowedge.ControlPlane.Workspace.{
  WorkspaceSnapshot, create_workspace_snapshot, observe_workspace, compute_desired_state_diff,
}
use tomorrowedge.ControlPlane.Host.{ActionInput, Host}
use tomorrowedge.ControlPlane.Evaluator.{evaluate}
use tomorrowedge.ControlPlane.StatusStore.{Ledger, Written, write_status}
use tomorrowedge.ControlPlane.Decision.{
  collect_blockers, should_converge, DecisionState, FinalDecision, decide_after_post_evaluation,
  update_decision_state,
}
use tomorrowedge.ControlPlane.Status.{
  RunOptions, empty_action, test_commands, hard_gate_commands, all_results, gate_logs, evidence_dir,
  StatusInput, build_status, Round, initial_status, converged_round, acted_round, max_iterations,
  start_state,
}
use tomorrowedge.ControlPlane.Pass.{take_baseline, round}

-- What a run leaves behind: the world, the ledger, and the last status or what was thrown.
pub record RunState (W : Type 0) : Type 0 where
  pub world : W
  pub ledger : Ledger
  pub outcome : Attempt StatusSpec

module _ {W : Type 0} (host : Host W) (options : RunOptions) where
  -- Behind the writing of a pass's status: `break`, or the next pass.
  after_write : Round → (Ledger → W → RunState W) → Written W → RunState W
  after_write r next written = elim written.outcome [
    | threw message ↦ record {
      world = written.world;
      ledger = written.ledger;
      outcome = threw message;
    }
    | returned _ ↦
        if r.stop
        then record { world = written.world; ledger = written.ledger; outcome = returned r.status }
        else next written.ledger written.world
  ]

  after_round : (Round → Ledger → W → RunState W) → Ledger → W × Attempt Round → RunState W
  unfolding after_write
  after_round next ledger (w, threw message) = record {
    world = w;
    ledger = ledger;
    outcome = threw message;
  }
  after_round next ledger (w, returned r) =
      after_write r (next r) (write_status host options.run_dir r.status ledger w)

  -- The loop, over the passes that are left.
  unfoldable pub loop :
      Option WorkspaceSnapshot
      → ℕ
      → ℕ
      → StatusSpec
      → Option EvaluationResult
      → DecisionState
      → Ledger
      → W
      → RunState W
  unfolding after_round
  loop baseline zero iteration last previous state ledger w = record {
    world = w;
    ledger = ledger;
    outcome = returned last;
  }
  loop baseline (suc left) iteration last previous state ledger w =
      after_round (λ r. loop baseline left (iteration + 1) r.status (some r.evaluation) r.state)
        ledger (round host options baseline iteration last previous state w)

  -- Behind the writing of the first status.
  after_first : Option WorkspaceSnapshot → Written W → RunState W
  unfolding loop
  after_first baseline written = elim written.outcome [
    | threw message ↦ record {
      world = written.world;
      ledger = written.ledger;
      outcome = threw message;
    }
    | returned _ ↦
        loop baseline (max_iterations options) 1 (initial_status options) none start_state
          written.ledger written.world
  ]

  -- What follows the store's first `mkdir`; `found` is what earlier runs have left in the directory.
  run_initialized : Ledger → W → RunState W
  unfolding after_first
  run_initialized found w =
      after_first (take_baseline host w)
        (write_status host options.run_dir (initial_status options) found w)

  unfoldable pub run : Ledger → W → RunState W
  unfolding run_initialized
  run found w = elim (host.write_file (cat (options.run_dir ∷ "/evidence" ∷ [])) w) [
    | threw message ↦ record { world = w; ledger = found; outcome = threw message }
    | returned w' ↦ run_initialized found w'
  ]

-- The fields of `ControlPlaneRunResult` that the last status gives.
pub record RunResult : Type 0 where
  pub status : StatusSpec
  pub iterations : ℕ
  pub converged : Bool
  pub aborted : Bool

abbrev is_converged : StatusPhase → Bool
is_converged StatusPhase.converged = true
is_converged _ = false

abbrev is_aborted : StatusPhase → Bool
is_aborted StatusPhase.aborted = true
is_aborted _ = false

unfoldable pub run_result : StatusSpec → RunResult
run_result status = record {
  status = status;
  iterations = status.iteration;
  converged = is_converged status.phase;
  aborted = is_aborted status.phase;
}
