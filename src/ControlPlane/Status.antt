-- ===== src/ControlPlane/Status.antt =====
-- The statuses that the controller writes, `buildStatus` and its calls in
-- src/core/controlPlane/controller.ts.
pub mod Evidence
pub use tomorrowedge.ControlPlane.Status.Evidence.{RunOptions, empty_action, all_results}
unfoldable pub use tomorrowedge.ControlPlane.Status.Evidence.{
  test_commands, hard_gate_commands, gate_logs, evidence_dir,
}
use tomorrowedge.Prelude.{
  ℕ, min, String, Bool, true, false, not, Option, none, some, List, [], ◌∷◌, ◌++◌, map, filter, cat,
  show, or_else, ltb, if◌then◌else◌, ◌==◌,
}
use tomorrowedge.ControlPlane.Specs.{
  GateType, GoalSpec, EvalSpec, LoopSpec, GateSpec, GateResult, EvaluationResult,
  ObservedWorkspaceState, DesiredStateDiff, StatusPhase, initialized, converged, EvaluationPhase,
  pre_action, post_action, Decision, StatusSpec, ActionResult, skipped, DiffBasis, snapshot,
}
use tomorrowedge.ControlPlane.Workspace.{compute_desired_state_diff}
use tomorrowedge.ControlPlane.Decision.{DecisionState, FinalDecision}

-- The arguments of `buildStatus` that differ between its calls.
pub record StatusInput : Type 0 where
  pub iteration : ℕ
  pub phase : StatusPhase
  pub evaluation_phase : Option EvaluationPhase
  pub pre_action_gate_results : Option (List GateResult)
  pub files_changed : List String
  pub git_available : Bool
  pub diff_basis : DiffBasis
  pub tests_run : List String
  pub commands_run : List String
  pub blockers : List String
  pub errors : List (String × String)
  pub diff : DesiredStateDiff
  pub gate_results : List GateResult
  pub artifacts : List String
  pub logs : List (String × String)
  pub decision : Decision

unfoldable pub build_status : String → GoalSpec → StatusInput → StatusSpec
build_status run_id goal input = record {
  run_id = run_id;
  goal_id = goal.id;
  iteration = input.iteration;
  phase = input.phase;
  evaluation_phase = input.evaluation_phase;
  pre_action_gate_results = input.pre_action_gate_results;
  observed_state = record {
    files_changed = input.files_changed;
    tests_run = input.tests_run;
    commands_run = input.commands_run;
    current_errors = input.errors;
    unresolved_blockers = input.blockers;
    git_available = input.git_available;
    diff_basis = input.diff_basis;
  };
  desired_state_ref = cat ("goal:" ∷ goal.id ∷ []);
  diff = input.diff;
  evidence = record {
    artifacts = input.artifacts;
    logs = input.logs;
    gate_results = input.gate_results;
  };
  decision = input.decision;
}

-- What one pass of the loop leaves: the status it writes, the evaluation that the next pass
-- compares with, and whether the loop is left.
pub record Round : Type 0 where
  pub status : StatusSpec
  pub evaluation : EvaluationResult
  pub state : DecisionState
  pub stop : Bool

module _ (options : RunOptions) where
  unfoldable pub initial_status : StatusSpec
  unfolding build_status
  initial_status = build_status options.run_id options.goal (record {
    iteration = 0;
    phase = initialized;
    evaluation_phase = none;
    pre_action_gate_results = none;
    files_changed = [];
    git_available = false;
    diff_basis = snapshot;
    tests_run = [];
    commands_run = [];
    blockers = [];
    errors = [];
    diff = compute_desired_state_diff options.goal none;
    gate_results = [];
    artifacts = [];
    logs = [];
    decision = record {
      should_continue = true;
      reason = "initialized";
      next_action = some "observe";
      confidence = none;
    };
  })

  -- The pass that ends before an action, `break` included.
  unfoldable pub converged_round :
      ℕ → ObservedWorkspaceState → EvaluationResult → List String → DecisionState → Round
  unfolding build_status
  converged_round iteration observed e blockers state = record {
    status = build_status options.run_id options.goal (record {
      iteration = iteration;
      phase = converged;
      evaluation_phase = some pre_action;
      pre_action_gate_results = some (all_results e);
      files_changed = observed.files_changed;
      git_available = observed.git_available;
      diff_basis = observed.diff_basis;
      tests_run = test_commands options.evaluation;
      commands_run = hard_gate_commands options.evaluation;
      blockers = blockers;
      errors = [];
      diff = compute_desired_state_diff options.goal (some e);
      gate_results = all_results e;
      artifacts = [];
      logs = gate_logs e;
      decision = record {
        should_continue = false;
        reason = "converged: all configured ConvergencePolicy stop conditions passed before action";
        next_action = none;
        confidence = some e.confidence;
      };
    });
    evaluation = e;
    state = state;
    stop = true;
  }

  -- The pass that decides after an action.
  unfoldable pub acted_round :
      ℕ
      → String
      → EvaluationResult
      → ActionResult
      → ObservedWorkspaceState
      → EvaluationResult
      → List String
      → DecisionState
      → FinalDecision
      → Round
  unfolding build_status
  acted_round iteration adapter_id before action observed e blockers state decided = record {
    status = build_status options.run_id options.goal (record {
      iteration = iteration;
      phase = decided.phase;
      evaluation_phase = some post_action;
      pre_action_gate_results = some (all_results before);
      files_changed = observed.files_changed;
      git_available = observed.git_available;
      diff_basis = observed.diff_basis;
      tests_run = test_commands options.evaluation;
      commands_run = action.commands_run ++ hard_gate_commands options.evaluation;
      blockers = blockers;
      errors = elim action.error [
        | none ↦ []
        | some message ↦ if message == "" then [] else (adapter_id, message) ∷ []
      ];
      diff = compute_desired_state_diff options.goal (some e);
      gate_results = all_results e;
      artifacts = action.artifacts;
      logs = gate_logs e;
      decision = record {
        should_continue = decided.should_continue;
        reason = decided.reason;
        next_action = decided.next_action;
        confidence = some e.confidence;
      };
    });
    evaluation = e;
    state = state;
    stop = not decided.should_continue;
  }

  unfoldable pub max_iterations : ℕ
  max_iterations =
      min options.loop.max_iterations
        (or_else options.goal.constraints.max_iterations options.loop.max_iterations)

abbrev pub start_state : DecisionState
start_state = record { repeated_failures = 0; no_progress_rounds = 0; previous_progress_key = none }
