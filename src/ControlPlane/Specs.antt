-- ===== src/ControlPlane/Specs.antt =====
-- The data of src/core/controlPlane/specs.ts, and the action result of adapters.ts. Scores,
-- confidences and thresholds are hundredths; an absent or null field is `none`.
use tomorrowedge.Prelude.{ℕ, String, Bool, Option, List}

pub data SuccessConditionType : Type 0 where
  test command file_exists diff_required no_regression no_denied_path_modified :
      SuccessConditionType
  evidence_collected llm_review manual : SuccessConditionType

pub data GateType : Type 0 where
  command test lint typecheck static_analysis file_exists diff_required no_regression : GateType
  checker_agent architecture_review security_review regression_review : GateType

pub record SuccessCondition : Type 0 where
  pub id : String
  pub type : SuccessConditionType
  pub required : Bool
  pub path : Option String

pub record Constraints : Type 0 where
  pub allowed_paths : List String
  pub denied_paths : List String
  pub max_files_changed : Option ℕ
  pub max_iterations : Option ℕ

-- The fields that the runtime reads; `artifacts` holds the paths of `artifacts.required`.
pub record GoalSpec : Type 0 where
  pub id : String
  pub success_conditions : List SuccessCondition
  pub constraints : Constraints
  pub artifacts : List String

pub record GateSpec : Type 0 where
  pub id : String
  pub type : GateType
  pub command : Option String
  pub path : Option String
  pub timeout_sec : ℕ
  pub required : Bool

pub data JudgeMode : Type 0 where
  hard_only hard_plus_checker full_matrix : JudgeMode

pub record EvalSpec : Type 0 where
  pub hard_gates : List GateSpec
  pub soft_gates : List GateSpec
  pub judge_mode : JudgeMode
  pub min_confidence : ℕ
  pub evidence_required : Bool

pub record StopWhen : Type 0 where
  pub all_hard_gates_pass : Bool
  pub all_required_conditions_met : Bool
  pub checker_confidence_above : Option ℕ
  pub no_unresolved_blockers : Bool

pub record AbortWhen : Type 0 where
  pub max_iterations_reached : Bool
  pub no_progress_rounds : ℕ
  pub repeated_failure_rounds : ℕ
  pub budget_exhausted : Bool

pub record LoopSpec : Type 0 where
  pub max_iterations : ℕ
  pub stop_when : StopWhen
  pub abort_when : AbortWhen

pub record GateResult : Type 0 where
  pub id : String
  pub type : GateType
  pub required : Bool
  pub passed : Bool
  pub score : Option ℕ
  pub summary : String
  pub evidence_path : Option String
  pub raw_output_path : Option String
  pub error : Option String

pub record EvaluationResult : Type 0 where
  pub hard_gate_results : List GateResult
  pub soft_gate_results : List GateResult
  pub all_hard_gates_passed : Bool
  pub required_conditions_met : Bool
  pub required_gate_evidence_complete : Bool
  pub missing_evidence_gate_ids : List String
  pub satisfied_conditions : List String
  pub missing_conditions : List String
  pub regressions : List String
  pub warnings : List String
  pub confidence : ℕ
  pub converged : Bool

pub data DiffBasis : Type 0 where
  run_baseline git_status snapshot : DiffBasis

pub record ObservedWorkspaceState : Type 0 where
  pub files_changed : List String
  pub changed_file_count : ℕ
  pub git_available : Bool
  pub diff_basis : DiffBasis
  pub snapshot_hash : Option String

pub record DesiredStateDiff : Type 0 where
  pub missing_conditions : List String
  pub satisfied_conditions : List String
  pub regressions : List String
  pub unknown_conditions : List String

pub data StatusPhase : Type 0 where
  initialized observing acting evaluating converged failed aborted : StatusPhase

pub data EvaluationPhase : Type 0 where
  pre_action post_action : EvaluationPhase

pub record Decision : Type 0 where
  pub should_continue : Bool
  pub reason : String
  pub next_action : Option String
  pub confidence : Option ℕ

pub record ObservedState : Type 0 where
  pub files_changed : List String
  pub tests_run : List String
  pub commands_run : List String
  pub current_errors : List (String × String)
  pub unresolved_blockers : List String
  pub git_available : Bool
  pub diff_basis : DiffBasis

pub record Evidence : Type 0 where
  pub artifacts : List String
  pub logs : List (String × String)
  pub gate_results : List GateResult

-- One line of the trace ledger, less its timestamps.
pub record StatusSpec : Type 0 where
  pub run_id : String
  pub goal_id : String
  pub iteration : ℕ
  pub phase : StatusPhase
  pub evaluation_phase : Option EvaluationPhase
  pub pre_action_gate_results : Option (List GateResult)
  pub observed_state : ObservedState
  pub desired_state_ref : String
  pub diff : DesiredStateDiff
  pub evidence : Evidence
  pub decision : Decision

pub data ActionStatus : Type 0 where
  success failed skipped : ActionStatus

pub record ActionResult : Type 0 where
  pub status : ActionStatus
  pub summary : String
  pub changed_files : List String
  pub commands_run : List String
  pub artifacts : List String
  pub budget_exhausted : Bool
  pub error : Option String

-- A call that returns or throws an error with a message.
pub data Attempt {ℓ} (A : Type ℓ) : Type ℓ where
  returned : A → Attempt A
  threw : String → Attempt A
