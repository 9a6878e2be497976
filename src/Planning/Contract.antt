-- ===== src/Planning/Contract.antt =====
-- The objective contract of src/core/contracts/objectiveContract.ts and what the builder of task
-- graphs reads of the policy of src/core/orchestrationPolicy/orchestrationPolicy.ts. The numbers
-- are natural ones, a cost one of millionths of a dollar, a confidence one of hundredths.
use tomorrowedge.Prelude.{ℕ, String, Bool, Option, List}
use tomorrowedge.Roles.{AgentRole, EventPhase}
use tomorrowedge.Orchestration.RoleGraph.{RiskLevel, WorkflowKind}
use tomorrowedge.Planning.Plan.{TaskType}

pub data ScenarioType : Type 0 where
  coding research document debugging refactor analysis planning ops unknown : ScenarioType

pub data ObjectiveContractSource : Type 0 where
  native model trace_guided repaired : ObjectiveContractSource

pub data InteractionMode : Type 0 where
  answer artifact code_change analysis mixed : InteractionMode

pub record UserScenario : Type 0 where
  pub inferred_user_intent : String
  pub expected_deliverable : String
  pub interaction_mode : InteractionMode
  pub ambiguity_level : RiskLevel

pub record ContractBudget : Type 0 where
  pub max_steps : ℕ
  pub max_repair_rounds : ℕ
  pub max_shell_runs : ℕ
  pub max_tool_calls : ℕ
  pub max_cost_usd : Option ℕ

pub record UncertaintyPolicy : Type 0 where
  pub when_to_ask_user : List String
  pub when_to_fallback : List String
  pub when_to_proceed_with_assumption : List String
  pub when_to_stop : List String

pub record ContractStopCondition : Type 0 where
  pub success : List String
  pub partial : List String
  pub failure : List String
  pub unsafe : List String

pub record FallbackPolicy : Type 0 where
  pub planner_fallback : String
  pub executor_fallback : String
  pub verifier_fallback : String
  pub user_escalation : String

pub record VerificationRubric : Type 0 where
  pub required_commands : List String
  pub required_artifacts : List String
  pub evidence_checks : List String
  pub reviewer_checks : List String
  pub judge_checks : List String

pub record TraceHints : Type 0 where
  pub similar_trace_ids : List String
  pub reused_lessons : List String
  pub avoided_failure_patterns : List String

pub record ObjectiveContract : Type 0 where
  pub schema_version : String
  pub contract_id : String
  pub created_at : String
  pub goal : String
  pub normalized_goal : String
  pub scenario_type : ScenarioType
  pub task_type : TaskType
  pub workflow_kind : WorkflowKind
  pub local_objective : String
  pub user_scenario : UserScenario
  pub success_criteria : List String
  pub failure_criteria : List String
  pub required_evidence : List String
  pub allowed_phases : List EventPhase
  pub allowed_roles : List AgentRole
  pub allowed_tools : List String
  pub forbidden_actions : List String
  pub risk_level : RiskLevel
  pub reasoning_sensitivity : RiskLevel
  pub budget : ContractBudget
  pub uncertainty_policy : UncertaintyPolicy
  pub stop_condition : ContractStopCondition
  pub fallback_policy : FallbackPolicy
  pub verification_rubric : VerificationRubric
  pub trace_hints : TraceHints
  pub source : ObjectiveContractSource
  pub confidence : ℕ

pub data StepsMode : Type 0 where
  conservative balanced aggressive : StepsMode

pub record PlanningPolicy : Type 0 where
  pub max_steps_mode : StepsMode
  pub allow_parallel_roles : Bool
  pub require_plan_step_evidence_binding : Bool

pub record TaskGraphPolicy : Type 0 where
  pub require_task_graph : Bool
  pub max_task_nodes : ℕ
  pub require_dependency_validation : Bool
  pub stop_on_invalid_graph : Bool

pub record OrchestrationPolicy : Type 0 where
  pub planning_policy : PlanningPolicy
  pub task_graph_policy : Option TaskGraphPolicy
