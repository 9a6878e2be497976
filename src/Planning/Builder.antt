-- ===== src/Planning/Builder.antt =====
-- `buildTaskGraph` and `buildTaskGraphFromContract` of src/core/planning/taskGraphBuilder.ts.
pub mod Nodes
pub mod Laws
mod Tests
pub use tomorrowedge.Planning.Builder.Nodes.{
  graph_risk, patch_specs_by_risk, specs_by_kind, specs_for_workflow, max_nodes, slice,
}
unfoldable pub use tomorrowedge.Planning.Builder.Nodes.{materialize_node}
use tomorrowedge.Prelude.{
  ℕ, zero, suc, String, Bool, true, false, not, ◌&&◌, ◌||◌, Option, none, some, List, [], ◌∷◌, ◌++◌,
  ◌==◌, map, append, any, filter, includes, is_empty, or_else, leb, eqb, if◌then◌else◌,
}
use tomorrowedge.Roles.{AgentRole}
use tomorrowedge.Orchestration.RoleGraph.{RoleGraph, RiskLevel, WorkflowKind}
use tomorrowedge.Planning.TaskGraph.{
  TaskGraphNodeStatus, EvidenceRequirement, ExpectedOutput, TaskGraphNode, TaskGraphEdge, TaskGraph,
}
use tomorrowedge.Planning.Plan.{
  TaskType, PlanStepStatus, PlanStep, Plan, is_analysis, workflow_kind_from_plan,
}
use tomorrowedge.Planning.Contract.{ObjectiveContract, TaskGraphPolicy, OrchestrationPolicy}
use tomorrowedge.Planning.Specs.{
  BuildTaskGraphFromContractInput, NodeSpec, read_only_specs, ask_user_specs, repair_loop_specs,
  criteria_or,
}
use tomorrowedge.Planning.Ids.{stable_id, sanitize_node_id}
use tomorrowedge.Planning.Specs.Patch.{patch_specs, high_risk_patch_specs}

abbrev edges_of : TaskGraphNode → List TaskGraphEdge
edges_of n =
    map (λ from_id. record { from = from_id; to = n.id; reason = "Task dependency" }) n.depends_on

abbrev flat_map {ℓ κ} : {A : Type ℓ} {B : Type κ} → (A → List B) → List A → List B
flat_map f [] = []
flat_map f (x ∷ xs) = f x ++ flat_map f xs

abbrev pub stop_conditions_for_workflow : WorkflowKind → List String
stop_conditions_for_workflow WorkflowKind.read_only = "read-only deliverable complete" ∷ []
stop_conditions_for_workflow WorkflowKind.advisory = "read-only deliverable complete" ∷ []
stop_conditions_for_workflow WorkflowKind.ask_user = "clarifying question delivered" ∷ []
stop_conditions_for_workflow WorkflowKind.repair = "repair verified or blocked" ∷ []
stop_conditions_for_workflow _ =
    "judge abort" ∷ "no patch candidate" ∷ "verification complete or explicitly unavailable" ∷ []

abbrev workflow_text : WorkflowKind → String
workflow_text WorkflowKind.read_only = "read_only"
workflow_text WorkflowKind.patch = "patch"
workflow_text WorkflowKind.repair = "repair"
workflow_text WorkflowKind.vision_patch = "vision_patch"
workflow_text WorkflowKind.advisory = "advisory"
workflow_text WorkflowKind.ask_user = "ask_user"
workflow_text WorkflowKind.sirius_council = "sirius_council"

abbrev level_text : RiskLevel → String
level_text RiskLevel.low = "low"
level_text RiskLevel.medium = "medium"
level_text RiskLevel.high = "high"

abbrev contract_boundaries : Option ObjectiveContract → List String
contract_boundaries none = []
contract_boundaries (some contract) =
    map (append "forbidden:") contract.forbidden_actions
    ++ map (append "allowedTool:") contract.allowed_tools

abbrev risk_boundaries_for_workflow :
    WorkflowKind → RiskLevel → Option ObjectiveContract → List String
risk_boundaries_for_workflow kind risk contract =
    append "workflowKind=" (workflow_text kind)
    ∷ append "riskLevel=" (level_text risk)
    ∷ contract_boundaries contract

abbrev objective_or : String → Option ObjectiveContract → String
objective_or goal none = goal
objective_or goal (some contract) = contract.local_objective

abbrev failure_or : List String → Option ObjectiveContract → List String
failure_or conditions none = conditions
failure_or conditions (some contract) = contract.stop_condition.failure

-- The graph of the nodes, with what the builder reads off them.
abbrev pub graph_of_nodes :
    BuildTaskGraphFromContractInput → RiskLevel → List TaskGraphNode → TaskGraph
graph_of_nodes input risk nodes = record {
  schema_version = "task-graph/v1";
  graph_id = append "task_graph_" (stable_id input.goal);
  goal = input.goal;
  root_objective = objective_or input.goal input.contract;
  workflow_kind = some input.workflow_kind;
  risk_level = risk;
  nodes = nodes;
  edges = flat_map edges_of nodes;
  entry_node_ids =
      map (λ (n : TaskGraphNode). n.id)
        (filter (λ (n : TaskGraphNode). is_empty n.depends_on) nodes);
  terminal_node_ids =
      map (λ (n : TaskGraphNode). n.id)
        (filter
          (λ (n : TaskGraphNode).
            not (includes (flat_map (λ (m : TaskGraphNode). m.depends_on) nodes) n.id))
          nodes);
  stop_conditions = failure_or (stop_conditions_for_workflow input.workflow_kind) input.contract;
  risk_boundaries = risk_boundaries_for_workflow input.workflow_kind risk input.contract;
}

unfoldable pub build_task_graph_from_contract : BuildTaskGraphFromContractInput → TaskGraph
unfolding materialize_node stable_id
build_task_graph_from_contract input = graph_of_nodes input (graph_risk input) (
    map (λ (s : NodeSpec). materialize_node s input.contract (graph_risk input))
      (slice (max_nodes input) (specs_for_workflow input)))

abbrev fallback_plan_steps : Plan → List PlanStep
fallback_plan_steps plan =
    record {
      id = "inspect_context";
      title = "Inspect context";
      detail = plan.goal;
      status = PlanStepStatus.done;
    }
    ∷ record {
      id = "summarize";
      title = if is_analysis plan.task_type then "Summarize findings" else "Summarize outcome";
      detail = "Complete the smallest evidence-backed workflow.";
      status = PlanStepStatus.pending;
    }
    ∷ []

abbrev contract_kind : Option ObjectiveContract → Option WorkflowKind
contract_kind none = none
contract_kind (some contract) = some contract.workflow_kind

pub record BuildTaskGraphInput : Type 0 where
  pub plan : Plan
  pub contract : Option ObjectiveContract
  pub role_graph : Option RoleGraph
  pub policy : Option OrchestrationPolicy

-- What `buildTaskGraph` passes on.
unfoldable pub input_of_plan : BuildTaskGraphInput → BuildTaskGraphFromContractInput
unfolding workflow_kind_from_plan
input_of_plan input = record {
  goal = input.plan.goal;
  workflow_kind =
      or_else input.plan.workflow_kind
        (or_else (contract_kind input.contract) (workflow_kind_from_plan input.plan));
  plan_steps =
      if is_empty input.plan.steps then fallback_plan_steps input.plan else input.plan.steps;
  contract = input.contract;
  role_graph = input.role_graph;
  risk_level = input.plan.risk_level;
  task_type = input.plan.task_type;
  verification_commands = input.plan.verification_commands;
  policy = input.policy;
}

unfoldable pub build_task_graph : BuildTaskGraphInput → TaskGraph
unfolding build_task_graph_from_contract input_of_plan
build_task_graph input = build_task_graph_from_contract (input_of_plan input)
