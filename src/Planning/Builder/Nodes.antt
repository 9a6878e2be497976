-- ===== src/Planning/Builder/Nodes.antt =====
-- The steps and the nodes that a task graph is built of, src/core/planning/taskGraphBuilder.ts.
use tomorrowedge.Prelude.{
  ℕ, zero, suc, true, false, Option, none, some, List, [], ◌∷◌, map, or_else,
}
use tomorrowedge.Orchestration.RoleGraph.{RiskLevel, WorkflowKind}
use tomorrowedge.Planning.TaskGraph.{
  TaskGraphNodeStatus, EvidenceRequirement, ExpectedOutput, TaskGraphNode,
}
use tomorrowedge.Planning.Contract.{ObjectiveContract, TaskGraphPolicy, OrchestrationPolicy}
use tomorrowedge.Planning.Specs.{
  BuildTaskGraphFromContractInput, NodeSpec, read_only_specs, ask_user_specs, repair_loop_specs,
  criteria_or,
}
use tomorrowedge.Planning.Ids.{sanitize_node_id}
use tomorrowedge.Planning.Specs.Patch.{patch_specs, high_risk_patch_specs}

-- `rank[b] >= rank[a] ? b : a`
abbrev pub stronger_risk : RiskLevel → RiskLevel → RiskLevel
stronger_risk RiskLevel.high RiskLevel.low = RiskLevel.high
stronger_risk RiskLevel.high RiskLevel.medium = RiskLevel.high
stronger_risk RiskLevel.medium RiskLevel.low = RiskLevel.medium
stronger_risk a b = b

abbrev pub contract_risk : RiskLevel → Option ObjectiveContract → RiskLevel
contract_risk risk none = risk
contract_risk risk (some contract) = contract.risk_level

abbrev pub graph_risk : BuildTaskGraphFromContractInput → RiskLevel
graph_risk input = stronger_risk input.risk_level (contract_risk input.risk_level input.contract)

abbrev pub patch_specs_by_risk : RiskLevel → BuildTaskGraphFromContractInput → List NodeSpec
patch_specs_by_risk RiskLevel.high input = high_risk_patch_specs input
patch_specs_by_risk _ input = patch_specs input

-- The input is the one with the stronger risk, which only the last test reads.
abbrev pub specs_by_kind :
    WorkflowKind → RiskLevel → BuildTaskGraphFromContractInput → List NodeSpec
specs_by_kind WorkflowKind.read_only risk input = read_only_specs input
specs_by_kind WorkflowKind.advisory risk input = read_only_specs input
specs_by_kind WorkflowKind.ask_user risk input = ask_user_specs input
specs_by_kind WorkflowKind.repair risk input = repair_loop_specs input
specs_by_kind _ risk input = patch_specs_by_risk risk input

abbrev pub specs_for_workflow : BuildTaskGraphFromContractInput → List NodeSpec
specs_for_workflow input = specs_by_kind input.workflow_kind (graph_risk input) input

abbrev limit_in : Option TaskGraphPolicy → Option ℕ
limit_in none = none
limit_in (some limits) = some limits.max_task_nodes

abbrev limit_of : Option OrchestrationPolicy → Option ℕ
limit_of none = none
limit_of (some policy) = limit_in policy.task_graph_policy

abbrev pub max_nodes : BuildTaskGraphFromContractInput → ℕ
max_nodes input = or_else (limit_of input.policy) 16

-- `slice(0, n)`
abbrev pub slice {ℓ} : {A : Type ℓ} → ℕ → List A → List A
slice n [] = []
slice zero (x ∷ xs) = []
slice (suc n) (x ∷ xs) = x ∷ slice n xs

unfoldable pub materialize_node : NodeSpec → Option ObjectiveContract → RiskLevel → TaskGraphNode
unfolding sanitize_node_id
materialize_node spec contract risk =
    let depends_on = or_else spec.depends_on [] in
    let required_inputs = or_else spec.required_inputs [] in
    let expected_outputs = or_else spec.expected_outputs [] in
    record {
      id = sanitize_node_id spec.id;
      kind = spec.kind;
      title = spec.title;
      objective = spec.objective;
      detail = spec.objective;
      phase = spec.phase;
      owner_role = spec.owner_role;
      owner_agent_id = none;
      assigned_provider = none;
      assigned_model = none;
      assignment_reason = none;
      claim_mode = none;
      fallback_agents = none;
      role_hints = spec.owner_role ∷ [];
      depends_on = map sanitize_node_id depends_on;
      dependencies = map sanitize_node_id depends_on;
      required_inputs = required_inputs;
      expected_outputs = expected_outputs;
      required_evidence = map (λ (item : EvidenceRequirement). item.description) required_inputs;
      expected_artifacts = map (λ (item : ExpectedOutput). item.description) expected_outputs;
      evidence_refs = some [];
      artifact_refs = some [];
      files = spec.files;
      risk_level = or_else spec.risk_level risk;
      mutation_allowed = or_else spec.mutation_allowed false;
      can_run_in_parallel = or_else spec.can_run_in_parallel false;
      stop_if_fails = or_else spec.stop_if_fails true;
      fallback_role = spec.fallback_role;
      acceptance_criteria = or_else spec.acceptance_criteria (criteria_or [] contract);
      status = or_else spec.status TaskGraphNodeStatus.pending;
    }
