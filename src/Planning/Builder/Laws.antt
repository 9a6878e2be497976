-- ===== src/Planning/Builder/Laws.antt =====
-- What the validator says of the graphs that are built, src/core/planning.
pub mod Kinds
pub use tomorrowedge.Planning.Builder.Laws.Kinds.{is_spoken}
use tomorrowedge.Planning.Builder.Laws.Kinds.{slice-all, repairs_failing, specs-Accepts}
use tomorrowedge.Prelude.{
  ℕ, zero, suc, ◌≤◌, ◌≡◌, refl, ap, inl, inr, String, Bool, true, false, not, ◌||◌, Option, none,
  some, List, [], ◌∷◌, map, ◌==◌, join, length, Bool-cases, arith,
}
use tomorrowedge.Orchestration.RoleGraph.{is_read_only, RiskLevel, WorkflowKind}
use tomorrowedge.ControlPlane.Workspace.{trim}
use tomorrowedge.Planning.TaskGraph.{TaskGraphNode}
use tomorrowedge.Planning.Cycles.{has_cycle}
use tomorrowedge.Planning.Inputs.{upstream_produces}
use tomorrowedge.Planning.Validator.{validate_task_graph, risk_is_high, kind_is_patch}
use tomorrowedge.Planning.Contract.{ObjectiveContract}
use tomorrowedge.Planning.Specs.{
  BuildTaskGraphFromContractInput, NodeSpec, read_only_specs, ask_user_specs, repair_loop_specs,
  commands_or, step_titles,
}
use tomorrowedge.Planning.Specs.Patch.{
  patch_specs, high_risk_patch_specs, patch_specs_of, high_risk_specs_of, candidate_ids,
  candidate_patch_node_ids, should_include_alternative, forbids_parallel_roles, verify_objective,
}
use tomorrowedge.Planning.Builder.{
  graph_of_nodes, materialize_node, build_task_graph_from_contract, graph_risk, max_nodes, slice,
  specs_by_kind, patch_specs_by_risk, specs_for_workflow,
}

length-patch_specs_of :
    (criteria : List String) (parallel alternative : Bool) (objective : String)
    → (length (patch_specs_of criteria parallel alternative objective) ≤ 10)
      × (length (
            high_risk_specs_of criteria
              (candidate_ids alternative)
              (patch_specs_of criteria parallel alternative objective))
          ≤ 10)
length-patch_specs_of criteria parallel true objective = (omega arith, omega arith)
length-patch_specs_of criteria parallel false objective = (omega arith, omega arith)

length-patch_specs :
    (input : BuildTaskGraphFromContractInput) (risk : RiskLevel)
    → length (patch_specs_by_risk risk input) ≤ 10
unfolding patch_specs high_risk_patch_specs candidate_patch_node_ids
length-patch_specs input RiskLevel.low =
    (length-patch_specs_of (step_titles input) (not (forbids_parallel_roles input.policy))
      (should_include_alternative input) (verify_objective input)).0
length-patch_specs input RiskLevel.medium =
    (length-patch_specs_of (step_titles input) (not (forbids_parallel_roles input.policy))
      (should_include_alternative input) (verify_objective input)).0
length-patch_specs input RiskLevel.high =
    (length-patch_specs_of (step_titles input) (not (forbids_parallel_roles input.policy))
      (should_include_alternative input) (verify_objective input)).1

length-specs :
    (input : BuildTaskGraphFromContractInput) (kind : WorkflowKind) (risk : RiskLevel)
    → length (specs_by_kind kind risk input) ≤ 10
unfolding read_only_specs ask_user_specs repair_loop_specs
length-specs input WorkflowKind.read_only risk = omega arith
length-specs input WorkflowKind.advisory risk = omega arith
length-specs input WorkflowKind.ask_user risk = omega arith
length-specs input WorkflowKind.repair risk = omega arith
length-specs input WorkflowKind.patch risk = length-patch_specs input risk
length-specs input WorkflowKind.vision_patch risk = length-patch_specs input risk
length-specs input WorkflowKind.sirius_council risk = length-patch_specs input risk

all_specs :
    (input : BuildTaskGraphFromContractInput)
    → 10 ≤ max_nodes input
    → slice (max_nodes input) (specs_for_workflow input) ≡ specs_for_workflow input
all_specs input h =
    let short = length-specs input input.workflow_kind (graph_risk input) in
    slice-all (max_nodes input) (specs_for_workflow input) (omega arith)

-- The validator accepts every graph that is built, if the limit of the policy lets ten steps in, the
-- commands are not white and a repair is not of a high risk.
pub build-IsAccepted :
    (input : BuildTaskGraphFromContractInput)
    → 10 ≤ max_nodes input
    → is_spoken input.verification_commands ≡ true
    → repairs_failing (graph_risk input) input.workflow_kind ≡ false
    → (validate_task_graph (build_task_graph_from_contract input)).ok ≡ true
unfolding build_task_graph_from_contract
build-IsAccepted input limit spoken r =
    rw (all_specs input limit)
      (specs-Accepts input spoken input.workflow_kind (graph_risk input) refl r)

-- The validator refuses every repair of a high risk, which it wants a judge for, if the limit is six
-- steps at least, which a repair has.
pub build-repair_refused :
    (input : BuildTaskGraphFromContractInput)
    → 6 ≤ max_nodes input
    → input.workflow_kind ≡ WorkflowKind.repair
    → risk_is_high (graph_risk input) ≡ true
    → (validate_task_graph (build_task_graph_from_contract input)).ok ≡ false
unfolding build_task_graph_from_contract validate_task_graph has_cycle upstream_produces
    materialize_node repair_loop_specs
build-repair_refused input limit e r =
    rw (e, slice-all (max_nodes input) (repair_loop_specs input) (omega arith), r)
      (elim (Bool-cases (
        trim (commands_or "Run the failed verifier after repair." input.verification_commands)
        == "")) [ inl b ↦ rw b refl | inr b ↦ rw b refl ])
