-- ===== src/Planning/Specs/Patch.antt =====
-- The specifications for patches, src/core/planning/taskGraphBuilder.ts, of the usual and of a high
-- risk.
pub mod Steps
pub use tomorrowedge.Planning.Specs.Patch.Steps.{
  context_spec, design_spec, patch_nodes, review_spec, judge_spec, apply_spec, verify_spec,
  outcome_spec,
}
use tomorrowedge.Prelude.{
  String, Bool, true, false, not, Option, none, some, List, [], ◌∷◌, ◌++◌, ◌==◌, map, any, filter,
  includes, if◌then◌else◌,
}
use tomorrowedge.Roles.{AgentRole, EventPhase}
use tomorrowedge.Orchestration.RoleGraph.{RoleGraph, RoleNode}
use tomorrowedge.Planning.TaskGraph.{TaskNodeKind, EvidenceKind, OutputKind}
use tomorrowedge.Planning.Contract.{OrchestrationPolicy}
use tomorrowedge.Planning.Specs.{
  BuildTaskGraphFromContractInput, NodeSpec, spec, evidence, output, step_titles, commands_or,
}

abbrev pub forbids_parallel_roles : Option OrchestrationPolicy → Bool
forbids_parallel_roles none = false
forbids_parallel_roles (some policy) = not policy.planning_policy.allow_parallel_roles

abbrev has_coder_b : Option RoleGraph → Bool
has_coder_b none = false
has_coder_b (some graph) = any (λ (n : RoleNode). n.id == "coder_b") graph.nodes

unfoldable pub should_include_alternative : BuildTaskGraphFromContractInput → Bool
should_include_alternative input =
    if forbids_parallel_roles input.policy then false else has_coder_b input.role_graph

abbrev pub candidate_ids : Bool → List String
candidate_ids alternative =
    if alternative then "produce_patch" ∷ "produce_patch_alt" ∷ [] else "produce_patch" ∷ []

unfoldable pub candidate_patch_node_ids : BuildTaskGraphFromContractInput → List String
unfolding should_include_alternative
candidate_patch_node_ids input = candidate_ids (should_include_alternative input)

-- `patchSpecs` of what it reads of its input.
abbrev pub patch_specs_of : List String → Bool → Bool → String → List NodeSpec
patch_specs_of criteria parallel alternative objective =
    context_spec criteria
    ∷ design_spec criteria
    ∷ (patch_nodes criteria parallel alternative
        ++ review_spec criteria
            (map (λ (n : NodeSpec). n.id) (patch_nodes criteria parallel alternative))
          ∷ judge_spec criteria
          ∷ apply_spec criteria
          ∷ verify_spec criteria objective
          ∷ outcome_spec criteria
          ∷ [])

abbrev pub verify_objective : BuildTaskGraphFromContractInput → String
verify_objective input =
    commands_or "Run the configured verifier or record why verification is not available."
      input.verification_commands

unfoldable pub patch_specs : BuildTaskGraphFromContractInput → List NodeSpec
unfolding should_include_alternative
patch_specs input =
    patch_specs_of (step_titles input) (not (forbids_parallel_roles input.policy))
      (should_include_alternative input) (verify_objective input)

abbrev pub security_spec : List String → List String → NodeSpec
security_spec criteria patch_node_ids =
    record (spec "security_review" TaskNodeKind.review "Security and risk review"
      "High-risk contracts require explicit risk, security, and regression review before judge."
      EventPhase.review AgentRole.reviewer) {
        depends_on = some patch_node_ids;
        required_inputs = some (
            evidence EvidenceKind.diff "patch_candidate" "Patch candidate diff" true
            ∷ evidence EvidenceKind.reasoning "risk_map" "Risk map" false
            ∷ []);
        expected_outputs =
            some (output OutputKind.review "review_decision" "Security review report" ∷ []);
        stop_if_fails = some true;
        acceptance_criteria = some criteria;
      }

abbrev pub risk_map_spec : List String → NodeSpec
risk_map_spec criteria =
    record (spec "risk_map" TaskNodeKind.analyze "Map risk boundary"
      "Identify files, permissions, commands, and invariants that make this task high risk."
      EventPhase.planning AgentRole.planner) {
        depends_on = some ("inspect_context" ∷ []);
        required_inputs =
            some (evidence EvidenceKind.file "context_summary" "Selected code context" true ∷ []);
        expected_outputs = some (output OutputKind.artifact "risk_map" "Risk map" ∷ []);
        stop_if_fails = some true;
        acceptance_criteria = some criteria;
      }

-- The cases of the `map`, by the id of the node.
abbrev pub rewired : List String → NodeSpec → NodeSpec
rewired patch_node_ids n =
    if n.id == "inspect_context"
    then n
    else if n.id == "design_patch"
    then n
    else if includes patch_node_ids n.id
    then record n { depends_on = some ("design_patch" ∷ "risk_map" ∷ []) }
    else if n.id == "judge_patch"
    then record n { depends_on = some ("security_review" ∷ []) }
    else n

-- `nodes.splice(1, 0, node)`
abbrev pub insert_second : NodeSpec → List NodeSpec → List NodeSpec
insert_second n [] = n ∷ []
insert_second n (first ∷ rest) = first ∷ n ∷ rest

abbrev pub high_risk_specs_of : List String → List String → List NodeSpec → List NodeSpec
high_risk_specs_of criteria patch_node_ids specs = insert_second (risk_map_spec criteria) (
    map (rewired patch_node_ids) (
      filter (λ (n : NodeSpec). not (n.id == "review_patch")) specs
      ++ security_spec criteria patch_node_ids ∷ []))

unfoldable pub high_risk_patch_specs : BuildTaskGraphFromContractInput → List NodeSpec
unfolding candidate_patch_node_ids patch_specs
high_risk_patch_specs input =
    high_risk_specs_of (step_titles input) (candidate_patch_node_ids input) (patch_specs input)
