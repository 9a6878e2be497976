-- ===== src/Planning/Builder/Tests.antt =====
-- The builder on a small task, which has a pair of coders.
use tomorrowedge.Prelude.{◌≡◌, refl, true, false, none, some, [], ◌∷◌, arith}
use tomorrowedge.Orchestration.RoleGraph.{RiskLevel, WorkflowKind}
use tomorrowedge.ControlPlane.Workspace.{trim}
use tomorrowedge.Planning.Cycles.{node_ids}
use tomorrowedge.Planning.Plan.{TaskType}
use tomorrowedge.Planning.Specs.{BuildTaskGraphFromContractInput}
use tomorrowedge.Planning.Specs.Patch.{high_risk_patch_specs}
use tomorrowedge.Planning.Ids.{stable_id}
use tomorrowedge.Planning.Builder.{build_task_graph_from_contract}
use tomorrowedge.Planning.Validator.{validate_task_graph}
use tomorrowedge.Planning.Builder.Laws.{build-IsAccepted, build-repair_refused}

abbrev fix : WorkflowKind → RiskLevel → BuildTaskGraphFromContractInput
fix kind risk = record {
  goal = "Fix the parser!";
  workflow_kind = kind;
  plan_steps = [];
  contract = none;
  role_graph = none;
  risk_level = risk;
  task_type = TaskType.bugfix;
  verification_commands = some ("npm test" ∷ []);
  policy = none;
}

abbrev risky : BuildTaskGraphFromContractInput
risky = fix WorkflowKind.patch RiskLevel.high

abbrev risky_repair : BuildTaskGraphFromContractInput
risky_repair = fix WorkflowKind.repair RiskLevel.high

goal_has_id : stable_id "  Fix the parser!" ≡ "fix-the-parser"
unfolding stable_id
goal_has_id = refl

risky_steps :
    node_ids (build_task_graph_from_contract risky).nodes
    ≡ "inspect_context" ∷ "risk_map" ∷ "design_patch" ∷ "produce_patch" ∷ "judge_patch"
      ∷ "apply_patch" ∷ "verify_patch" ∷ "summarize" ∷ "security_review" ∷ []
unfolding build_task_graph_from_contract high_risk_patch_specs
risky_steps = refl

build-IsAccepted_example : (validate_task_graph (build_task_graph_from_contract risky)).ok ≡ true
unfolding trim
build-IsAccepted_example = build-IsAccepted risky (omega arith) refl refl

build-repair_refused_example :
    (validate_task_graph (build_task_graph_from_contract risky_repair)).ok ≡ false
build-repair_refused_example = build-repair_refused risky_repair (omega arith) refl refl
