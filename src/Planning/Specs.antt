-- ===== src/Planning/Specs.antt =====
-- The steps of a workflow, src/core/planning/taskGraphBuilder.ts: what the builder is given, and its
-- specifications for reading, asking and repairing.
pub mod Patch
use tomorrowedge.Prelude.{
  ℕ, String, Bool, true, false, not, ◌&&◌, Option, none, some, List, [], ◌∷◌, ◌++◌, ◌==◌, map, any,
  join, or_else, filter, includes, if◌then◌else◌,
}
use tomorrowedge.Roles.{AgentRole, EventPhase}
use tomorrowedge.Orchestration.RoleGraph.{RoleGraph, RoleNode, RiskLevel, WorkflowKind}
use tomorrowedge.Planning.TaskGraph.{
  TaskNodeKind, TaskGraphNodeStatus, EvidenceKind, EvidenceRequirement, OutputKind, ExpectedOutput,
}
use tomorrowedge.Planning.Plan.{PlanStep, TaskType}
use tomorrowedge.Planning.Contract.{ObjectiveContract, OrchestrationPolicy}

pub record BuildTaskGraphFromContractInput : Type 0 where
  pub goal : String
  pub workflow_kind : WorkflowKind
  pub plan_steps : List PlanStep
  pub contract : Option ObjectiveContract
  pub role_graph : Option RoleGraph
  pub risk_level : RiskLevel
  pub task_type : TaskType
  pub verification_commands : Option (List String)
  pub policy : Option OrchestrationPolicy

pub record NodeSpec : Type 0 where
  pub id : String
  pub kind : TaskNodeKind
  pub title : String
  pub objective : String
  pub phase : EventPhase
  pub owner_role : AgentRole
  pub depends_on : Option (List String)
  pub required_inputs : Option (List EvidenceRequirement)
  pub expected_outputs : Option (List ExpectedOutput)
  pub files : Option (List String)
  pub risk_level : Option RiskLevel
  pub mutation_allowed : Option Bool
  pub can_run_in_parallel : Option Bool
  pub stop_if_fails : Option Bool
  pub fallback_role : Option AgentRole
  pub acceptance_criteria : Option (List String)
  pub status : Option TaskGraphNodeStatus

-- A specification with its required fields only.
abbrev pub spec : String → TaskNodeKind → String → String → EventPhase → AgentRole → NodeSpec
spec id kind title objective phase owner_role = record {
  id = id;
  kind = kind;
  title = title;
  objective = objective;
  phase = phase;
  owner_role = owner_role;
  depends_on = none;
  required_inputs = none;
  expected_outputs = none;
  files = none;
  risk_level = none;
  mutation_allowed = none;
  can_run_in_parallel = none;
  stop_if_fails = none;
  fallback_role = none;
  acceptance_criteria = none;
  status = none;
}

abbrev pub evidence : EvidenceKind → String → String → Bool → EvidenceRequirement
evidence kind id description required = record {
  id = id;
  kind = kind;
  description = description;
  required = required;
}

abbrev pub output : OutputKind → String → String → ExpectedOutput
output kind id description = record { id = id; kind = kind; description = description }

-- `input.contract?.successCriteria ?? criteria`
abbrev pub criteria_or : List String → Option ObjectiveContract → List String
criteria_or criteria none = criteria
criteria_or criteria (some contract) = contract.success_criteria

abbrev pub step_titles : BuildTaskGraphFromContractInput → List String
step_titles input =
    criteria_or (map (λ (step : PlanStep). step.title) input.plan_steps) input.contract

-- `verificationCommands?.join("; ") || other`
abbrev pub commands_or : String → Option (List String) → String
commands_or other none = other
commands_or other (some commands) = if join "; " commands == "" then other else join "; " commands

abbrev pub inspect_spec : List String → NodeSpec
inspect_spec criteria =
    record (spec "inspect_context" TaskNodeKind.inspect "Inspect context"
      "Read only the files or artifacts needed to answer the objective." EventPhase.exploration
      AgentRole.explorer) {
        expected_outputs =
            some
              (output OutputKind.context "context_summary" "Evidence-backed context summary" ∷ []);
        stop_if_fails = some true;
        acceptance_criteria = some criteria;
      }

abbrev pub findings_spec : List String → NodeSpec
findings_spec criteria =
    record (spec "summarize_findings" TaskNodeKind.summarize "Summarize findings"
      "Return a bounded answer without writing files, applying patches, or running mutation tools."
      EventPhase.summary AgentRole.summarizer) {
        depends_on = some ("inspect_context" ∷ []);
        required_inputs =
            some
              (evidence EvidenceKind.file "context_summary" "Read-only context summary" true ∷ []);
        expected_outputs =
            some (output OutputKind.summary "final_answer" "Final read-only answer" ∷ []);
        stop_if_fails = some true;
        acceptance_criteria = some criteria;
      }

unfoldable pub read_only_specs : BuildTaskGraphFromContractInput → List NodeSpec
read_only_specs input = inspect_spec (step_titles input) ∷ findings_spec (step_titles input) ∷ []

unfoldable pub ask_user_specs : BuildTaskGraphFromContractInput → List NodeSpec
ask_user_specs input =
    let criteria = criteria_or ("User receives a clear question" ∷ []) input.contract in
    record (spec "clarify_objective" TaskNodeKind.ask_user "Ask for clarification"
      "Ask the user for the missing decision required before execution." EventPhase.planning
      AgentRole.planner) {
        expected_outputs =
            some (output OutputKind.summary "clarifying_question" "Clarifying question" ∷ []);
        stop_if_fails = some true;
        acceptance_criteria = some criteria;
      }
    ∷ []

abbrev pub failed_spec : List String → NodeSpec
failed_spec criteria =
    record (spec "verify_failed" TaskNodeKind.verify "Capture failed verifier"
      "Record the failed command output that justifies a repair attempt." EventPhase.verification
      AgentRole.runner) {
        expected_outputs =
            some (output OutputKind.test_result "failed_verifier" "Failed verifier output" ∷ []);
        stop_if_fails = some true;
        acceptance_criteria = some criteria;
      }

abbrev pub diagnose_spec : List String → NodeSpec
diagnose_spec criteria =
    record (spec "diagnose_failure" TaskNodeKind.analyze "Diagnose failure"
      "Explain the minimal repair target from failed verifier evidence." EventPhase.repair
      AgentRole.repairer) {
        depends_on = some ("verify_failed" ∷ []);
        required_inputs =
            some (evidence EvidenceKind.shell "failed_verifier" "Failed verifier output" true ∷ []);
        expected_outputs =
            some (output OutputKind.artifact "repair_diagnosis" "Repair diagnosis" ∷ []);
        stop_if_fails = some true;
        acceptance_criteria = some criteria;
      }

abbrev pub repair_spec : List String → NodeSpec
repair_spec criteria =
    record (spec "produce_repair" TaskNodeKind.repair "Produce repair patch"
      "Generate a repair patch candidate." EventPhase.repair AgentRole.repairer) {
        depends_on = some ("diagnose_failure" ∷ []);
        required_inputs =
            some (evidence EvidenceKind.reasoning "repair_diagnosis" "Repair diagnosis" true ∷ []);
        expected_outputs = some (output OutputKind.patch "repair_patch" "Repair patch" ∷ []);
        mutation_allowed = some false;
        stop_if_fails = some true;
        acceptance_criteria = some criteria;
      }

abbrev pub review_repair_spec : List String → NodeSpec
review_repair_spec criteria =
    record (spec "review_repair" TaskNodeKind.review "Review repair"
      "Review the repair patch before applying it." EventPhase.review AgentRole.reviewer) {
        depends_on = some ("produce_repair" ∷ []);
        required_inputs = some (evidence EvidenceKind.diff "repair_patch" "Repair patch" true ∷ []);
        expected_outputs = some (output OutputKind.review "review_decision" "Repair review" ∷ []);
        stop_if_fails = some true;
        acceptance_criteria = some criteria;
      }

abbrev pub apply_repair_spec : List String → NodeSpec
apply_repair_spec criteria =
    record (spec "apply_repair" TaskNodeKind.apply_patch "Apply repair"
      "Apply the reviewed repair patch." EventPhase.repair AgentRole.runner) {
        depends_on = some ("review_repair" ∷ []);
        required_inputs =
            some (evidence EvidenceKind.review "review_decision" "Repair review" true ∷ []);
        expected_outputs =
            some (output OutputKind.artifact "patch_apply" "Repair apply result" ∷ []);
        mutation_allowed = some true;
        stop_if_fails = some true;
        acceptance_criteria = some criteria;
      }

abbrev pub verify_repair_spec : List String → String → NodeSpec
verify_repair_spec criteria objective =
    record (spec "verify_repair" TaskNodeKind.verify "Verify repair" objective
      EventPhase.verification AgentRole.runner) {
        depends_on = some ("apply_repair" ∷ []);
        required_inputs =
            some (evidence EvidenceKind.artifact "patch_apply" "Repair apply result" true ∷ []);
        expected_outputs =
            some (output OutputKind.test_result "test_evidence" "Repair verification" ∷ []);
        stop_if_fails = some false;
        acceptance_criteria = some criteria;
      }

unfoldable pub repair_loop_specs : BuildTaskGraphFromContractInput → List NodeSpec
repair_loop_specs input =
    let criteria = criteria_or ("Repair verifier failure" ∷ []) input.contract in
    let objective =
      commands_or "Run the failed verifier after repair." input.verification_commands in
    failed_spec criteria
    ∷ diagnose_spec criteria
    ∷ repair_spec criteria
    ∷ review_repair_spec criteria
    ∷ apply_repair_spec criteria
    ∷ verify_repair_spec criteria objective
    ∷ []
