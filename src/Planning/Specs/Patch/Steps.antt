-- ===== src/Planning/Specs/Patch/Steps.antt =====
-- The steps of the usual patch, src/core/planning/taskGraphBuilder.ts.
use tomorrowedge.Prelude.{String, Bool, true, false, some, List, [], ◌∷◌, if◌then◌else◌}
use tomorrowedge.Roles.{AgentRole, EventPhase}
use tomorrowedge.Planning.TaskGraph.{TaskNodeKind, EvidenceKind, OutputKind}
use tomorrowedge.Planning.Specs.{NodeSpec, spec, evidence, output}

abbrev pub context_spec : List String → NodeSpec
context_spec criteria =
    record (spec "inspect_context" TaskNodeKind.inspect "Inspect context"
      "Select and read the relevant files before editing." EventPhase.exploration
      AgentRole.explorer) {
        expected_outputs =
            some (
              output OutputKind.context "context_summary" "Selected files and context summary"
              ∷ []);
        stop_if_fails = some true;
        acceptance_criteria = some criteria;
      }

abbrev pub design_spec : List String → NodeSpec
design_spec criteria =
    record (spec "design_patch" TaskNodeKind.design "Design patch"
      "Translate the objective and context into a narrow implementation plan." EventPhase.planning
      AgentRole.planner) {
        depends_on = some ("inspect_context" ∷ []);
        required_inputs =
            some (evidence EvidenceKind.file "context_summary" "Selected code context" true ∷ []);
        expected_outputs = some (output OutputKind.plan "patch_design" "Patch design" ∷ []);
        stop_if_fails = some true;
        acceptance_criteria = some criteria;
      }

abbrev pub candidate_spec : List String → Bool → NodeSpec
candidate_spec criteria parallel =
    record (spec "produce_patch" TaskNodeKind.patch "Produce patch candidate"
      "Generate one or more candidate diffs without applying them." EventPhase.coding
      AgentRole.coder_a) {
        depends_on = some ("design_patch" ∷ []);
        required_inputs =
            some (evidence EvidenceKind.reasoning "patch_design" "Patch design" true ∷ []);
        expected_outputs =
            some (output OutputKind.patch "patch_candidate" "Patch candidate diff" ∷ []);
        mutation_allowed = some false;
        can_run_in_parallel = some parallel;
        stop_if_fails = some true;
        acceptance_criteria = some criteria;
      }

abbrev pub alternative_spec : List String → NodeSpec
alternative_spec criteria =
    record (spec "produce_patch_alt" TaskNodeKind.patch "Produce alternative patch candidate"
      "Generate an alternative candidate diff without applying it." EventPhase.coding
      AgentRole.coder_b) {
        depends_on = some ("design_patch" ∷ []);
        required_inputs =
            some (evidence EvidenceKind.reasoning "patch_design" "Patch design" true ∷ []);
        expected_outputs =
            some (
              output OutputKind.patch "patch_candidate_alt" "Alternative patch candidate diff"
              ∷ []);
        mutation_allowed = some false;
        can_run_in_parallel = some true;
        stop_if_fails = some false;
        acceptance_criteria = some criteria;
      }

abbrev pub patch_nodes : List String → Bool → Bool → List NodeSpec
patch_nodes criteria parallel alternative =
    if alternative
    then candidate_spec criteria parallel ∷ alternative_spec criteria ∷ []
    else candidate_spec criteria parallel ∷ []

abbrev pub review_spec : List String → List String → NodeSpec
review_spec criteria patch_node_ids =
    record (spec "review_patch" TaskNodeKind.review "Review patch"
      "Review candidate correctness, risk, regressions, and evidence coverage." EventPhase.review
      AgentRole.reviewer) {
        depends_on = some patch_node_ids;
        required_inputs =
            some (evidence EvidenceKind.diff "patch_candidate" "Patch candidate diff" true ∷ []);
        expected_outputs = some (output OutputKind.review "review_decision" "Review report" ∷ []);
        stop_if_fails = some true;
        acceptance_criteria = some criteria;
      }

abbrev pub judge_spec : List String → NodeSpec
judge_spec criteria =
    record (spec "judge_patch" TaskNodeKind.judge "Judge patch"
      "Select, revise, ask the user, or abort based on review evidence." EventPhase.judge
      AgentRole.judge) {
        depends_on = some ("review_patch" ∷ []);
        required_inputs = some (
            evidence EvidenceKind.diff "patch_candidate" "Patch candidate diff" true
            ∷ evidence EvidenceKind.review "review_decision" "Review report" true
            ∷ []);
        expected_outputs = some (output OutputKind.judgment "judge_decision" "Judge decision" ∷ []);
        stop_if_fails = some true;
        acceptance_criteria = some criteria;
      }

abbrev pub apply_spec : List String → NodeSpec
apply_spec criteria =
    record (spec "apply_patch" TaskNodeKind.apply_patch "Apply selected patch"
      "Apply only the candidate selected by the judge." EventPhase.patch AgentRole.runner) {
        depends_on = some ("judge_patch" ∷ []);
        required_inputs =
            some (evidence EvidenceKind.judge "judge_decision" "Selected judge decision" true ∷ []);
        expected_outputs =
            some (output OutputKind.artifact "patch_apply" "Patch apply result" ∷ []);
        mutation_allowed = some true;
        stop_if_fails = some true;
        acceptance_criteria = some criteria;
      }

abbrev pub verify_spec : List String → String → NodeSpec
verify_spec criteria objective =
    record (spec "verify_patch" TaskNodeKind.verify "Verify patch" objective EventPhase.verification
      AgentRole.runner) {
        depends_on = some ("apply_patch" ∷ []);
        required_inputs =
            some (evidence EvidenceKind.artifact "patch_apply" "Patch apply result" true ∷ []);
        expected_outputs =
            some (output OutputKind.test_result "test_evidence" "Verification result" ∷ []);
        stop_if_fails = some false;
        acceptance_criteria = some criteria;
      }

abbrev pub outcome_spec : List String → NodeSpec
outcome_spec criteria =
    record (spec "summarize" TaskNodeKind.summarize "Summarize outcome"
      "Summarize the patch, judgment, verification, and remaining risk." EventPhase.summary
      AgentRole.summarizer) {
        depends_on = some ("verify_patch" ∷ []);
        required_inputs = some (
            evidence EvidenceKind.shell "test_evidence"
              "Verification result or explicit no-verifier note" false
            ∷ []);
        expected_outputs = some (output OutputKind.summary "final_summary" "Final summary" ∷ []);
        stop_if_fails = some false;
        acceptance_criteria = some criteria;
      }
