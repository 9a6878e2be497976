-- ===== src/Planning/Plan.antt =====
-- A plan, as src/schemas/plan.ts has it, and the kind of its workflow by
-- src/core/orchestration/workflowKind.ts.
use tomorrowedge.Prelude.{String, Bool, true, false, ◌||◌, Option, none, some, List, if◌then◌else◌}
use tomorrowedge.Roles.{EventPhase}
use tomorrowedge.Orchestration.RoleGraph.{RiskLevel, WorkflowKind}
use tomorrowedge.Planning.TaskGraph.{TaskGraph}

pub data TaskType : Type 0 where
  bugfix feature refactor test docs analysis unknown : TaskType

pub data PlanStepStatus : Type 0 where
  pending running done blocked : PlanStepStatus

pub record PlanStep : Type 0 where
  pub id : String
  pub title : String
  pub detail : String
  pub status : PlanStepStatus

pub record Plan : Type 0 where
  pub goal : String
  pub constraints : List String
  pub risk_level : RiskLevel
  pub task_type : TaskType
  pub workflow_kind : Option WorkflowKind
  pub requires_patch_workflow : Option Bool
  pub allowed_phases : Option (List EventPhase)
  pub acceptance_criteria : Option (List String)
  pub steps : List PlanStep
  pub task_graph : Option TaskGraph
  pub expected_files : Option (List String)
  pub verification_commands : Option (List String)
  pub debate_recommended : Bool
  pub reason_for_debate : Option String

abbrev pub is_analysis : TaskType → Bool
is_analysis TaskType.analysis = true
is_analysis _ = false

-- `requiresPatchWorkflow === false`
abbrev refuses_patches : Option Bool → Bool
refuses_patches (some false) = true
refuses_patches _ = false

abbrev kind_or : WorkflowKind → Option WorkflowKind → WorkflowKind
kind_or kind none = kind
kind_or kind (some given) = given

unfoldable pub workflow_kind_from_plan : Plan → WorkflowKind
workflow_kind_from_plan p =
    kind_or
      (if refuses_patches p.requires_patch_workflow || is_analysis p.task_type
        then WorkflowKind.read_only
        else WorkflowKind.patch)
      p.workflow_kind
