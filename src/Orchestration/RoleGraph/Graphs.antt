-- ===== src/Orchestration/RoleGraph/Graphs.antt =====
-- The graphs of src/core/orchestration/roleGraph.ts before roles are taken out.
use tomorrowedge.Prelude.{
  ℕ, String, Bool, true, false, ◌||◌, Option, List, [], ◌∷◌, ◌++◌, if◌then◌else◌,
}
use tomorrowedge.Roles.{
  AgentRole, planner, explorer, coder_a, coder_b, reviewer, judge, runner, repairer, summarizer,
  EventPhase, role_text,
}

pub data WorkflowKind : Type 0 where
  read_only patch repair vision_patch advisory ask_user sirius_council : WorkflowKind

pub data GraphKind : Type 0 where
  workflow : WorkflowKind → GraphKind
  debate_patch high_risk_patch repair_loop : GraphKind

pub data StopCondition : Type 0 where
  read_only_complete judge_abort no_patch_candidate : StopCondition
  empty_diff repeated_repair budget_blocked_without_fallback : StopCondition

pub record RoleNode : Type 0 where
  pub id : String
  pub role : AgentRole
  pub required : Bool
  pub dependencies : List String
  pub can_fallback : Bool
  pub can_skip : Bool
  pub max_retries : ℕ
  pub produces : List String
  pub consumes : List String

pub record RoleGraph : Type 0 where
  pub workflow_kind : GraphKind
  pub nodes : List RoleNode
  pub stop_conditions : List StopCondition

pub data RiskLevel : Type 0 where
  low medium high : RiskLevel

-- An option that is left out is `false`, but for `allow_parallel_roles`, which is `true` then.
pub record BuildRoleGraphInput : Type 0 where
  pub workflow_kind : WorkflowKind
  pub high_risk : Bool
  pub risk_level : Option RiskLevel
  pub debate : Bool
  pub allow_parallel_roles : Bool
  pub repair_loop : Bool
  pub allowed_roles : Option (List AgentRole)
  pub allowed_phases : Option (List EventPhase)

-- `node(role, dependencies)` with the defaults; overrides are record updates of it.
abbrev pub node : AgentRole → List String → List String → List String → RoleNode
node role dependencies produces consumes = record {
  id = role_text role;
  role = role;
  required = true;
  dependencies = dependencies;
  can_fallback = true;
  can_skip = false;
  max_retries = 0;
  produces = produces;
  consumes = consumes;
}

abbrev optional : RoleNode → RoleNode
optional n = record n { required = false; can_skip = true }

abbrev runner_step : String → RoleNode → RoleNode
runner_step id n = record n { id = id; can_fallback = false; can_skip = true }

-- The two nodes that a governed read-only graph has as well.
abbrev advice_nodes : List RoleNode
advice_nodes =
    optional (node reviewer ("explorer" ∷ []) ("review_advice" ∷ []) ("plan" ∷ "context" ∷ []))
    ∷ optional (
        node judge ("reviewer" ∷ []) ("judge_advice" ∷ [])
          ("plan" ∷ "context" ∷ "review_advice" ∷ []))
    ∷ []

abbrev summary_inputs : Bool → List String
summary_inputs true = "plan" ∷ "context" ∷ "review_advice" ∷ "judge_advice" ∷ []
summary_inputs false = "plan" ∷ "context" ∷ []

unfoldable pub read_only_graph : WorkflowKind → Bool → RoleGraph
read_only_graph kind governed = record {
  workflow_kind = workflow kind;
  nodes =
      (node planner [] ("plan" ∷ []) []
        ∷ node explorer ("planner" ∷ []) ("context" ∷ []) ("plan" ∷ [])
        ∷ [])
      ++ ((if governed then advice_nodes else [])
          ++ node summarizer ("explorer" ∷ []) ("summary" ∷ []) (summary_inputs governed) ∷ []);
  stop_conditions = read_only_complete ∷ budget_blocked_without_fallback ∷ [];
}

abbrev candidate : AgentRole → RoleNode
candidate role =
    node role ("explorer" ∷ []) ("patch_candidate" ∷ "patch_evidence" ∷ [])
      ("plan" ∷ "context" ∷ [])

abbrev patch_tail : Bool → Bool → List RoleNode
patch_tail high_risk debate =
    record (node reviewer
      (if debate || high_risk then "coder_a" ∷ "coder_b" ∷ [] else "coder_a" ∷ [])
      ("review_evidence" ∷ []) ("patch_candidate" ∷ "patch_evidence" ∷ [])) { required = high_risk }
    ∷ node judge ("reviewer" ∷ []) ("judge_decision" ∷ [])
        ("patch_candidate" ∷ "patch_evidence" ∷ "review_evidence" ∷ [])
    ∷ runner_step "patch_runner"
        (node runner ("judge" ∷ []) ("patch_apply" ∷ []) ("judge_decision" ∷ []))
    ∷ runner_step "test_runner"
        (node runner ("patch_runner" ∷ []) ("test_evidence" ∷ []) ("patch_apply" ∷ []))
    ∷ node summarizer ("test_runner" ∷ []) ("summary" ∷ []) (
        "patch_evidence" ∷ "review_evidence" ∷ "judge_decision" ∷ "patch_apply" ∷ "test_evidence"
        ∷ [])
    ∷ []

unfoldable pub patch_graph : GraphKind → Bool → Bool → RoleGraph
patch_graph kind high_risk debate = record {
  workflow_kind = kind;
  nodes =
      (node planner [] ("plan" ∷ []) []
        ∷ node explorer ("planner" ∷ []) ("context" ∷ []) ("plan" ∷ [])
        ∷ candidate coder_a
        ∷ [])
      ++ ((if debate then optional (candidate coder_b) ∷ [] else [])
          ++ patch_tail high_risk debate);
  stop_conditions =
      judge_abort ∷ no_patch_candidate ∷ empty_diff ∷ budget_blocked_without_fallback ∷ [];
}

unfoldable pub repair_loop_graph : RoleGraph
repair_loop_graph = record {
  workflow_kind = repair_loop;
  nodes =
      node runner [] ("test_evidence" ∷ []) []
      ∷ optional (node repairer ("runner" ∷ []) ("repair_patch" ∷ []) ("test_evidence" ∷ []))
      ∷ optional (node reviewer ("repairer" ∷ []) ("review_evidence" ∷ []) ("repair_patch" ∷ []))
      ∷ record (node runner ("reviewer" ∷ []) ("test_evidence" ∷ []) ("repair_patch" ∷ [])) {
        id = "runner_after_repair";
      }
      ∷ [];
  stop_conditions = repeated_repair ∷ budget_blocked_without_fallback ∷ empty_diff ∷ [];
}

abbrev pub ask_user_graph : RoleGraph
ask_user_graph = record {
  workflow_kind = workflow ask_user;
  nodes = node planner [] ("clarifying_question" ∷ []) [] ∷ [];
  stop_conditions = budget_blocked_without_fallback ∷ [];
}
