-- ===== src/Planning/TaskGraph.antt =====
-- The data of src/core/planning/taskGraph.ts, and src/core/planning/taskGraphScheduler.ts.
use tomorrowedge.Prelude.{
  String, Bool, true, false, not, ◌&&◌, Option, none, some, List, [], ◌==◌, all, find, filter,
  is_empty, if◌then◌else◌,
}
use tomorrowedge.Roles.{AgentRole, coder_b, EventPhase, role_eq, role_text}
use tomorrowedge.Orchestration.RoleGraph.{RoleNode, WorkflowKind, RiskLevel}

pub data TaskGraphNodeStatus : Type 0 where
  pending running done blocked skipped : TaskGraphNodeStatus

pub data TaskNodeKind : Type 0 where
  inspect analyze design patch review judge : TaskNodeKind
  apply_patch verify repair summarize ask_user : TaskNodeKind

pub data EvidenceKind : Type 0 where
  file diff review judge shell artifact reasoning : EvidenceKind

pub record EvidenceRequirement : Type 0 where
  pub id : String
  pub kind : EvidenceKind
  pub description : String
  pub required : Bool

pub data OutputKind : Type 0 where
  context plan patch review judgment test_result summary artifact : OutputKind

pub record ExpectedOutput : Type 0 where
  pub id : String
  pub kind : OutputKind
  pub description : String

pub data ClaimMode : Type 0 where
  assigned volunteered evolved : ClaimMode

pub record TaskGraphNode : Type 0 where
  pub id : String
  pub kind : TaskNodeKind
  pub title : String
  pub objective : String
  pub detail : String
  pub phase : EventPhase
  pub owner_role : AgentRole
  pub owner_agent_id : Option String
  pub assigned_provider : Option String
  pub assigned_model : Option String
  pub assignment_reason : Option String
  pub claim_mode : Option ClaimMode
  pub fallback_agents : Option (List String)
  pub role_hints : List AgentRole
  pub depends_on : List String
  pub dependencies : List String
  pub required_inputs : List EvidenceRequirement
  pub expected_outputs : List ExpectedOutput
  pub required_evidence : List String
  pub expected_artifacts : List String
  pub evidence_refs : Option (List String)
  pub artifact_refs : Option (List String)
  pub files : Option (List String)
  pub risk_level : RiskLevel
  pub mutation_allowed : Bool
  pub can_run_in_parallel : Bool
  pub stop_if_fails : Bool
  pub fallback_role : Option AgentRole
  pub acceptance_criteria : List String
  pub status : TaskGraphNodeStatus

pub record TaskGraphEdge : Type 0 where
  pub from : String
  pub to : String
  pub reason : String

pub record TaskGraph : Type 0 where
  pub schema_version : String
  pub graph_id : String
  pub goal : String
  pub root_objective : String
  pub workflow_kind : Option WorkflowKind
  pub risk_level : RiskLevel
  pub nodes : List TaskGraphNode
  pub edges : List TaskGraphEdge
  pub entry_node_ids : List String
  pub terminal_node_ids : List String
  pub stop_conditions : List String
  pub risk_boundaries : List String

abbrev pub is_pending : TaskGraphNodeStatus → Bool
is_pending pending = true
is_pending _ = false

abbrev pub is_settled : TaskGraphNodeStatus → Bool
is_settled done = true
is_settled skipped = true
is_settled _ = false

abbrev pub lets_start : TaskGraph → String → Bool
lets_start graph dependency = elim (find (λ (n : TaskGraphNode). n.id == dependency) graph.nodes) [
  | none ↦ true
  | some n ↦ is_settled n.status
]

unfoldable pub next_ready_task_nodes : TaskGraph → List TaskGraphNode
next_ready_task_nodes graph =
    filter (λ (n : TaskGraphNode). is_pending n.status && all (lets_start graph) n.depends_on)
      graph.nodes

abbrev pub task_node_action_id : TaskGraphNode → String
task_node_action_id n = elim n.kind [
  | TaskNodeKind.apply_patch ↦ "patch_runner"
  | TaskNodeKind.verify ↦ "test_runner"
  | TaskNodeKind.summarize ↦ "summarizer"
  | TaskNodeKind.review ↦ "reviewer"
  | TaskNodeKind.judge ↦ "judge"
  | TaskNodeKind.patch ↦ if role_eq n.owner_role coder_b then "coder_b" else "coder_a"
  | _ ↦ role_text n.owner_role
]

abbrev pub task_node_matches_role_node : TaskGraphNode → RoleNode → Bool
task_node_matches_role_node n role_node = task_node_action_id n == role_node.id

unfoldable pub ready_task_nodes_for_role_node : Option TaskGraph → RoleNode → List TaskGraphNode
unfolding next_ready_task_nodes
ready_task_nodes_for_role_node none role_node = []
ready_task_nodes_for_role_node (some graph) role_node =
    filter (λ (n : TaskGraphNode). task_node_matches_role_node n role_node)
      (next_ready_task_nodes graph)

unfoldable pub ready_task_node_for_role_node : Option TaskGraph → RoleNode → Option TaskGraphNode
unfolding ready_task_nodes_for_role_node
ready_task_node_for_role_node graph role_node =
    find (λ n. true) (ready_task_nodes_for_role_node graph role_node)

unfoldable pub task_graph_allows_role_node : Option TaskGraph → RoleNode → Bool
unfolding ready_task_nodes_for_role_node
task_graph_allows_role_node none role_node = true
task_graph_allows_role_node (some graph) role_node =
    not (is_empty (ready_task_nodes_for_role_node (some graph) role_node))
