-- ===== src/Orchestration/RoleGraph.antt =====
-- The graph of the roles of a task, src/core/orchestration/roleGraph.ts.
pub mod Graphs
pub mod Laws
pub mod Roster
pub use tomorrowedge.Orchestration.RoleGraph.Graphs.{
  WorkflowKind, GraphKind, RoleNode, RoleGraph, RiskLevel, BuildRoleGraphInput, node, read_only,
  patch, repair, vision_patch, advisory, ask_user, sirius_council, workflow, debate_patch,
  high_risk_patch, repair_loop, low, medium, high,
}
unfoldable pub use tomorrowedge.Orchestration.RoleGraph.Graphs.{
  read_only_graph, patch_graph, repair_loop_graph,
}
use tomorrowedge.Orchestration.RoleGraph.Graphs.{ask_user_graph}
use tomorrowedge.Prelude.{
  ℕ, String, Bool, true, false, not, ◌&&◌, ◌||◌, Option, none, some, List, [], ◌∷◌, ◌++◌, ◌==◌, map,
  any, find, filter, includes, or_else, if◌then◌else◌, eqb,
}
use tomorrowedge.Roles.{
  AgentRole, core, vision, planner, explorer, coder_a, coder_b, reviewer, judge, runner, repairer,
  summarizer, EventPhase, role_eq, has_role, role_text, phase_eq,
}

-- The roles that change the workspace.
abbrev pub is_mutation_role : AgentRole → Bool
is_mutation_role role = has_role (coder_a ∷ coder_b ∷ runner ∷ repairer ∷ []) role

abbrev phases_for_role : AgentRole → List EventPhase
phases_for_role core = EventPhase.planning ∷ EventPhase.routing ∷ []
phases_for_role planner = EventPhase.planning ∷ EventPhase.routing ∷ []
phases_for_role vision = EventPhase.vision ∷ []
phases_for_role explorer = EventPhase.exploration ∷ []
phases_for_role coder_a = EventPhase.coding ∷ []
phases_for_role coder_b = EventPhase.coding ∷ []
phases_for_role reviewer = EventPhase.review ∷ []
phases_for_role judge = EventPhase.judge ∷ []
phases_for_role runner = EventPhase.patch ∷ EventPhase.shell ∷ EventPhase.verification ∷ []
phases_for_role repairer = EventPhase.repair ∷ []
phases_for_role summarizer = EventPhase.summary ∷ []

abbrev pub is_governance_role : AgentRole → Bool
is_governance_role role = role_eq role reviewer || role_eq role judge

unfoldable pub phase_allowed_for_role : AgentRole → Option (List EventPhase) → Bool → Bool
phase_allowed_for_role role none high_risk = true
phase_allowed_for_role role (some allowed) high_risk =
    if high_risk && is_governance_role role
    then true
    else any (λ phase. any (phase_eq phase) allowed) (phases_for_role role)

-- `[roleOrId]` where a node has this id or role, the text of a role.
unfoldable pub dependency_if_present : List RoleNode → String → List String
dependency_if_present nodes role_or_id =
    if any (λ (item : RoleNode). item.id == role_or_id || role_text item.role == role_or_id) nodes
    then role_or_id ∷ []
    else []

abbrev has_node_of : AgentRole → List RoleNode → Bool
has_node_of role nodes = any (λ (item : RoleNode). role_eq item.role role) nodes

abbrev is_advice_graph : GraphKind → Bool
is_advice_graph (workflow read_only) = true
is_advice_graph (workflow advisory) = true
is_advice_graph _ = false

with_reviewer : GraphKind → List RoleNode → List RoleNode
unfolding dependency_if_present
with_reviewer kind nodes =
    if has_node_of reviewer nodes
    then nodes
    else nodes
      ++ node reviewer
          (dependency_if_present nodes (if is_advice_graph kind then "explorer" else "coder_a"))
          ("review_evidence" ∷ []) ("plan" ∷ "context" ∷ "patch_candidate" ∷ "patch_evidence" ∷ [])
        ∷ []

unfoldable pub with_judge : List RoleNode → List RoleNode
unfolding dependency_if_present
with_judge nodes =
    if has_node_of judge nodes
    then nodes
    else nodes
      ++ node judge (dependency_if_present nodes "reviewer") ("judge_decision" ∷ [])
          ("plan" ∷ "context" ∷ "review_evidence" ∷ [])
        ∷ []

unfoldable pub ensure_governance_nodes : List RoleNode → GraphKind → List RoleNode
unfolding with_reviewer with_judge
ensure_governance_nodes nodes kind = with_judge (with_reviewer kind nodes)

abbrev pub is_read_only : WorkflowKind → Bool
is_read_only read_only = true
is_read_only advisory = true
is_read_only ask_user = true
is_read_only _ = false

-- Whether the set of allowed roles has the role: governance roles are added for a high risk, and
-- then the roles that change the workspace are taken out of a read-only graph.
abbrev pub role_allowed : Option (List AgentRole) → Bool → Bool → AgentRole → Bool
role_allowed none frozen high_risk role = true
role_allowed (some allowed) frozen high_risk role =
    (has_role allowed role || high_risk && is_governance_role role)
    && not (frozen && is_mutation_role role)

-- The filter of `constrainRoleGraph`.
unfoldable pub keeps : BuildRoleGraphInput → Bool → RoleNode → Bool
unfolding phase_allowed_for_role
keeps input high_risk item =
    if is_read_only input.workflow_kind && is_mutation_role item.role
    then false
    else if not
        (role_allowed input.allowed_roles (is_read_only input.workflow_kind) high_risk item.role)
    then false
    else phase_allowed_for_role item.role input.allowed_phases high_risk

abbrev pub ids : List RoleNode → List String
ids nodes = map (λ (item : RoleNode). item.id) nodes

-- The dependencies on nodes that are gone are dropped.
unfoldable pub restrict_to : List String → List RoleNode → List RoleNode
restrict_to known [] = []
restrict_to known (item ∷ items) =
    record item { dependencies = filter (includes known) item.dependencies }
    ∷ restrict_to known items

unfoldable pub constrain_role_graph : RoleGraph → BuildRoleGraphInput → Bool → RoleGraph
unfolding keeps ensure_governance_nodes restrict_to
constrain_role_graph graph input high_risk =
    let kept = filter (keeps input high_risk) graph.nodes in
    let nodes = if high_risk then ensure_governance_nodes kept graph.workflow_kind else kept in
    record graph { nodes = restrict_to (ids nodes) nodes }

abbrev is_high : Option RiskLevel → Bool
is_high (some high) = true
is_high _ = false

abbrev pub risk_is_high : BuildRoleGraphInput → Bool
risk_is_high input = input.high_risk || is_high input.risk_level

abbrev is_advice : WorkflowKind → Bool
is_advice read_only = true
is_advice advisory = true
is_advice _ = false

abbrev is_vision_patch : WorkflowKind → Bool
is_vision_patch vision_patch = true
is_vision_patch _ = false

abbrev is_ask_user : WorkflowKind → Bool
is_ask_user ask_user = true
is_ask_user _ = false

-- The graph that is constrained.
unfoldable pub base_graph : BuildRoleGraphInput → RoleGraph
unfolding read_only_graph patch_graph repair_loop_graph
base_graph input =
    let high_risk = risk_is_high input in
    if input.repair_loop
    then repair_loop_graph
    else if is_advice input.workflow_kind
    then read_only_graph input.workflow_kind (high_risk || input.debate)
    else if high_risk
    then patch_graph high_risk_patch true input.allow_parallel_roles
    else if input.debate && input.allow_parallel_roles
    then patch_graph debate_patch false true
    else if is_vision_patch input.workflow_kind
    then patch_graph (workflow vision_patch) false false
    else if is_ask_user input.workflow_kind
    then ask_user_graph
    else patch_graph (workflow patch) false false

unfoldable pub build_role_graph : BuildRoleGraphInput → RoleGraph
unfolding base_graph constrain_role_graph
build_role_graph input = constrain_role_graph (base_graph input) input (risk_is_high input)

unfoldable pub optional_node_can_skip : RoleGraph → String → Bool
optional_node_can_skip graph node_id =
    elim (find (λ (item : RoleNode). item.id == node_id) graph.nodes) [
      | none ↦ false
      | some found ↦ not found.required && found.can_skip
    ]
