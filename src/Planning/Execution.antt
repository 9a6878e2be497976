-- ===== src/Planning/Execution.antt =====
-- How the results of roles move the steps of a task graph, src/core/agentGraph/executor.ts. The
-- artifacts and the references that a completed step gets and the events of the ledger are left out.
pub mod Laws
pub mod Settled
mod Tests
use tomorrowedge.Prelude.{
  ℕ, zero, suc, ◌+◌, String, Bool, true, false, not, ◌&&◌, ◌||◌, Option, none, some, List, [], ◌∷◌,
  ◌++◌, ◌==◌, all, any, find, if◌then◌else◌,
}
use tomorrowedge.Roles.{
  AgentRole, role_eq, coder_a, coder_b, reviewer, judge, explorer, planner, summarizer,
}
use tomorrowedge.Orchestration.RoleGraph.{RoleNode, RoleGraph}
use tomorrowedge.Orchestration.Scheduler.{ResultStatus, ExecutionStatus, RoleNodeExecution}
use tomorrowedge.Planning.TaskGraph.{
  TaskGraphNodeStatus, TaskNodeKind, TaskGraphNode, TaskGraph, is_pending, is_settled,
}
use tomorrowedge.Planning.Validator.{kind_eq}

unfoldable pub matches_role : TaskGraphNode → String → AgentRole → Bool
matches_role n role_node_id role =
    if role_node_id == "patch_runner"
    then kind_eq n.kind TaskNodeKind.apply_patch
    else if role_node_id == "test_runner"
    then kind_eq n.kind TaskNodeKind.verify
    else if role_node_id == "coder_a"
    then role_eq n.owner_role coder_a
    else if role_node_id == "coder_b"
    then role_eq n.owner_role coder_b
    else if role_node_id == "reviewer"
    then role_eq n.owner_role reviewer || kind_eq n.kind TaskNodeKind.review
    else if role_node_id == "judge"
    then role_eq n.owner_role judge || kind_eq n.kind TaskNodeKind.judge
    else if role_node_id == "explorer"
    then role_eq n.owner_role explorer
      || kind_eq n.kind TaskNodeKind.inspect
      || n.id == "inspect_context"
    else if role_node_id == "planner"
    then role_eq n.owner_role planner || kind_eq n.kind TaskNodeKind.design
    else if role_node_id == "summarizer"
    then role_eq n.owner_role summarizer || kind_eq n.kind TaskNodeKind.summarize
    else role_eq n.owner_role role

abbrev has_alternative : TaskGraphNode → Bool
has_alternative n = n.id == "produce_patch_alt" && role_eq n.owner_role coder_b

abbrev same : Bool → Bool → Bool
same true b = b
same false b = not b

unfoldable pub task_graph_matches_role_graph : TaskGraph → RoleGraph → Bool
task_graph_matches_role_graph task_graph role_graph =
    same (any (λ (n : RoleNode). n.id == "coder_b") role_graph.nodes)
      (any has_alternative task_graph.nodes)

-- `graph.nodes.find(…)?.status` is done or skipped; a missing step is not.
abbrev pub is_settled_in : List TaskGraphNode → String → Bool
is_settled_in nodes id = elim (find (λ (n : TaskGraphNode). n.id == id) nodes) [
  | none ↦ false
  | some n ↦ is_settled n.status
]

abbrev pub is_backed : List TaskGraphNode → TaskGraphNode → Bool
is_backed nodes n = all (is_settled_in nodes) n.depends_on

-- What a step of a loop over the nodes sets the status of a node to, if it sets it.
abbrev pub Step : Type 0
Step = List TaskGraphNode → TaskGraphNode → Option TaskGraphNodeStatus

abbrev pub with_status : TaskGraphNode → Option TaskGraphNodeStatus → TaskGraphNode
with_status n none = n
with_status n (some status) = record n { status = status }

-- `for (const node of graph.nodes)`: each node sees the nodes before it as they are then.
unfoldable pub sweep : Step → List TaskGraphNode → List TaskGraphNode → List TaskGraphNode
sweep step before [] = before
sweep step before (n ∷ rest) =
    sweep step (before ++ with_status n (step (before ++ n ∷ rest) n) ∷ []) rest

abbrev pub is_set : Option TaskGraphNodeStatus → Bool
is_set none = false
is_set (some status) = true

-- `changed`: whether such a loop sets a status.
unfoldable pub has_changed : Step → List TaskGraphNode → List TaskGraphNode → Bool
has_changed step before [] = false
has_changed step before (n ∷ rest) =
    is_set (step (before ++ n ∷ rest) n)
    || has_changed step (before ++ with_status n (step (before ++ n ∷ rest) n) ∷ []) rest

abbrev pub task_status : ResultStatus → TaskGraphNodeStatus
task_status ResultStatus.success = TaskGraphNodeStatus.done
task_status ResultStatus.failed = TaskGraphNodeStatus.blocked
task_status ResultStatus.blocked = TaskGraphNodeStatus.blocked
task_status ResultStatus.skipped = TaskGraphNodeStatus.skipped

abbrev pub is_done : TaskGraphNodeStatus → Bool
is_done TaskGraphNodeStatus.done = true
is_done _ = false

unfoldable pub result_step : String → AgentRole → TaskGraphNodeStatus → Step
unfolding matches_role
result_step role_node_id role status nodes n =
    if matches_role n role_node_id role && (not (is_done status) || is_backed nodes n)
    then some status
    else none

unfoldable pub running_step : String → AgentRole → Step
unfolding matches_role
running_step role_node_id role nodes n =
    if matches_role n role_node_id role && is_pending n.status
    then some TaskGraphNodeStatus.running
    else none

unfoldable pub mark_task_nodes_running :
    String → AgentRole → List TaskGraphNode → List TaskGraphNode
unfolding sweep running_step
mark_task_nodes_running role_node_id role nodes = sweep (running_step role_node_id role) [] nodes

abbrev ended_well : ExecutionStatus → Bool
ended_well (ExecutionStatus.ended ResultStatus.success) = true
ended_well (ExecutionStatus.ended ResultStatus.skipped) = true
ended_well _ = false

abbrev pub owner_done : List RoleNodeExecution → AgentRole → Bool
owner_done roles owner =
    any (λ (e : RoleNodeExecution). role_eq e.role owner && ended_well e.status) roles

abbrev pub runs_itself : TaskNodeKind → Bool
runs_itself TaskNodeKind.apply_patch = true
runs_itself TaskNodeKind.verify = true
runs_itself TaskNodeKind.summarize = true
runs_itself _ = false

-- A design and an analysis are completed by a call of their own, which sets the same status.
unfoldable pub flush_step : List RoleNodeExecution → Step
flush_step roles nodes n =
    if is_pending n.status
      && is_backed nodes n
      && owner_done roles n.owner_role
      && not (runs_itself n.kind)
    then some TaskGraphNodeStatus.done
    else none

-- `while (changed)`, with the rounds that are left; nothing where they are not enough.
unfoldable pub flush_from :
    ℕ → List RoleNodeExecution → List TaskGraphNode → Option (List TaskGraphNode)
unfolding sweep has_changed flush_step
flush_from zero roles nodes = none
flush_from (suc rounds) roles nodes =
    let after = sweep (flush_step roles) [] nodes in
    let rest = flush_from rounds roles after in
    if has_changed (flush_step roles) [] nodes then rest else some after

abbrev pub one_if : Bool → ℕ
one_if true = 1
one_if false = 0

abbrev pub waiting : List TaskGraphNode → ℕ
waiting [] = 0
waiting (n ∷ ns) = one_if (is_pending n.status) + waiting ns

unfoldable pub flush_ready_task_graph_nodes :
    List RoleNodeExecution → List TaskGraphNode → Option (List TaskGraphNode)
unfolding flush_from
flush_ready_task_graph_nodes roles nodes = flush_from (suc (waiting nodes)) roles nodes

-- Its callers have a plan with a task graph, and roles under way.
unfoldable pub update_task_graph_for_role_node :
    List RoleNodeExecution
    → String
    → AgentRole
    → ResultStatus
    → List TaskGraphNode
    → Option (List TaskGraphNode)
unfolding sweep result_step flush_ready_task_graph_nodes
update_task_graph_for_role_node roles role_node_id role status nodes =
    flush_ready_task_graph_nodes roles
      (sweep (result_step role_node_id role (task_status status)) [] nodes)
