-- ===== src/Orchestration/Scheduler/Readiness.antt =====
-- Which roles are ready, src/core/orchestration/roleGraphScheduler.ts, and the first state of a graph.
use tomorrowedge.Orchestration.Scheduler.Data.{
  ResultStatus, ExecutionStatus, RoleNodeExecution, RoleGraphExecutionState, is_waiting, is_pending,
  is_ended, success, skipped, pending, ready, ended,
}
use tomorrowedge.Prelude.{
  String, Bool, true, false, not, ◌&&◌, Option, none, some, List, [], ◌∷◌, ◌==◌, any, all, find,
  filter, if◌then◌else◌,
}
use tomorrowedge.Roles.{AgentRole, role_eq}
use tomorrowedge.Orchestration.RoleGraph.{RoleNode, RoleGraph}

unfoldable pub execution_of : List RoleNodeExecution → String → Option RoleNodeExecution
execution_of nodes id = find (λ (e : RoleNodeExecution). e.node_id == id) nodes

unfoldable pub node_of : RoleGraph → String → Option RoleNode
node_of graph id = find (λ (n : RoleNode). n.id == id) graph.nodes

-- Whether an ended dependency lets what depends on it run, by its node, if there is one.
abbrev pub lets_through : ResultStatus → Option RoleNode → Bool
lets_through success found = true
lets_through skipped none = false
lets_through skipped (some n) = n.can_skip
lets_through _ none = false
lets_through _ (some n) = not n.required

abbrev pub status_lets_through : ExecutionStatus → Option RoleNode → Bool
status_lets_through (ended status) found = lets_through status found
status_lets_through _ found = false

unfoldable pub is_satisfied : RoleGraphExecutionState → String → Bool
unfolding execution_of node_of
is_satisfied state dependency = elim (execution_of state.nodes dependency) [
  | none ↦ true
  | some e ↦ status_lets_through e.status (node_of state.graph dependency)
]

unfoldable pub is_ready : RoleGraphExecutionState → RoleNode → Bool
unfolding execution_of is_satisfied
is_ready state n = elim (execution_of state.nodes n.id) [
  | none ↦ false
  | some e ↦ is_waiting e.status && all (is_satisfied state) n.dependencies
]

unfoldable pub ready_role_nodes : RoleGraphExecutionState → List RoleNode
unfolding is_ready
ready_role_nodes state = filter (is_ready state) state.graph.nodes

-- `state.nodes[id].status = status`
abbrev pub update_execution :
    (RoleNodeExecution → RoleNodeExecution)
    → String
    → List RoleNodeExecution
    → List RoleNodeExecution
update_execution f id [] = []
update_execution f id (e ∷ es) = if e.node_id == id then f e ∷ es else e ∷ update_execution f id es

-- The loop that marks the pending ones of the ready nodes.
abbrev mark_if_pending : RoleNodeExecution → RoleNodeExecution
mark_if_pending e = if is_pending e.status then record e { status = ready } else e

unfoldable pub mark_ready : List RoleNode → List RoleNodeExecution → List RoleNodeExecution
mark_ready [] entries = entries
mark_ready (n ∷ ns) entries = mark_ready ns (update_execution mark_if_pending n.id entries)

abbrev pub with_ready : RoleGraphExecutionState → RoleGraphExecutionState
with_ready state = record state { nodes = mark_ready (ready_role_nodes state) state.nodes }

abbrev new_execution : RoleNode → RoleNodeExecution
new_execution n = record {
  node_id = n.id;
  role = n.role;
  status = pending;
  attempts = 0;
  summary = none;
  artifacts = [];
  evidence = [];
  error = none;
}

-- `Object.fromEntries`: the last entry of an id stays, where the first one stood.
enter : RoleNodeExecution → List RoleNodeExecution → List RoleNodeExecution
enter e [] = e ∷ []
enter e (x ∷ xs) = if x.node_id == e.node_id then e ∷ xs else x ∷ enter e xs

enter_all : List RoleNode → List RoleNodeExecution → List RoleNodeExecution
unfolding enter
enter_all [] entries = entries
enter_all (n ∷ ns) entries = enter_all ns (enter (new_execution n) entries)

unfoldable pub create_role_graph_execution_state : RoleGraph → RoleGraphExecutionState
unfolding enter_all mark_ready ready_role_nodes
create_role_graph_execution_state graph =
    with_ready
      (record { graph = graph; nodes = enter_all graph.nodes []; results = []; stop_reason = none })

-- A node that has no entry counts as pending.
abbrev is_open : Option RoleNodeExecution → Bool
is_open none = true
is_open (some e) = not (is_ended e.status)

unfoldable pub next_node_for_role : RoleGraphExecutionState → AgentRole → Option RoleNode
unfolding execution_of
next_node_for_role state role =
    find (λ (n : RoleNode). role_eq n.role role && is_open (execution_of state.nodes n.id))
      state.graph.nodes

-- An id that is the empty text counts as none.
unfoldable pub node_for_role : RoleGraphExecutionState → AgentRole → Option String → Option RoleNode
unfolding next_node_for_role
node_for_role state role none = next_node_for_role state role
node_for_role state role (some id) =
    let by_role = next_node_for_role state role in
    let by_id = find (λ (n : RoleNode). n.id == id && role_eq n.role role) state.graph.nodes in
    if id == "" then by_role else by_id

unfoldable pub can_run_role_node : RoleGraphExecutionState → AgentRole → Option String → Bool
unfolding node_for_role ready_role_nodes
can_run_role_node state role node_id = elim (node_for_role state role node_id) [
  | none ↦ false
  | some n ↦ any (λ (ready : RoleNode). ready.id == n.id) (ready_role_nodes state)
]
