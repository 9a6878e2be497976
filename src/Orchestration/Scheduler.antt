-- ===== src/Orchestration/Scheduler.antt =====
-- The execution of a role graph, src/core/orchestration/roleGraphScheduler.ts. The times of a
-- node's start and end are left out.
pub mod Readiness
pub mod Data
pub mod Laws
pub mod Progress
pub use tomorrowedge.Orchestration.Scheduler.Readiness.{status_lets_through, update_execution}
unfoldable pub use tomorrowedge.Orchestration.Scheduler.Readiness.{
  execution_of, node_of, is_satisfied, is_ready, ready_role_nodes, mark_ready,
  create_role_graph_execution_state, next_node_for_role, node_for_role, can_run_role_node,
}
use tomorrowedge.Orchestration.Scheduler.Readiness.{with_ready}
pub use tomorrowedge.Orchestration.Scheduler.Data.{
  ResultStatus, ExecutionStatus, RoleNodeExecution, RoleNodeResult, RoleGraphExecutionState,
  is_waiting, is_pending, is_running, is_ended, is_ended_as_failure, success, failed, blocked,
  skipped, pending, ready, running, ended,
}
use tomorrowedge.Prelude.{
  ℕ, ◌+◌, String, Bool, true, false, not, ◌&&◌, ◌||◌, Option, none, some, List, [], ◌∷◌, ◌++◌, ◌==◌,
  map, any, all, find, filter, cat, show, or_else, if◌then◌else◌, unique, length,
}
use tomorrowedge.Roles.{AgentRole, role_eq}
use tomorrowedge.Orchestration.RoleGraph.{RoleNode, RoleGraph}

abbrev pub started : RoleNodeExecution → RoleNodeExecution
started e = record e { status = running; attempts = e.attempts + 1 }

-- The new state, and the entry that has changed, if one has. Every node of a created state has an
-- entry, so that an entry that is missing, where the source throws, changes nothing here.
unfoldable pub begin_role_node :
    RoleGraphExecutionState
    → AgentRole
    → Option String
    → RoleGraphExecutionState × Option RoleNodeExecution
unfolding node_for_role can_run_role_node execution_of
begin_role_node state role node_id = elim (node_for_role state role node_id) [
  | none ↦ (state, none)
  | some n ↦ elim (execution_of state.nodes n.id) [
    | none ↦ (state, none)
    | some e ↦
        if can_run_role_node state role (some n.id)
        then (record state { nodes = update_execution started n.id state.nodes }, some (started e))
        else (state, none)
  ]
]

abbrev is_success : ResultStatus → Bool
is_success success = true
is_success _ = false

-- The entry with the result in it; a success that was not begun counts as an attempt.
abbrev pub finished : RoleNodeResult → RoleNodeExecution → RoleNodeExecution
finished result e = record e {
  status = ended result.status;
  attempts =
      if is_success result.status && not (is_running e.status) then e.attempts + 1 else e.attempts;
  summary = some result.summary;
  artifacts = unique [] (e.artifacts ++ result.artifacts);
  evidence = unique [] (e.evidence ++ result.evidence);
  error = result.error;
}

abbrev status_text : ExecutionStatus → String
status_text pending = "pending"
status_text ready = "ready"
status_text running = "running"
status_text (ended success) = "success"
status_text (ended failed) = "failed"
status_text (ended blocked) = "blocked"
status_text (ended skipped) = "skipped"

abbrev pub has_failed : List RoleNodeExecution → RoleNode → Bool
has_failed entries n = elim (execution_of entries n.id) [
  | none ↦ false
  | some e ↦ n.required && is_ended_as_failure e.status
]

abbrev pub has_ended : List RoleNodeExecution → RoleNode → Bool
has_ended entries n = elim (execution_of entries n.id) [ none ↦ false | some e ↦ is_ended e.status ]

failure_message : List RoleNodeExecution → RoleNode → String
unfolding execution_of
failure_message entries n = elim (execution_of entries n.id) [
  | none ↦ cat ("required role node " ∷ n.id ∷ " ended as undefined" ∷ [])
  | some e ↦ cat ("required role node " ∷ n.id ∷ " ended as " ∷ status_text e.status ∷ [])
]

unfoldable pub stop_reason_for_state : RoleGraphExecutionState → Option String
unfolding execution_of failure_message
stop_reason_for_state state = elim (find (has_failed state.nodes) state.graph.nodes) [
  | some n ↦ some (failure_message state.nodes n)
  | none ↦
      if all (has_ended state.nodes) state.graph.nodes then some "role graph complete" else none
]

-- The end of `finishRoleNode`: the next ready nodes are marked, and the run may stop.
settle : RoleGraphExecutionState → RoleGraphExecutionState
unfolding mark_ready ready_role_nodes stop_reason_for_state
settle state =
    let marked = with_ready state in record marked { stop_reason = stop_reason_for_state marked }

unfoldable pub finish_role_node :
    RoleGraphExecutionState → RoleNodeResult → RoleGraphExecutionState × Option RoleNodeExecution
unfolding node_for_role can_run_role_node execution_of settle unique
finish_role_node state result = elim (node_for_role state result.role result.node_id) [
  | none ↦ (state, none)
  | some n ↦ elim (execution_of state.nodes n.id) [
    | none ↦ (state, none)
    | some e ↦
        if is_success result.status
          && not (is_running e.status)
          && not (can_run_role_node state result.role (some n.id))
        then (
          record state {
            stop_reason = some (
                cat (
                  "role node " ∷ n.id ∷ " cannot complete before dependencies are satisfied" ∷ []));
          },
          none,
        )
        else (
          settle (record state {
            nodes = update_execution (finished result) n.id state.nodes;
            results = state.results ++ record result { node_id = some n.id } ∷ [];
          }),
          some (finished result e),
        )
  ]
]

abbrev pub block_role_node :
    RoleGraphExecutionState
    → AgentRole
    → String
    → Option String
    → RoleGraphExecutionState × Option RoleNodeExecution
block_role_node state role reason node_id = finish_role_node state (record {
  node_id = node_id;
  role = role;
  status = blocked;
  summary = reason;
  artifacts = [];
  evidence = [];
  error = some reason;
})

abbrev pub skip_role_node :
    RoleGraphExecutionState
    → AgentRole
    → String
    → Option String
    → RoleGraphExecutionState × Option RoleNodeExecution
skip_role_node state role reason node_id = finish_role_node state (record {
  node_id = node_id;
  role = role;
  status = skipped;
  summary = reason;
  artifacts = [];
  evidence = reason ∷ [];
  error = none;
})

-- `nodeId ?? result.nodeId`
abbrev or_own : Option String → Option String → Option String
or_own none own = own
or_own (some id) own = some id

abbrev pub complete_role_node :
    RoleGraphExecutionState
    → AgentRole
    → RoleNodeResult
    → Option String
    → RoleGraphExecutionState × Option RoleNodeExecution
complete_role_node state role result node_id =
    finish_role_node state
      (record result { node_id = or_own node_id result.node_id; role = role; status = success })

abbrev pub should_stop_role_graph : RoleGraphExecutionState → Bool
should_stop_role_graph state = elim state.stop_reason [
  | none ↦ false
  | some reason ↦ not (reason == "")
]

abbrev count_status : ExecutionStatus → List RoleNodeExecution → ℕ
count_status status entries =
    length (filter (λ (e : RoleNodeExecution). status_text e.status == status_text status) entries)

unfoldable pub role_graph_execution_summary : RoleGraphExecutionState → String
role_graph_execution_summary state = cat (
    "ready="
    ∷ show (count_status ready state.nodes)
    ∷ " running="
    ∷ show (count_status running state.nodes)
    ∷ " success="
    ∷ show (count_status (ended success) state.nodes)
    ∷ " failed="
    ∷ show (count_status (ended failed) state.nodes)
    ∷ " blocked="
    ∷ show (count_status (ended blocked) state.nodes)
    ∷ " skipped="
    ∷ show (count_status (ended skipped) state.nodes)
    ∷ [])
