-- ===== src/Planning/Execution/Tests.antt =====
-- A role starts and ends, and the steps that wait for it follow.
use tomorrowedge.Prelude.{◌≡◌, refl, none, some, List, [], ◌∷◌}
use tomorrowedge.Roles.{coder_a}
use tomorrowedge.Orchestration.Scheduler.{RoleNodeExecution, ResultStatus, ExecutionStatus}
use tomorrowedge.Planning.TaskGraph.{pending, running, done, TaskGraphNode}
use tomorrowedge.Planning.Samples.{step}
use tomorrowedge.Planning.Execution.{
  flush_ready_task_graph_nodes, mark_task_nodes_running, update_task_graph_for_role_node,
}
use tomorrowedge.Planning.Execution.Laws.{IsFlushed, flush-IsFlushed}
use tomorrowedge.Planning.Execution.Settled.{Reaches, IsSound, Reaches-IsSound}

abbrev coder_ended : List RoleNodeExecution
coder_ended =
    record {
      node_id = "coder_a";
      role = coder_a;
      status = ExecutionStatus.ended ResultStatus.success;
      attempts = 1;
      summary = none;
      artifacts = [];
      evidence = [];
      error = none;
    }
    ∷ []

-- The first stands before what it waits for, so that it takes a second round.
abbrev waiting_steps : List TaskGraphNode
waiting_steps =
    step "test" ("code" ∷ []) pending ∷ step "code" ("plan" ∷ []) pending ∷ step "plan" [] done ∷ []

both_done :
    flush_ready_task_graph_nodes coder_ended waiting_steps
    ≡ some
        (step "test" ("code" ∷ []) done ∷ step "code" ("plan" ∷ []) done ∷ step "plan" [] done ∷ [])
unfolding flush_ready_task_graph_nodes
both_done = refl

flush-IsFlushed_example :
    (after : List TaskGraphNode) × (flush_ready_task_graph_nodes coder_ended waiting_steps
      ≡ some after)
    × IsFlushed coder_ended after
flush-IsFlushed_example = flush-IsFlushed coder_ended waiting_steps

abbrev fresh_steps : List TaskGraphNode
fresh_steps = step "code" ("plan" ∷ []) pending ∷ step "plan" [] pending ∷ []

abbrev begun_steps : List TaskGraphNode
begun_steps = mark_task_nodes_running "coder_a" coder_a fresh_steps

-- The step that waits for the other one is not done with it.
abbrev ended_steps : List TaskGraphNode
ended_steps = step "code" ("plan" ∷ []) running ∷ step "plan" [] done ∷ []

one_done :
    update_task_graph_for_role_node coder_ended "coder_a" coder_a ResultStatus.success begun_steps
    ≡ some ended_steps
unfolding update_task_graph_for_role_node mark_task_nodes_running
one_done = refl

Reaches-IsSound_example : IsSound ended_steps
Reaches-IsSound_example = Reaches-IsSound {start = fresh_steps} {nodes = ended_steps} refl (
    Reaches.ended coder_ended "coder_a" coder_a ResultStatus.success begun_steps ended_steps refl
      one_done (Reaches.begun "coder_a" coder_a fresh_steps Reaches.here))
