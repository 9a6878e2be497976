-- ===== src/Orchestration/Tests.antt =====
-- The role graphs and their execution on small inputs.
use tomorrowedge.Prelude.{
  String, ◌≡◌, ◌⊎◌, refl, Bool, true, false, Option, none, some, List, [], ◌∷◌, Memᴰ, show, unique,
  All,
}
use tomorrowedge.Roles.{AgentRole, planner, explorer, runner, summarizer, reviewer, judge, role_eq}
use tomorrowedge.Orchestration.RoleGraph.{
  WorkflowKind, patch, ask_user, read_only, BuildRoleGraphInput, RoleNode, build_role_graph,
  read_only_graph, patch_graph, repair_loop_graph, is_mutation_role, ids,
}
use tomorrowedge.Orchestration.RoleGraph.Laws.{is_ordered, is_distinct, build-is_ordered}
use tomorrowedge.Orchestration.RoleGraph.Roster.{has_role_of, build-governed, build-is_read_only}
use tomorrowedge.Orchestration.Scheduler.{
  RoleGraphExecutionState, RoleNodeExecution, RoleNodeResult, success, running,
  create_role_graph_execution_state, ready_role_nodes, begin_role_node, finish_role_node,
  skip_role_node, stop_reason_for_state, execution_of,
}
use tomorrowedge.Orchestration.Scheduler.Progress.{IsQuiet, ready_or_complete}

execution : Unit {0}
unfolding build_role_graph read_only_graph patch_graph repair_loop_graph
    create_role_graph_execution_state ready_role_nodes begin_role_node finish_role_node
    stop_reason_for_state execution_of show unique
execution = tt

abbrev input : WorkflowKind → Bool → Option (List AgentRole) → BuildRoleGraphInput
input kind high_risk allowed = record {
  workflow_kind = kind;
  high_risk = high_risk;
  risk_level = none;
  debate = false;
  allow_parallel_roles = true;
  repair_loop = false;
  allowed_roles = allowed;
  allowed_phases = none;
}

abbrev fresh : BuildRoleGraphInput → RoleGraphExecutionState
fresh i = create_role_graph_execution_state (build_role_graph i)

abbrev ready_ids : RoleGraphExecutionState → List String
ready_ids state = ids (ready_role_nodes state)

patch_starts_with_planner : ready_ids (fresh (input patch false none)) ≡ "planner" ∷ []
unfolding execution
patch_starts_with_planner = refl

-- The review of a risky question waits for nothing, since the coders it waited for are left out.
review_starts_at_once :
    ready_ids (fresh (input ask_user true none)) ≡ "planner" ∷ "reviewer" ∷ "summarizer" ∷ []
unfolding execution
review_starts_at_once = refl

build-is_ordered_example :
    (is_ordered [] (build_role_graph (input ask_user true (some (summarizer ∷ [])))).nodes ≡ true)
    × (is_distinct (build_role_graph (input ask_user true (some (summarizer ∷ [])))).nodes ≡ true)
build-is_ordered_example = build-is_ordered (input ask_user true (some (summarizer ∷ [])))

build-governed_example :
    (has_role_of
        (λ role. role_eq role reviewer)
        (build_role_graph (input patch true (some (planner ∷ [])))).nodes
      ≡ true)
    × (has_role_of
          (λ role. role_eq role judge)
          (build_role_graph (input patch true (some (planner ∷ [])))).nodes
        ≡ true)
build-governed_example = build-governed (input patch true (some (planner ∷ []))) refl

build-is_read_only_example :
    has_role_of is_mutation_role
      (build_role_graph (input read_only false (some (runner ∷ planner ∷ [])))).nodes
    ≡ false
build-is_read_only_example =
    build-is_read_only (input read_only false (some (runner ∷ planner ∷ []))) refl

abbrev start : RoleGraphExecutionState
start = fresh (input read_only false none)

abbrev begun : RoleNodeExecution
begun = record {
  node_id = "planner";
  role = planner;
  status = running;
  attempts = 1;
  summary = none;
  artifacts = [];
  evidence = [];
  error = none;
}

planner-begins : (begin_role_node start planner none).1 ≡ some begun
unfolding execution
planner-begins = refl

abbrev plan : RoleNodeResult
plan = record {
  node_id = none;
  role = planner;
  status = success;
  summary = "plan";
  artifacts = [];
  evidence = "plan" ∷ [];
  error = none;
}

abbrev planned : RoleNodeExecution
planned = record begun {
  status = tomorrowedge.Orchestration.Scheduler.ended success;
  summary = some "plan";
  evidence = "plan" ∷ [];
}

planner-succeeds : (finish_role_node start plan).1 ≡ some planned
unfolding execution
planner-succeeds = refl

-- A success out of order stops the run.
out_of_order : (finish_role_node start (record plan { role = explorer })).1 ≡ none
unfolding execution
out_of_order = refl

start-ordered : is_ordered [] start.graph.nodes ≡ true
unfolding execution
start-ordered = refl

start-distinct : is_distinct start.graph.nodes ≡ true
unfolding execution
start-distinct = refl

start-IsQuiet : All (IsQuiet start) start.graph.nodes
unfolding execution
start-IsQuiet = (
  record { entry = _; entered = refl; resting = refl; skippable = λ e. cc; optional = λ e. cc },
  (
    record { entry = _; entered = refl; resting = refl; skippable = λ e. cc; optional = λ e. cc },
    (
      record { entry = _; entered = refl; resting = refl; skippable = λ e. cc; optional = λ e. cc },
      tt,
    ),
  ),
)

ready_or_complete_example :
    ((n : RoleNode) × Memᴰ n (ready_role_nodes start))
    ⊎ (stop_reason_for_state start ≡ some "role graph complete")
ready_or_complete_example = ready_or_complete start start-ordered start-distinct start-IsQuiet
