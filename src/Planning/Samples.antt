-- ===== src/Planning/Samples.antt =====
-- Steps and task graphs for the tests.
use tomorrowedge.Prelude.{String, true, false, none, List, [], ◌∷◌}
use tomorrowedge.Roles.{EventPhase, coder_a}
use tomorrowedge.Orchestration.RoleGraph.{medium}
use tomorrowedge.Planning.TaskGraph.{TaskGraphNodeStatus, TaskGraphNode, TaskGraph, TaskNodeKind}

abbrev pub step : String → List String → TaskGraphNodeStatus → TaskGraphNode
step id depends_on status = record {
  id = id;
  kind = TaskNodeKind.patch;
  title = id;
  objective = id;
  detail = id;
  phase = EventPhase.coding;
  owner_role = coder_a;
  owner_agent_id = none;
  assigned_provider = none;
  assigned_model = none;
  assignment_reason = none;
  claim_mode = none;
  fallback_agents = none;
  role_hints = coder_a ∷ [];
  depends_on = depends_on;
  dependencies = depends_on;
  required_inputs = [];
  expected_outputs = [];
  required_evidence = [];
  expected_artifacts = [];
  evidence_refs = none;
  artifact_refs = none;
  files = none;
  risk_level = medium;
  mutation_allowed = true;
  can_run_in_parallel = false;
  stop_if_fails = true;
  fallback_role = none;
  acceptance_criteria = [];
  status = status;
}

abbrev pub graph_of : List TaskGraphNode → TaskGraph
graph_of nodes = record {
  schema_version = "task-graph/v1";
  graph_id = "task_graph_sample";
  goal = "sample";
  root_objective = "sample";
  workflow_kind = none;
  risk_level = medium;
  nodes = nodes;
  edges = [];
  entry_node_ids = [];
  terminal_node_ids = [];
  stop_conditions = [];
  risk_boundaries = [];
}
