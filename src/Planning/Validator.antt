-- ===== src/Planning/Validator.antt =====
-- `validateTaskGraph` of src/core/planning/taskGraphValidator.ts. A node's role, kind and phase are
-- always given, so the errors for absent ones are left out.
pub mod Laws
use tomorrowedge.Prelude.{
  String, Bool, true, false, not, ◌&&◌, ◌||◌, Option, none, some, List, [], ◌∷◌, ◌++◌, ◌==◌, any,
  find, filter, includes, is_empty, cat, if◌then◌else◌,
}
use tomorrowedge.Roles.{AgentRole, reviewer, judge, role_eq, has_role, role_text}
use tomorrowedge.Orchestration.RoleGraph.{
  WorkflowKind, patch, vision_patch, RiskLevel, high, is_read_only, is_mutation_role,
}
use tomorrowedge.ControlPlane.Workspace.{trim}
use tomorrowedge.Planning.TaskGraph.{TaskNodeKind, TaskGraphNode, TaskGraph, EvidenceRequirement}
use tomorrowedge.Planning.Cycles.{node_ids, has_cycle}
use tomorrowedge.Planning.Inputs.{upstream_produces}

pub record TaskGraphValidationResult : Type 0 where
  pub ok : Bool
  pub errors : List String
  pub warnings : List String

-- `if (test) messages.push(message)`
abbrev pub push_if : Bool → String → List String
push_if true message = message ∷ []
push_if false message = []

-- The messages of a loop.
abbrev pub for_each {ℓ} : {A : Type ℓ} → List A → (A → List String) → List String
for_each [] f = []
for_each (x ∷ xs) f = f x ++ for_each xs f

abbrev kind_text : TaskNodeKind → String
kind_text TaskNodeKind.inspect = "inspect"
kind_text TaskNodeKind.analyze = "analyze"
kind_text TaskNodeKind.design = "design"
kind_text TaskNodeKind.patch = "patch"
kind_text TaskNodeKind.review = "review"
kind_text TaskNodeKind.judge = "judge"
kind_text TaskNodeKind.apply_patch = "apply_patch"
kind_text TaskNodeKind.verify = "verify"
kind_text TaskNodeKind.repair = "repair"
kind_text TaskNodeKind.summarize = "summarize"
kind_text TaskNodeKind.ask_user = "ask_user"

abbrev pub kind_eq : TaskNodeKind → TaskNodeKind → Bool
kind_eq a b = kind_text a == kind_text b

abbrev pub is_mutation_kind : TaskNodeKind → Bool
is_mutation_kind TaskNodeKind.patch = true
is_mutation_kind TaskNodeKind.apply_patch = true
is_mutation_kind TaskNodeKind.verify = true
is_mutation_kind TaskNodeKind.repair = true
is_mutation_kind _ = false

unfoldable pub shape_errors : TaskGraphNode → List String
unfolding trim
shape_errors n =
    push_if (trim n.id == "") "task graph node has an empty id"
    ++ push_if (trim n.objective == "") (cat ("node " ∷ n.id ∷ " has an empty objective" ∷ []))

shape_warnings : TaskGraphNode → List String
unfolding trim
shape_warnings n =
    push_if (trim n.title == "") (cat ("node " ∷ n.id ∷ " has an empty title" ∷ []))
    ++ push_if (not (has_role n.role_hints n.owner_role)) (
        cat ("node " ∷ n.id ∷ " roleHints should include ownerRole " ∷ role_text n.owner_role ∷ []))

-- The first loop, with the ids that have been seen.
unfoldable pub node_errors : List String → List TaskGraphNode → List String
unfolding shape_errors
node_errors seen [] = []
node_errors seen (n ∷ ns) =
    (shape_errors n
      ++ push_if (includes seen n.id) (cat ("duplicate task graph node id: " ∷ n.id ∷ [])))
    ++ node_errors (n.id ∷ seen) ns

-- The second loop, one node.
unfoldable pub dependency_errors : List String → TaskGraphNode → List String
dependency_errors ids n =
    for_each n.depends_on (λ d.
      push_if (not (includes ids d)) (cat ("node " ∷ n.id ∷ " depends on missing node " ∷ d ∷ [])))
    ++ for_each n.dependencies (λ d.
      push_if (not (includes ids d))
        (cat ("node " ∷ n.id ∷ " legacy dependency points to missing node " ∷ d ∷ [])))

abbrev pub kind_is_read_only : Option WorkflowKind → Bool
kind_is_read_only none = false
kind_is_read_only (some kind) = is_read_only kind

-- `patchLike && graph.workflowKind !== "repair"`
abbrev pub kind_is_patch : Option WorkflowKind → Bool
kind_is_patch (some patch) = true
kind_is_patch (some vision_patch) = true
kind_is_patch _ = false

unfoldable pub read_only_errors : TaskGraphNode → List String
read_only_errors n =
    push_if n.mutation_allowed (cat ("read-only graph node " ∷ n.id ∷ " allows mutation" ∷ []))
    ++ (push_if (is_mutation_kind n.kind)
          (cat ("read-only graph contains mutation node " ∷ n.id ∷ ":" ∷ kind_text n.kind ∷ []))
        ++ push_if (is_mutation_role n.owner_role) (
            cat (
              "read-only graph assigns mutation role "
              ∷ role_text n.owner_role
              ∷ " to "
              ∷ n.id
              ∷ [])))

unfoldable pub find_kind : TaskGraph → TaskNodeKind → Option TaskGraphNode
find_kind graph kind = find (λ (n : TaskGraphNode). kind_eq n.kind kind) graph.nodes

abbrev pub is_absent : Option TaskGraphNode → Bool
is_absent none = true
is_absent (some n) = false

-- Both nodes are there, and the first does not depend on the second.
abbrev pub is_apart : Option TaskGraphNode → Option TaskGraphNode → Bool
is_apart (some n) (some m) = not (includes n.depends_on m.id)
is_apart _ _ = false

unfoldable pub patch_errors : TaskGraph → List String
unfolding find_kind
patch_errors graph =
    push_if (is_absent (find_kind graph TaskNodeKind.patch))
      "patch workflow must include a patch node"
    ++ (push_if (is_absent (find_kind graph TaskNodeKind.review))
          "patch workflow must include a review node"
        ++ (push_if (is_absent (find_kind graph TaskNodeKind.judge))
              "patch workflow must include a judge node"
            ++ (push_if (is_absent (find_kind graph TaskNodeKind.apply_patch))
                  "patch workflow must include an apply_patch node"
                ++ (push_if (is_absent (find_kind graph TaskNodeKind.verify))
                      "patch workflow must include a verify node"
                    ++ (push_if
                          (is_apart (find_kind graph TaskNodeKind.apply_patch)
                            (find_kind graph TaskNodeKind.judge))
                          "apply_patch must depend on judge node"
                        ++ push_if
                            (is_apart (find_kind graph TaskNodeKind.verify)
                              (find_kind graph TaskNodeKind.apply_patch))
                            "verify_patch must depend on apply_patch unless dry-run is explicit")))))

patch_warnings : TaskGraph → List String
unfolding find_kind
patch_warnings graph =
    push_if
      (is_apart (find_kind graph TaskNodeKind.summarize) (find_kind graph TaskNodeKind.verify))
      "summarize should depend on the verification outcome"

abbrev pub risk_is_high : RiskLevel → Bool
risk_is_high high = true
risk_is_high _ = false

abbrev pub has_step : TaskGraph → TaskNodeKind → AgentRole → Bool
has_step graph kind role =
    any (λ (n : TaskGraphNode). kind_eq n.kind kind && role_eq n.owner_role role) graph.nodes

unfoldable pub risk_errors : TaskGraph → List String
risk_errors graph =
    push_if (not (has_step graph TaskNodeKind.review reviewer))
      "high-risk graph must include reviewer-owned review node"
    ++ push_if (not (has_step graph TaskNodeKind.judge judge))
        "high-risk graph must include judge-owned judge node"

unfoldable pub input_errors : TaskGraph → TaskGraphNode → List String
input_errors graph n =
    for_each (filter (λ (item : EvidenceRequirement). item.required) n.required_inputs) (λ required.
      push_if (not (upstream_produces graph n required.id)) (
        cat
          ("node " ∷ n.id ∷ " requires " ∷ required.id ∷ " but no upstream node produces it" ∷ [])))

abbrev pub only_if : Bool → List String → List String
only_if true messages = messages
only_if false messages = []

unfoldable pub workflow_errors : TaskGraph → List String
unfolding read_only_errors patch_errors risk_errors input_errors
workflow_errors graph =
    only_if (kind_is_read_only graph.workflow_kind) (for_each graph.nodes read_only_errors)
    ++ (only_if (kind_is_patch graph.workflow_kind) (patch_errors graph)
        ++ (only_if (risk_is_high graph.risk_level && not (kind_is_read_only graph.workflow_kind))
              (risk_errors graph)
            ++ for_each graph.nodes (input_errors graph)))

unfoldable pub validate_task_graph : TaskGraph → TaskGraphValidationResult
unfolding node_errors dependency_errors shape_warnings patch_warnings workflow_errors
validate_task_graph graph =
    let errors =
      push_if (not (graph.schema_version == "task-graph/v1"))
        "task graph schemaVersion must be task-graph/v1"
      ++ (push_if (is_empty graph.nodes) "task graph has no nodes"
          ++ (node_errors [] graph.nodes
              ++ (for_each graph.nodes (dependency_errors (node_ids graph.nodes))
                  ++ (push_if (has_cycle graph) "task graph contains a dependency cycle"
                      ++ workflow_errors graph)))) in
    record {
      ok = is_empty errors;
      errors = errors;
      warnings =
          for_each graph.nodes shape_warnings
          ++ (only_if (kind_is_patch graph.workflow_kind) (patch_warnings graph)
              ++ (push_if (is_empty graph.entry_node_ids) "task graph has no explicit entry nodes"
                  ++ push_if (is_empty graph.terminal_node_ids)
                      "task graph has no explicit terminal nodes"));
    }
