-- ===== src/Planning/Inputs.antt =====
-- `upstreamProduces` of src/core/planning/taskGraphValidator.ts: whether a step before a step has
-- an output. `seen` is one set for the whole search.
pub mod Laws
pub mod Exact
use tomorrowedge.Prelude.{
  ℕ, zero, suc, ◌+◌, String, Bool, true, false, Option, none, some, List, [], ◌∷◌, ◌==◌, any,
  includes, length, if◌then◌else◌,
}
use tomorrowedge.Planning.TaskGraph.{TaskGraphNode, TaskGraph, ExpectedOutput}
use tomorrowedge.Planning.Cycles.{node_by_id, deps_of_node}

-- A visit has found the output, or ends with the ids seen; `spent` says that the depth given was
-- not enough.
pub data Quest : Type 0 where
  found : Quest
  nothing : List String → Quest
  spent : Quest

abbrev pub or_else_try : Quest → (List String → Quest) → Quest
or_else_try found f = found
or_else_try (nothing seen) f = f seen
or_else_try spent f = spent

-- `dependsOn.some(visit)`
abbrev pub try_all : (List String → String → Quest) → List String → List String → Quest
try_all visit [] seen = nothing seen
try_all visit (id ∷ ids) seen = or_else_try (visit seen id) (try_all visit ids)

abbrev pub has_output : String → TaskGraphNode → Bool
has_output output_id n =
    any (λ (output : ExpectedOutput). output.id == output_id) n.expected_outputs

module _ (nodes : List TaskGraphNode) (output_id : String) where
  unfoldable pub quest_from : ℕ → List String → String → Quest
  unfolding node_by_id
  quest_from zero seen id = spent
  quest_from (suc depth) seen id =
      let current = node_by_id nodes id in
      let below = try_all (quest_from depth) (deps_of_node current) (id ∷ seen) in
      let here : Quest = elim current [
        | none ↦ nothing (id ∷ seen)
        | some n ↦ if has_output output_id n then found else below
      ] in
      if includes seen id then nothing seen else here

abbrev pub is_found : Quest → Bool
is_found found = true
is_found _ = false

-- Each step down sees one more id, and all but the last have a node.
unfoldable pub search_upstream : List TaskGraphNode → TaskGraphNode → String → Quest
unfolding quest_from
search_upstream nodes node output_id =
    try_all (quest_from nodes output_id (length nodes + 1)) node.depends_on []

unfoldable pub upstream_produces : TaskGraph → TaskGraphNode → String → Bool
unfolding search_upstream
upstream_produces graph node output_id = is_found (search_upstream graph.nodes node output_id)
