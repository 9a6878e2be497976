-- ===== src/Planning/Cycles.antt =====
-- `hasCycle` of src/core/planning/taskGraphValidator.ts. `visiting` is the path that leads to the
-- id, from which each id is taken off when its visit ends; `visited` is passed on.
pub mod Laws
pub mod Fuel
pub mod Exact
use tomorrowedge.Prelude.{
  ℕ, zero, suc, ◌+◌, String, Bool, true, false, Option, none, some, List, [], ◌∷◌, ◌==◌, map,
  includes, length, if◌then◌else◌,
}
use tomorrowedge.Planning.TaskGraph.{TaskGraphNode, TaskGraph}

-- `new Map(…).get(id)`: the last node of an id stays.
unfoldable pub node_by_id : List TaskGraphNode → String → Option TaskGraphNode
node_by_id [] id = none
node_by_id (n ∷ ns) id = elim (node_by_id ns id) [
  | some m ↦ some m
  | none ↦ if n.id == id then some n else none
]

-- `node?.dependsOn ?? []`
abbrev pub deps_of_node : Option TaskGraphNode → List String
deps_of_node none = []
deps_of_node (some n) = n.depends_on

unfoldable pub deps_of : List TaskGraphNode → String → List String
unfolding node_by_id
deps_of nodes id = deps_of_node (node_by_id nodes id)

-- A visit finds a cycle, or ends with the visited ids, the last one first; `spent` says that the
-- depth given was not enough.
pub data Search : Type 0 where
  cycle : Search
  clear : List String → Search
  spent : Search

abbrev pub and_then : Search → (List String → Search) → Search
and_then cycle f = cycle
and_then (clear visited) f = f visited
and_then spent f = spent

-- `for … if (visit(dependency)) return true`
abbrev pub visit_all : (List String → String → Search) → List String → List String → Search
visit_all visit [] visited = clear visited
visit_all visit (id ∷ ids) visited = and_then (visit visited id) (visit_all visit ids)

-- One visit, with the depth that is left.
unfoldable pub visit_from : List TaskGraphNode → ℕ → List String → List String → String → Search
unfolding deps_of
visit_from nodes zero visiting visited id = spent
visit_from nodes (suc depth) visiting visited id =
    let below =
      and_then (visit_all (visit_from nodes depth (id ∷ visiting)) (deps_of nodes id) visited)
        (λ after. clear (id ∷ after)) in
    if includes visited id then clear visited else if includes visiting id then cycle else below

abbrev pub node_ids : List TaskGraphNode → List String
node_ids nodes = map (λ (n : TaskGraphNode). n.id) nodes

-- The ids on a path differ and all but the last have a node.
unfoldable pub search_cycle : List TaskGraphNode → Search
unfolding visit_from
search_cycle nodes = visit_all (visit_from nodes (length nodes + 1) []) (node_ids nodes) []

abbrev pub is_cycle : Search → Bool
is_cycle cycle = true
is_cycle _ = false

unfoldable pub has_cycle : TaskGraph → Bool
unfolding search_cycle
has_cycle graph = is_cycle (search_cycle graph.nodes)
