-- ===== src/Planning/Progress.antt =====
-- A task graph that the validator accepts does not get stuck, src/core/planning.
use tomorrowedge.Prelude.{
  String, ◌≡◌, ◌↔◌, inl, inr, refl, sym, ap, ◌∙◌, subst, Bool, true, false, ◌&&◌, ◌||◌, some, List,
  [], ◌∷◌, ◌==◌, Memᴰ, all, find, filter, includes, All, All-mem, arith, Bool-cases, Option-cases,
  eq_iff, mem-filter_iff, find-some, mem-map_iff,
}
use tomorrowedge.Planning.TaskGraph.{
  TaskGraphNodeStatus, TaskGraphNode, TaskGraph, is_pending, is_settled, lets_start,
  next_ready_task_nodes,
}
use tomorrowedge.Planning.Cycles.{node_by_id, deps_of, deps_of_node, node_ids}
use tomorrowedge.Planning.Cycles.Laws.{IsTopological}
use tomorrowedge.Planning.Cycles.Exact.{IsOrder, includes_of_all}
use tomorrowedge.Planning.Cycles.Fuel.{node_by_id_of_missing}
use tomorrowedge.Planning.Validator.{validate_task_graph}
use tomorrowedge.Planning.Validator.Laws.{AreNew, validate-IsValid}

AreNew-missing :
    (seen : List String) (ns : List TaskGraphNode) (id : String)
    → AreNew seen ns
    → includes seen id ≡ true
    → includes (node_ids ns) id ≡ false
AreNew-missing seen [] id h k = refl
AreNew-missing seen (n ∷ ns) id h k =
    let rest = AreNew-missing (n.id ∷ seen) ns id h.1 (ground (arith, k)) in
    elim (Bool-cases (n.id == id)) [
      | inl e ↦ absurd (cc (sym h.0 ∙ ap (includes seen) ((eq_iff n.id id).0 e) ∙ k))
      | inr e ↦ ground (arith, rest, e)
    ]

-- Where no id stands twice, the first node of an id is the last.
find-node_by_id :
    (seen : List String) (ns : List TaskGraphNode) (id : String)
    → AreNew seen ns
    → find (λ (n : TaskGraphNode). n.id == id) ns ≡ node_by_id ns id
unfolding node_by_id
find-node_by_id seen [] id h = refl
find-node_by_id seen (n ∷ ns) id h =
    let rest = find-node_by_id (n.id ∷ seen) ns id h.1 in
    elim (Bool-cases (n.id == id)) [
      | inl e ↦
          let gone =
            node_by_id_of_missing ns id
              (AreNew-missing (n.id ∷ seen) ns id h.1 (ground (arith, e))) in
          rw (node_by_id, gone, e) refl
      | inr e ↦ ground (arith, rest, e)
    ]

id_of_mem : (ns : List TaskGraphNode) (n : TaskGraphNode) → Memᴰ n ns → Memᴰ n.id (node_ids ns)
id_of_mem ns n m = (mem-map_iff (λ (k : TaskGraphNode). k.id) ns n.id).1 (n, m, refl)

includes_of_mem : (xs : List String) (s : String) → Memᴰ s xs → includes xs s ≡ true
includes_of_mem [] s m = elim m [ ]
includes_of_mem (x ∷ xs) s (Memᴰ.head e) = let same = (eq_iff x s).1 (sym e) in ground (arith, same)
includes_of_mem (x ∷ xs) s (Memᴰ.tail m) = let rest = includes_of_mem xs s m in ground (arith, rest)

find_self :
    (seen : List String) (ns : List TaskGraphNode) (n : TaskGraphNode)
    → AreNew seen ns
    → Memᴰ n ns
    → find (λ (k : TaskGraphNode). k.id == n.id) ns ≡ some n
find_self seen [] n h m = elim m [ ]
find_self seen (k ∷ ns) n h (Memᴰ.head e) =
    let same : (k.id == n.id) ≡ true =
      (eq_iff k.id n.id).1 (ap (λ (x : TaskGraphNode). x.id) (sym e)) in
    rw same (ap some (sym e))
find_self seen (k ∷ ns) n h (Memᴰ.tail m) = elim (Bool-cases (k.id == n.id)) [
  | inr e ↦ rw e (find_self (k.id ∷ seen) ns n h.1 m)
  | inl e ↦
      let gone = AreNew-missing (k.id ∷ seen) ns n.id h.1 (rw e refl) in
      let there = includes_of_mem (node_ids ns) n.id (id_of_mem ns n m) in
      absurd (cc (sym gone ∙ there))
]

holds_of_includes :
    (p : String → Bool) (ids : List String) (d : String)
    → all p ids ≡ true
    → includes ids d ≡ true
    → p d ≡ true
holds_of_includes p [] d h k = absurd (cc k)
holds_of_includes p (i ∷ ids) d h k =
    let rest = holds_of_includes p ids d in
    elim (Bool-cases (i == d)) [
      | inl e ↦ let here = ap p ((eq_iff i d).0 e) in ground (arith, here, h)
      | inr e ↦ rest (ground (arith, h)) (ground (arith, k, e))
    ]

all_of_includes :
    (p : String → Bool) (ids ds : List String)
    → all p ids ≡ true
    → all (includes ids) ds ≡ true
    → all p ds ≡ true
all_of_includes p ids [] h k = refl
all_of_includes p ids (d ∷ ds) h k =
    let here = holds_of_includes p ids d h (ground (arith, k)) in
    let rest = all_of_includes p ids ds h (ground (arith, k)) in ground (arith, here, rest)

module _ (graph : TaskGraph) (distinct : AreNew [] graph.nodes)
    (idle : All
      (λ (n : TaskGraphNode). (is_pending n.status || is_settled n.status) ≡ true)
      graph.nodes)
    (none_ready : next_ready_task_nodes graph ≡ []) where
  -- What all its dependencies let start is settled, as nothing is ready.
  settled_behind :
      (n : TaskGraphNode)
      → Memᴰ n graph.nodes
      → all (lets_start graph) n.depends_on ≡ true
      → is_settled n.status ≡ true
  unfolding next_ready_task_nodes
  settled_behind n m h = elim (Bool-cases (is_pending n.status)) [
    | inr e ↦ let k = All-mem _ graph.nodes idle m in ground (arith, e, k)
    | inl e ↦
        let here = (mem-filter_iff _ graph.nodes n).1 (m, both e h) in
        elim (subst (Memᴰ n) none_ready here) [ ]
  ]
    where
      both : {a b : Bool} → a ≡ true → b ≡ true → (a && b) ≡ true
      both e k = rw (e, k) refl

  deps_of-found :
      (i : String) (n : TaskGraphNode)
      → find (λ (k : TaskGraphNode). k.id == i) graph.nodes ≡ some n
      → deps_of graph.nodes i ≡ n.depends_on
  unfolding deps_of
  deps_of-found i n e = ap deps_of_node (sym (find-node_by_id [] graph.nodes i distinct) ∙ e)

  started : (ids : List String) → IsTopological graph.nodes ids → all (lets_start graph) ids ≡ true
  started [] t = refl
  started (i ∷ ids) t =
      let rest = started ids t.1 in
      let below = all_of_includes (lets_start graph) ids (deps_of graph.nodes i) rest t.0 in
      elim (Option-cases (find (λ (k : TaskGraphNode). k.id == i) graph.nodes)) [
        | inl e ↦ rw (lets_start, e) rest
        | inr (n, e) ↦
            let (m, k) = find-some (λ (k : TaskGraphNode). k.id == i) graph.nodes n e in
            let settled =
              settled_behind n m
                (subst (λ ds. all (lets_start graph) ds ≡ true) (deps_of-found i n e) below) in
            rw (lets_start, e, settled) rest
      ]

  node_settled :
      (order : List String) (n : TaskGraphNode)
      → IsOrder graph.nodes order
      → Memᴰ n graph.nodes
      → is_settled n.status ≡ true
  node_settled order n o m =
      let ordered =
        includes_of_all order (node_ids graph.nodes) n.id o.complete (id_of_mem graph.nodes n m) in
      let starts =
        holds_of_includes (lets_start graph) order n.id (started order o.topological) ordered in
      cc (lets_start_self, starts)
    where
      lets_start_self : lets_start graph n.id ≡ is_settled n.status
      lets_start_self = rw (lets_start, find_self [] graph.nodes n distinct m) refl

pub pending_or_settled :
    (status : TaskGraphNodeStatus) → is_settled status ≡ true → is_pending status ≡ false
pending_or_settled TaskGraphNodeStatus.done h = refl
pending_or_settled TaskGraphNodeStatus.skipped h = refl
pending_or_settled TaskGraphNodeStatus.pending h = cc
pending_or_settled TaskGraphNodeStatus.running h = cc
pending_or_settled TaskGraphNodeStatus.blocked h = cc

abbrev pub is_finished : List TaskGraphNode → Bool
is_finished nodes = all (λ (n : TaskGraphNode). is_settled n.status) nodes

is_finished_of_mem :
    (nodes : List TaskGraphNode)
    → ((n : TaskGraphNode) → Memᴰ n nodes → is_settled n.status ≡ true)
    → is_finished nodes ≡ true
is_finished_of_mem [] h = refl
is_finished_of_mem (n ∷ ns) h =
    let here = h n (Memᴰ.head refl) in
    let rest = is_finished_of_mem ns (λ k m. h k (Memᴰ.tail m)) in ground (arith, here, rest)

nothing_ready :
    (lets : String → Bool) (ns : List TaskGraphNode)
    → is_finished ns ≡ true
    → filter (λ (n : TaskGraphNode). is_pending n.status && all lets n.depends_on) ns ≡ []
nothing_ready lets [] h = refl
nothing_ready lets (n ∷ ns) h =
    let off = pending_or_settled n.status (ground (arith, h)) in
    let rest = nothing_ready lets ns (ground (arith, h)) in ground (arith, off, rest)

-- In a graph that the validator accepts and whose steps are each pending, done or skipped, no step
-- is ready exactly where all steps are done or skipped: such a graph does not get stuck.
pub ready_or_finished :
    (graph : TaskGraph)
    → (validate_task_graph graph).ok ≡ true
    → All (λ (n : TaskGraphNode). (is_pending n.status || is_settled n.status) ≡ true) graph.nodes
    → (next_ready_task_nodes graph ≡ []) ↔ (is_finished graph.nodes ≡ true)
unfolding next_ready_task_nodes
ready_or_finished graph ok idle =
    let valid = validate-IsValid graph ok in
    let (order, o) = valid.ordered in
    (
      λ none_ready.
          is_finished_of_mem graph.nodes
            (λ n m. node_settled graph valid.distinct idle none_ready order n o m),
      λ finished. nothing_ready (lets_start graph) graph.nodes finished,
    )
