-- ===== src/Orchestration/Scheduler/Progress.antt =====
-- A role graph does not get stuck: what is not ended waits for nothing but what is ready.
use tomorrowedge.Prelude.{
  String, ◌≡◌, ◌⊎◌, inl, inr, refl, sym, ◌∙◌, subst, Bool, true, false, ◌&&◌, none, some, List, [],
  ◌∷◌, ◌==◌, Memᴰ, all, find, filter, includes, All, arith, Bool-cases, eq_iff, eq_refl,
  if◌then◌else◌,
}
use tomorrowedge.Orchestration.RoleGraph.{RoleNode, ids}
use tomorrowedge.Orchestration.RoleGraph.Laws.{is_ordered, is_distinct}
use tomorrowedge.Orchestration.Scheduler.{
  is_ended_as_failure, ExecutionStatus, pending, ready, running, ended, success, failed, blocked,
  skipped, RoleGraphExecutionState, RoleNodeExecution, is_waiting, is_running, is_ended,
  execution_of, node_of, status_lets_through, is_satisfied, is_ready, ready_role_nodes, has_failed,
  has_ended, stop_reason_for_state,
}

-- The node has an entry that is not running; if it was skipped, it may be, and if it failed or was
-- blocked, it is not required.
pub record IsQuiet (s : RoleGraphExecutionState) (n : RoleNode) : Type 0 where
  pub entry : RoleNodeExecution
  pub entered : execution_of s.nodes n.id ≡ some entry
  pub resting : is_running entry.status ≡ false
  pub skippable : entry.status ≡ ended skipped → n.can_skip ≡ true
  pub optional : is_ended_as_failure entry.status ≡ true → n.required ≡ false

passes :
    (status : ExecutionStatus) (n : RoleNode)
    → (status ≡ ended skipped → n.can_skip ≡ true)
    → (is_ended_as_failure status ≡ true → n.required ≡ false)
    → is_ended status ≡ true
    → status_lets_through status (some n) ≡ true
passes (ended success) n h k e = refl
passes (ended skipped) n h k e = h refl
passes (ended failed) n h k e = rw (k refl) refl
passes (ended blocked) n h k e = rw (k refl) refl
passes pending n h k e = cc
passes ready n h k e = cc
passes running n h k e = cc

-- The first node with the id of a node is the node.
abbrev IsFirstIn : List RoleNode → RoleNode → Type 0
IsFirstIn ns m = find (λ (k : RoleNode). k.id == m.id) ns ≡ some m

IsFirstIn-cons :
    (n : RoleNode) (full ms : List RoleNode)
    → includes (ids ms) n.id ≡ false
    → All (IsFirstIn full) ms
    → All (IsFirstIn (n ∷ full)) ms
IsFirstIn-cons n full [] h k = tt
IsFirstIn-cons n full (m ∷ ms) h k = (
  ground (arith, eq_iff n.id m.id, eq_iff m.id n.id, h, k.0),
  IsFirstIn-cons n full ms (ground (arith, h)) k.1,
)

is_distinct-IsFirstIn : (ns : List RoleNode) → is_distinct ns ≡ true → All (IsFirstIn ns) ns
is_distinct-IsFirstIn [] h = tt
is_distinct-IsFirstIn (n ∷ ns) h = (
  ground (arith, eq_refl n.id),
  IsFirstIn-cons n ns ns (ground (arith, h)) (is_distinct-IsFirstIn ns (ground (arith, h))),
)

idle_of_none :
    (p : RoleNode → Bool) (ns : List RoleNode) → filter p ns ≡ [] → All (λ n. p n ≡ false) ns
idle_of_none p [] h = tt
idle_of_none p (n ∷ ns) h =
    let rest = idle_of_none p ns in
    elim (Bool-cases (p n)) [
      | inl e ↦
          let kept : n ∷ filter p ns ≡ [] =
            subst (λ b. (if b then n ∷ filter p ns else filter p ns) ≡ []) e h in
          cc
      | inr e ↦ (e, rest (subst (λ b. (if b then n ∷ filter p ns else filter p ns) ≡ []) e h))
    ]

all_satisfied :
    (s : RoleGraphExecutionState) (seen ds : List String)
    → ((d : String) → includes seen d ≡ true → is_satisfied s d ≡ true)
    → all (includes seen) ds ≡ true
    → all (is_satisfied s) ds ≡ true
all_satisfied s seen [] h k = refl
all_satisfied s seen (d ∷ ds) h k = ground (arith, all_satisfied s seen ds h, h d, k)

List-cases :
    (ns : List RoleNode) → (ns ≡ []) ⊎ ((n : RoleNode) × (rest : List RoleNode) × (ns ≡ n ∷ rest))
List-cases [] = inl refl
List-cases (n ∷ ns) = inr (n, ns, refl)

module _ (s : RoleGraphExecutionState) where
  -- What is known of a node that cannot be begun.
  record IsOver (n : RoleNode) : Type 0 where
    over : has_ended s.nodes n ≡ true
    unfailed : has_failed s.nodes n ≡ false
    satisfied : is_satisfied s n.id ≡ true

  is_ready-entered :
      (n : RoleNode) (e : RoleNodeExecution)
      → execution_of s.nodes n.id ≡ some e
      → is_ready s n ≡ (is_waiting e.status && all (is_satisfied s) n.dependencies)
  unfolding is_ready
  is_ready-entered n e there = rw (there, is_ready) refl

  is_satisfied-entered :
      (d : String) (e : RoleNodeExecution)
      → execution_of s.nodes d ≡ some e
      → is_satisfied s d ≡ status_lets_through e.status (node_of s.graph d)
  unfolding is_satisfied
  is_satisfied-entered d e there = rw (there, is_satisfied) refl

  ended_of_idle :
      (n : RoleNode) (q : IsQuiet s n)
      → all (is_satisfied s) n.dependencies ≡ true
      → is_ready s n ≡ false
      → is_ended q.entry.status ≡ true
  ended_of_idle n q deps idle =
      ground (arith, is_ready-entered n q.entry q.entered, deps, idle, q.resting)

  node-IsOver :
      (n : RoleNode)
      → node_of s.graph n.id ≡ some n
      → IsQuiet s n
      → all (is_satisfied s) n.dependencies ≡ true
      → is_ready s n ≡ false
      → IsOver n
  node-IsOver n found q deps idle =
      let over = ended_of_idle n q deps idle in
      let through = passes q.entry.status n q.skippable q.optional over in
      record {
        over = rw (q.entered, has_ended) over;
        unfailed = rw (q.entered, has_failed) (ground (arith, q.optional));
        satisfied = is_satisfied-entered n.id q.entry q.entered ∙ rw found through;
      }

  All-IsOver :
      (ns : List RoleNode) (seen : List String)
      → All (IsFirstIn s.graph.nodes) ns
      → All (IsQuiet s) ns
      → is_ordered seen ns ≡ true
      → ((d : String) → includes seen d ≡ true → is_satisfied s d ≡ true)
      → All (λ n. is_ready s n ≡ false) ns
      → All IsOver ns
  unfolding node_of
  All-IsOver [] seen f q o known idle = tt
  All-IsOver (n ∷ ns) seen f q o known idle =
      let now =
        node-IsOver n f.0 q.0 (all_satisfied s seen n.dependencies known (ground (arith, o)))
          idle.0 in
      (
        now,
        All-IsOver ns (n.id ∷ seen) f.1 q.1 (ground (arith, o))
            (λ d e. elim (Bool-cases (n.id == d)) [
              | inl same ↦
                  subst (λ i. is_satisfied s i ≡ true) ((eq_iff n.id d).0 same) now.satisfied
              | inr other ↦ known d (ground (arith, e, other))
            ])
            idle.1,
      )

  none_failed : (ns : List RoleNode) → All IsOver ns → find (has_failed s.nodes) ns ≡ none
  none_failed [] h = refl
  none_failed (n ∷ ns) h = rw h.0.unfailed (none_failed ns h.1)

  all_ended : (ns : List RoleNode) → All IsOver ns → all (has_ended s.nodes) ns ≡ true
  all_ended [] h = refl
  all_ended (n ∷ ns) h = rw h.0.over (all_ended ns h.1)

  -- A state of a graph in order, in which no node is running, each node that was skipped may be
  -- skipped and each that failed or was blocked is not required, either has a node that is ready
  -- or stops with `role graph complete`: no node waits for ever.
  pub ready_or_complete :
      is_ordered [] s.graph.nodes ≡ true
      → is_distinct s.graph.nodes ≡ true
      → All (IsQuiet s) s.graph.nodes
      → ((n : RoleNode) × Memᴰ n (ready_role_nodes s))
        ⊎ (stop_reason_for_state s ≡ some "role graph complete")
  unfolding ready_role_nodes stop_reason_for_state
  ready_or_complete ordered distinct quiet = elim (List-cases (ready_role_nodes s)) [
    | inr (n, ns, e) ↦ inl (n, subst (Memᴰ n) (sym e) (Memᴰ.head refl))
    | inl e ↦
        let over =
          All-IsOver s.graph.nodes [] (is_distinct-IsFirstIn s.graph.nodes distinct) quiet ordered
            (λ d h. cc) (idle_of_none (is_ready s) s.graph.nodes e) in
        inr (
          rw (none_failed s.graph.nodes over, all_ended s.graph.nodes over, stop_reason_for_state)
            refl)
  ]
