-- ===== src/Orchestration/Scheduler/Laws.antt =====
-- When a node may begin or succeed.
use tomorrowedge.Prelude.{
  String, ◌+◌, ◌≡◌, ◌≢◌, ◌⊎◌, inl, inr, refl, sym, ◌∙◌, subst, Bool, true, false, not, ◌&&◌, Option,
  none, some, List, [], ◌∷◌, ◌==◌, Memᴰ, any, find, arith, Bool-cases, Option-cases, eq_iff,
  any_iff, eq_of_some, if◌then◌else◌,
}
use tomorrowedge.Roles.{AgentRole, role_eq}
use tomorrowedge.Orchestration.RoleGraph.{RoleNode}
use tomorrowedge.Orchestration.Scheduler.{
  RoleGraphExecutionState, RoleNodeExecution, RoleNodeResult, success, is_running, execution_of,
  ready_role_nodes, next_node_for_role, node_for_role, can_run_role_node, begin_role_node,
  finish_role_node, started, finished, running,
}

-- What `find` finds passes the test.
find_passes {ℓ} :
    {A : Type ℓ} (p : A → Bool) (xs : List A) (x : A) → find p xs ≡ some x → p x ≡ true
find_passes p [] x h = cc
find_passes p (y ∷ ys) x h =
    let rest = find_passes p ys x in
    elim (Bool-cases (p y)) [
      | inl e ↦
          subst (λ z. p z ≡ true)
            (eq_of_some (subst (λ b. (if b then some y else find p ys) ≡ some x) e h)) e
      | inr e ↦ rest (subst (λ b. (if b then some y else find p ys) ≡ some x) e h)
    ]

-- A ready node of the graph has the id.
abbrev pub IsReadyId : RoleGraphExecutionState → String → Type 0
IsReadyId state id = (m : RoleNode) × Memᴰ m (ready_role_nodes state) × (m.id ≡ id)

-- The tests of an ongoing search: the answer is there.
found_by_id :
    (state : RoleGraphExecutionState) (role : AgentRole) (id : String) (n : RoleNode)
    → id ≢ ""
    → node_for_role state role (some id) ≡ some n
    → (n.id ≡ id) × (role_eq n.role role ≡ true)
unfolding node_for_role
found_by_id state role id n some_text h =
    let test : (if id == ""
          then next_node_for_role state role
          else find (λ (m : RoleNode). m.id == id && role_eq m.role role) state.graph.nodes)
        ≡ some n =
      h in
    let plain : (id == "") ≡ false = elim (Bool-cases (id == "")) [
      | inl e ↦ absurd (some_text ((eq_iff id "").0 e))
      | inr e ↦ e
    ] in
    let passes =
      find_passes (λ (m : RoleNode). m.id == id && role_eq m.role role) state.graph.nodes n
        (subst
          (λ b.
            (if b
              then next_node_for_role state role
              else find (λ (m : RoleNode). m.id == id && role_eq m.role role) state.graph.nodes)
            ≡ some n)
          plain h) in
    ((eq_iff n.id id).0 (ground (arith, passes)), ground (arith, passes))

-- A node that may run by its id is ready.
ready_of_can_run :
    (state : RoleGraphExecutionState) (role : AgentRole) (id : String)
    → id ≢ ""
    → can_run_role_node state role (some id) ≡ true
    → IsReadyId state id
unfolding can_run_role_node
ready_of_can_run state role id some_text h =
    elim (Option-cases (node_for_role state role (some id))) [
      | inl e ↦ absurd (
          never (
            subst
              (λ o.
                elim o [
                  | none ↦ false
                  | some n ↦ any (λ (ready : RoleNode). ready.id == n.id) (ready_role_nodes state)
                ]
                ≡ true)
              e h))
      | inr (n, e) ↦
          let hit =
            subst
              (λ o.
                elim o [
                  | none ↦ false
                  | some n ↦ any (λ (ready : RoleNode). ready.id == n.id) (ready_role_nodes state)
                ]
                ≡ true)
              e h in
          let (m, at, same) =
            (any_iff (λ (ready : RoleNode). ready.id == n.id) (ready_role_nodes state)).0 hit in
          (m, at, (eq_iff m.id n.id).0 same ∙ (found_by_id state role id n some_text e).0)
    ]
  where
    never : false ≡ true → ⊥
    never x = cc

entry_id :
    (state : RoleGraphExecutionState) (id : String) (e : RoleNodeExecution)
    → execution_of state.nodes id ≡ some e
    → e.node_id ≡ id
unfolding execution_of
entry_id state id e h =
    (eq_iff e.node_id id).0
      (find_passes (λ (x : RoleNodeExecution). x.node_id == id) state.nodes e h)

-- What a node that begins was before.
pub record IsBegun (state : RoleGraphExecutionState) (begun : RoleNodeExecution) : Type 0 where
  pub was_ready : IsReadyId state begun.node_id
  pub entry : RoleNodeExecution
  pub entered : execution_of state.nodes begun.node_id ≡ some entry
  pub runs : begun.status ≡ running
  pub counted : begun.attempts ≡ entry.attempts + 1

started-IsBegun :
    (state : RoleGraphExecutionState) (role : AgentRole) (n : RoleNode) (e : RoleNodeExecution)
    → execution_of state.nodes n.id ≡ some e
    → can_run_role_node state role (some n.id) ≡ true
    → e.node_id ≢ ""
    → IsBegun state (started e)
started-IsBegun state role n e there able named =
    let same = entry_id state n.id e there in
    record {
      was_ready =
          subst (IsReadyId state) (sym same)
            (ready_of_can_run state role n.id (λ k. named (same ∙ k)) able);
      entry = e;
      entered = subst (λ i. execution_of state.nodes i ≡ some e) (sym same) there;
      runs = refl;
      counted = refl;
    }

-- A node that begins, and whose id is not empty, was ready: it had not ended, and each of its
-- dependencies let it through. It runs then, with one more attempt.
pub begin-IsBegun :
    (state : RoleGraphExecutionState) (role : AgentRole) (node_id : Option String)
    (begun : RoleNodeExecution)
    → (begin_role_node state role node_id).1 ≡ some begun
    → begun.node_id ≢ ""
    → IsBegun state begun
unfolding begin_role_node
begin-IsBegun state role node_id = elim (Option-cases (node_for_role state role node_id)) [
  | inl e ↦ rw (e, begin_role_node) (λ begun h named. cc)
  | inr (n, found) ↦ elim (Option-cases (execution_of state.nodes n.id)) [
    | inl e ↦ rw (found, e, begin_role_node) (λ begun h named. cc)
    | inr (e, there) ↦ elim (Bool-cases (can_run_role_node state role (some n.id))) [
      | inr unable ↦ rw (found, there, unable, begin_role_node) (λ begun h named. cc)
      | inl able ↦
          rw (found, there, able, begin_role_node)
            (λ begun h named. subst (IsBegun state) (eq_of_some h) (
              started-IsBegun state role n e there able
                (λ k. named (subst (λ (x : RoleNodeExecution). x.node_id ≡ "") (eq_of_some h) k))))
    ]
  ]
]

-- A node that succeeded was running, or was ready.
abbrev pub MaySucceed : RoleGraphExecutionState → RoleNodeExecution → Type 0
MaySucceed state done =
    ((e : RoleNodeExecution) × (execution_of state.nodes done.node_id ≡ some e)
      × (is_running e.status ≡ true))
    ⊎ IsReadyId state done.node_id

finished-MaySucceed :
    (state : RoleGraphExecutionState) (result : RoleNodeResult) (n : RoleNode)
    (e : RoleNodeExecution)
    → execution_of state.nodes n.id ≡ some e
    → (not (is_running e.status) && not (can_run_role_node state result.role (some n.id))) ≡ false
    → e.node_id ≢ ""
    → MaySucceed state (finished result e)
finished-MaySucceed state result n e there free named =
    let same = entry_id state n.id e there in
    elim (Bool-cases (is_running e.status)) [
      | inl on ↦ inl (e, subst (λ i. execution_of state.nodes i ≡ some e) (sym same) there, on)
      | inr off ↦ inr (
          subst (IsReadyId state) (sym same) (
            ready_of_can_run state result.role n.id (λ k. named (same ∙ k))
              (ground (arith, free, off))))
    ]

-- A node can only succeed if it was running or ready: a success out of order changes no entry.
pub finish-MaySucceed :
    (state : RoleGraphExecutionState) (result : RoleNodeResult)
    → result.status ≡ success
    → (done : RoleNodeExecution) → (finish_role_node state result).1 ≡ some done
    → done.node_id ≢ ""
    → MaySucceed state done
unfolding finish_role_node
finish-MaySucceed state result ok =
    elim (Option-cases (node_for_role state result.role result.node_id)) [
      | inl e ↦ rw (e, finish_role_node) (λ done h named. cc)
      | inr (n, found) ↦ elim (Option-cases (execution_of state.nodes n.id)) [
        | inl e ↦ rw (found, e, finish_role_node) (λ done h named. cc)
        | inr (e, there) ↦
            elim (Bool-cases (
              not (is_running e.status) && not (can_run_role_node state result.role (some n.id)))) [
                | inl stopped ↦
                    rw (found, there, ok, stopped, finish_role_node) (λ done h named. cc)
                | inr free ↦
                    rw (found, there, ok, free, finish_role_node)
                      (λ done h named. subst (MaySucceed state) (eq_of_some h) (
                        finished-MaySucceed state result n e there free (λ k.
                          named
                            (subst (λ (x : RoleNodeExecution). x.node_id ≡ "") (eq_of_some h) k))))
              ]
      ]
    ]
