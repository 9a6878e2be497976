-- ===== src/Planning/Execution/Settled.antt =====
-- No step of a task graph is done before what it depends on.
pub mod Sweeps
pub use tomorrowedge.Planning.Execution.Settled.Sweeps.{is_sound, IsSound}
use tomorrowedge.Planning.Execution.Settled.Sweeps.{all_mono, IsCareful, sweep-IsSound}
use tomorrowedge.Prelude.{
  ℕ, zero, suc, ◌≡◌, refl, ap, sym, ◌∙◌, subst, String, Bool, true, false, not, ◌&&◌, ◌||◌, ◌==◌,
  Option, none, some, List, [], ◌∷◌, ◌++◌, all, arith, Bool-cases, inl, inr, if◌then◌else◌,
  eq_of_some,
}
use tomorrowedge.Roles.{AgentRole}
use tomorrowedge.Orchestration.Scheduler.{ResultStatus, RoleNodeExecution}
use tomorrowedge.Planning.TaskGraph.{TaskGraphNode, TaskGraphNodeStatus, is_pending, is_settled}
use tomorrowedge.Planning.Progress.{pending_or_settled}
use tomorrowedge.Planning.Execution.{
  Step, with_status, sweep, has_changed, flush_step, flush_from, is_settled_in, is_backed, is_done,
  flush_ready_task_graph_nodes, result_step, running_step, matches_role, task_status,
  mark_task_nodes_running, update_task_graph_for_role_node, waiting,
}
use tomorrowedge.Planning.Execution.Laws.{snoc_append, append-nil}

set_if-IsCareful :
    (nodes : List TaskGraphNode) (n : TaskGraphNode) (test : Bool) (s : TaskGraphNodeStatus)
    → (test ≡ true → is_settled n.status ≡ true → is_settled s ≡ true)
    → (test ≡ true → (not (is_done s) || is_backed nodes n) ≡ true)
    → (is_settled n.status ≡ true
        → is_settled (with_status n (if test then some s else none)).status ≡ true)
      × (is_sound nodes n ≡ true
          → is_sound nodes (with_status n (if test then some s else none)) ≡ true)
set_if-IsCareful nodes n true s settles backs = (settles refl, λ h. backs refl)
set_if-IsCareful nodes n false s settles backs = (λ h. h, λ h. h)

and_right : (a b : Bool) → (a && b) ≡ true → b ≡ true
and_right true b h = h
and_right false b h = absurd (cc h)

pending-unsettled :
    (other : TaskGraphNodeStatus) (n : TaskGraphNode)
    → is_pending n.status ≡ true
    → is_settled n.status ≡ true
    → is_settled other ≡ true
pending-unsettled other n p h = absurd (cc (p, pending_or_settled n.status h))

running-IsCareful : (id : String) (role : AgentRole) → IsCareful (running_step id role)
unfolding running_step
running-IsCareful id role nodes n =
    set_if-IsCareful nodes n (matches_role n id role && is_pending n.status)
      TaskGraphNodeStatus.running
      (λ t. pending-unsettled TaskGraphNodeStatus.running n (and_right _ _ t)) (λ t. refl)

flush-IsCareful : (roles : List RoleNodeExecution) → IsCareful (flush_step roles)
unfolding flush_step
flush-IsCareful roles nodes n =
    set_if-IsCareful nodes n _ TaskGraphNodeStatus.done (λ t h. refl) (λ t. ground (arith, t))

abbrev pub is_setback : ResultStatus → Bool
is_setback ResultStatus.failed = true
is_setback ResultStatus.blocked = true
is_setback _ = false

result-IsCareful :
    (id : String) (role : AgentRole) (result : ResultStatus)
    → is_setback result ≡ false
    → IsCareful (result_step id role (task_status result))
unfolding result_step
result-IsCareful id role ResultStatus.success ok nodes n =
    set_if-IsCareful nodes n (matches_role n id role && is_backed nodes n) TaskGraphNodeStatus.done
      (λ t h. refl) (λ t. and_right _ _ t)
result-IsCareful id role ResultStatus.skipped ok nodes n =
    set_if-IsCareful nodes n (matches_role n id role && true) TaskGraphNodeStatus.skipped
      (λ t h. refl) (λ t. refl)
result-IsCareful id role ResultStatus.failed ok nodes n = absurd (cc ok)
result-IsCareful id role ResultStatus.blocked ok nodes n = absurd (cc ok)

flush_from-IsSound :
    (rounds : ℕ) (roles : List RoleNodeExecution) (nodes after : List TaskGraphNode)
    → flush_from rounds roles nodes ≡ some after
    → IsSound nodes
    → IsSound after
unfolding flush_from
flush_from-IsSound zero roles nodes after e h = absurd (cc e)
flush_from-IsSound (suc rounds) roles nodes after e h =
    let swept = sweep-IsSound (flush_step roles) (flush-IsCareful roles) [] nodes h in
    elim (Bool-cases (has_changed (flush_step roles) [] nodes)) [
      | inl c ↦
          flush_from-IsSound rounds roles (sweep (flush_step roles) [] nodes) after
            (sym (rw c refl) ∙ e) swept
      | inr c ↦
          subst IsSound {x = sweep (flush_step roles) [] nodes} (eq_of_some (sym (rw c refl) ∙ e))
            swept
    ]

is_done_pending : (status : TaskGraphNodeStatus) → is_done status ≡ true → is_pending status ≡ false
is_done_pending TaskGraphNodeStatus.done h = refl
is_done_pending TaskGraphNodeStatus.skipped h = refl
is_done_pending TaskGraphNodeStatus.running h = refl
is_done_pending TaskGraphNodeStatus.blocked h = refl
is_done_pending TaskGraphNodeStatus.pending h = absurd (cc h)

fresh-IsSound :
    (nodes : List TaskGraphNode)
    → all (λ (n : TaskGraphNode). is_pending n.status) nodes ≡ true
    → IsSound nodes
fresh-IsSound nodes fresh =
    all_mono (λ (n : TaskGraphNode). is_pending n.status) (is_sound nodes) nodes pending-is_sound
      fresh
  where
    pending-is_sound : (n : TaskGraphNode) → is_pending n.status ≡ true → is_sound nodes n ≡ true
    pending-is_sound n p = elim (Bool-cases (is_done n.status)) [
      | inr e ↦ rw e refl
      | inl e ↦ absurd (cc (p, is_done_pending n.status e))
    ]

update-IsSound :
    (roles : List RoleNodeExecution) (id : String) (role : AgentRole) (result : ResultStatus)
    (nodes after : List TaskGraphNode)
    → is_setback result ≡ false
    → update_task_graph_for_role_node roles id role result nodes ≡ some after
    → IsSound nodes
    → IsSound after
unfolding update_task_graph_for_role_node flush_ready_task_graph_nodes
update-IsSound roles id role result nodes after ok e h =
    let swept = sweep (result_step id role (task_status result)) [] nodes in
    flush_from-IsSound (suc (waiting swept)) roles swept after e (
      sweep-IsSound (result_step id role (task_status result)) (result-IsCareful id role result ok)
        [] nodes h)

-- What a run does to the steps: a role starts, or it ends with success or is skipped.
pub data Reaches (start : List TaskGraphNode) : List TaskGraphNode → Type 0 where
  here : Reaches start start
  begun :
      (id : String) (role : AgentRole) (nodes : List TaskGraphNode)
      → Reaches start nodes
      → Reaches start (mark_task_nodes_running id role nodes)
  ended :
      (roles : List RoleNodeExecution) (id : String) (role : AgentRole) (result : ResultStatus)
      (nodes after : List TaskGraphNode)
      → is_setback result ≡ false
      → update_task_graph_for_role_node roles id role result nodes ≡ some after
      → Reaches start nodes
      → Reaches start after

-- From steps that are all pending, whatever roles start, succeed or are skipped in whatever order,
-- each step that is done has all that it depends on done or skipped.
pub Reaches-IsSound :
    {start nodes : List TaskGraphNode}
    → all (λ (n : TaskGraphNode). is_pending n.status) start ≡ true
    → Reaches start nodes
    → IsSound nodes
unfolding mark_task_nodes_running
Reaches-IsSound {start} fresh here = fresh-IsSound start fresh
Reaches-IsSound fresh (begun id role nodes r) =
    sweep-IsSound (running_step id role) (running-IsCareful id role) [] nodes
      (Reaches-IsSound fresh r)
Reaches-IsSound fresh (ended roles id role result nodes after ok e r) =
    update-IsSound roles id role result nodes after ok e (Reaches-IsSound fresh r)
