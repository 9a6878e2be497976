-- ===== src/Planning/Execution/Laws.antt =====
-- The loops over the steps of a task graph end, and what they leave.
use tomorrowedge.Prelude.{
  ℕ, zero, suc, ◌+◌, ◌≤◌, ◌≡◌, refl, ap, sym, ◌∙◌, subst, Bool, true, false, not, ◌||◌, Option,
  none, some, List, [], ◌∷◌, ◌++◌, all, arith, Bool-cases, inl, inr,
}
use tomorrowedge.Orchestration.Scheduler.{RoleNodeExecution}
use tomorrowedge.Planning.TaskGraph.{TaskGraphNode, TaskGraphNodeStatus, is_pending}
use tomorrowedge.Planning.Execution.{
  Step, with_status, sweep, has_changed, is_set, flush_step, flush_from, one_if, waiting,
  flush_ready_task_graph_nodes,
}

pub snoc_append {ℓ} :
    {A : Type ℓ} (before : List A) (x : A) (rest : List A)
    → (before ++ x ∷ []) ++ rest ≡ before ++ x ∷ rest
snoc_append [] x rest = refl
snoc_append (y ∷ before) x rest = ap (λ xs. y ∷ xs) (snoc_append before x rest)

pub append-nil {ℓ} : {A : Type ℓ} (xs : List A) → xs ++ [] ≡ xs
append-nil [] = refl
append-nil (x ∷ xs) = ap (λ ys. x ∷ ys) (append-nil xs)

waiting-append :
    (before : List TaskGraphNode) (rest : List TaskGraphNode)
    → waiting (before ++ rest) ≡ waiting before + waiting rest
waiting-append [] rest = omega arith
waiting-append (n ∷ before) rest = let below = waiting-append before rest in omega arith

unset :
    (n : TaskGraphNode) (o : Option TaskGraphNodeStatus) → is_set o ≡ false → with_status n o ≡ n
unset n none h = refl
unset n (some s) h = absurd (cc h)

-- A loop that changes nothing leaves the nodes, and no node has a step.
pub sweep-unchanged :
    (step : Step) (before rest : List TaskGraphNode)
    → has_changed step before rest ≡ false
    → (sweep step before rest ≡ before ++ rest)
      × (all (λ n. not (is_set (step (before ++ rest) n))) rest ≡ true)
unfolding sweep has_changed
sweep-unchanged step before [] h = (sym (append-nil before), refl)
sweep-unchanged step before (n ∷ rest) h =
    let o = step (before ++ n ∷ rest) n in
    let off : is_set o ≡ false = ground (arith, h) in
    let same : (before ++ with_status n o ∷ []) ++ rest ≡ before ++ n ∷ rest =
      ap (λ m. (before ++ m ∷ []) ++ rest) (unset n o off) ∙ snoc_append before n rest in
    let (kept, none_set) =
      sweep-unchanged step (before ++ with_status n o ∷ []) rest (ground (arith, h)) in
    (
      kept ∙ same,
      rw off (subst (λ nodes. all (λ k. not (is_set (step nodes k))) rest ≡ true) same none_set),
    )

flushed-waiting :
    (roles : List RoleNodeExecution) (nodes : List TaskGraphNode) (n : TaskGraphNode)
    → one_if (is_set (flush_step roles nodes n))
        + one_if (is_pending (with_status n (flush_step roles nodes n)).status)
      ≡ one_if (is_pending n.status)
unfolding flush_step
flushed-waiting roles nodes n = ground arith

one_if_or : (a b : Bool) → one_if (a || b) ≤ one_if a + one_if b
one_if_or true b = omega arith
one_if_or false b = omega arith

-- Each change of a flush takes a node off those that wait.
sweep-waiting :
    (roles : List RoleNodeExecution) (before rest : List TaskGraphNode)
    → one_if (has_changed (flush_step roles) before rest)
        + waiting (sweep (flush_step roles) before rest)
      ≤ waiting (before ++ rest)
unfolding sweep has_changed
sweep-waiting roles before [] = rw (append-nil before) (omega arith)
sweep-waiting roles before (n ∷ rest) =
    let o = flush_step roles (before ++ n ∷ rest) n in
    let next = with_status n o in
    let below = sweep-waiting roles (before ++ next ∷ []) rest in
    let here = flushed-waiting roles (before ++ n ∷ rest) n in
    let total = ap waiting (snoc_append before next rest) ∙ waiting-append before (next ∷ rest) in
    let old = waiting-append before (n ∷ rest) in
    let apart = one_if_or (is_set o) (has_changed (flush_step roles) (before ++ next ∷ []) rest) in
    omega (arith, below, here, total, old, apart)

-- No step of the nodes is left to a flush.
abbrev pub IsFlushed : List RoleNodeExecution → List TaskGraphNode → Type 0
IsFlushed roles nodes = all (λ n. not (is_set (flush_step roles nodes n))) nodes ≡ true

flush_from-IsFlushed :
    (rounds : ℕ) (roles : List RoleNodeExecution) (nodes : List TaskGraphNode)
    → suc (waiting nodes) ≤ rounds
    → (after : List TaskGraphNode) × (flush_from rounds roles nodes ≡ some after)
      × IsFlushed roles after
unfolding flush_from
flush_from-IsFlushed zero roles nodes h = absurd (omega arith)
flush_from-IsFlushed (suc rounds) roles nodes h =
    let fewer = sweep-waiting roles [] nodes in
    elim (Bool-cases (has_changed (flush_step roles) [] nodes)) [
      | inl e ↦
          let one = ap one_if e in
          let (after, found, flushed) =
            flush_from-IsFlushed rounds roles (sweep (flush_step roles) [] nodes)
              (omega (arith, one, fewer, h)) in
          (after, rw (e, found) refl, flushed)
      | inr e ↦
          let (kept, none_set) = sweep-unchanged (flush_step roles) [] nodes e in
          (sweep (flush_step roles) [] nodes, rw e refl, rw kept none_set)
    ]

-- The rounds over the nodes always end: a flush returns, and then no step is left that it would
-- complete.
pub flush-IsFlushed :
    (roles : List RoleNodeExecution) (nodes : List TaskGraphNode)
    → (after : List TaskGraphNode) × (flush_ready_task_graph_nodes roles nodes ≡ some after)
      × IsFlushed roles after
unfolding flush_ready_task_graph_nodes
flush-IsFlushed roles nodes = flush_from-IsFlushed (suc (waiting nodes)) roles nodes (omega arith)
