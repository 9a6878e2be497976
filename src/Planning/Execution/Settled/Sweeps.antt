-- ===== src/Planning/Execution/Settled/Sweeps.antt =====
-- What a loop over the steps of a task graph keeps.
use tomorrowedge.Prelude.{
  ◌≡◌, refl, ap, sym, ◌∙◌, subst, String, Bool, true, false, not, ◌&&◌, ◌||◌, ◌==◌, Option, none,
  some, List, [], ◌∷◌, ◌++◌, all, arith, Bool-cases, inl, inr,
}
use tomorrowedge.Planning.TaskGraph.{TaskGraphNode, TaskGraphNodeStatus, is_settled}
use tomorrowedge.Planning.Execution.{Step, with_status, sweep, is_settled_in, is_backed, is_done}
use tomorrowedge.Planning.Execution.Laws.{snoc_append, append-nil}

abbrev pub is_sound : List TaskGraphNode → TaskGraphNode → Bool
is_sound nodes n = not (is_done n.status) || is_backed nodes n

-- Each step that is done has what it depends on done or skipped.
abbrev pub IsSound : List TaskGraphNode → Type 0
IsSound nodes = all (is_sound nodes) nodes ≡ true

all-append {ℓ} :
    {A : Type ℓ} (p : A → Bool) (xs ys : List A) → all p (xs ++ ys) ≡ (all p xs && all p ys)
all-append p [] ys = refl
all-append p (x ∷ xs) ys = ground (arith, all-append p xs ys)

pub all_mono {ℓ} :
    {A : Type ℓ} (p q : A → Bool) (xs : List A)
    → ((x : A) → p x ≡ true → q x ≡ true)
    → all p xs ≡ true
    → all q xs ≡ true
all_mono p q [] f h = refl
all_mono p q (x ∷ xs) f h =
    let here = f x (ground (arith, h)) in
    let rest = all_mono p q xs f (ground (arith, h)) in ground (arith, here, rest)

-- A status that a step sets leaves a settled node settled, and it is done only where the node is
-- backed.
abbrev pub IsCareful : Step → Type 0
IsCareful step =
    (nodes : List TaskGraphNode) (n : TaskGraphNode)
    → (is_settled n.status ≡ true → is_settled (with_status n (step nodes n)).status ≡ true)
      × (is_sound nodes n ≡ true → is_sound nodes (with_status n (step nodes n)) ≡ true)

with_status-id : (n : TaskGraphNode) (o : Option TaskGraphNodeStatus) → (with_status n o).id ≡ n.id
with_status-id n none = refl
with_status-id n (some s) = refl

settled_here :
    (m : TaskGraphNode) (ns : List TaskGraphNode) (id : String)
    → (m.id == id) ≡ true
    → is_settled_in (m ∷ ns) id ≡ is_settled m.status
settled_here m ns id e = rw (is_settled_in, e) refl

settled_below :
    (m : TaskGraphNode) (ns : List TaskGraphNode) (id : String)
    → (m.id == id) ≡ false
    → is_settled_in (m ∷ ns) id ≡ is_settled_in ns id
settled_below m ns id e = rw (is_settled_in, e) refl

module _ (n : TaskGraphNode) (o : Option TaskGraphNodeStatus)
    (settles : is_settled n.status ≡ true → is_settled (with_status n o).status ≡ true)
    (rest : List TaskGraphNode) where
  still_settled :
      (before : List TaskGraphNode) (id : String)
      → is_settled_in (before ++ n ∷ rest) id ≡ true
      → is_settled_in (before ++ with_status n o ∷ rest) id ≡ true
  still_settled [] id h =
      let as_before = ap (λ i. i == id) (with_status-id n o) in
      elim (Bool-cases (n.id == id)) [
        | inl e ↦
            settled_here (with_status n o) rest id (as_before ∙ e)
            ∙ settles (sym (settled_here n rest id e) ∙ h)
        | inr e ↦
            settled_below (with_status n o) rest id (as_before ∙ e)
            ∙ sym (settled_below n rest id e)
            ∙ h
      ]
  still_settled (m ∷ before) id h = elim (Bool-cases (m.id == id)) [
    | inl e ↦
        settled_here m (before ++ with_status n o ∷ rest) id e
        ∙ sym (settled_here m (before ++ n ∷ rest) id e)
        ∙ h
    | inr e ↦
        settled_below m (before ++ with_status n o ∷ rest) id e
        ∙ still_settled before id (sym (settled_below m (before ++ n ∷ rest) id e) ∙ h)
  ]

  still_sound :
      (before : List TaskGraphNode) (m : TaskGraphNode)
      → is_sound (before ++ n ∷ rest) m ≡ true
      → is_sound (before ++ with_status n o ∷ rest) m ≡ true
  still_sound before m h = elim (Bool-cases (is_done m.status)) [
    | inr e ↦ rw e refl
    | inl e ↦
        let backed =
          all_mono (is_settled_in (before ++ n ∷ rest))
            (is_settled_in (before ++ with_status n o ∷ rest)) m.depends_on (still_settled before)
            (sym (rw e refl) ∙ h) in
        rw (e, backed) refl
  ]

  with_status-IsSound :
      (before : List TaskGraphNode)
      → (is_sound (before ++ n ∷ rest) n ≡ true
          → is_sound (before ++ n ∷ rest) (with_status n o) ≡ true)
      → IsSound (before ++ n ∷ rest)
      → IsSound (before ++ with_status n o ∷ rest)
  with_status-IsSound before sets h =
      let old = is_sound (before ++ n ∷ rest) in
      let new = is_sound (before ++ with_status n o ∷ rest) in
      let split = sym (all-append old before (n ∷ rest)) ∙ h in
      let front = all_mono old new before (still_sound before) (ground (arith, split)) in
      let back = all_mono old new rest (still_sound before) (ground (arith, split)) in
      let here = still_sound before (with_status n o) (sets (ground (arith, split))) in
      all-append new before (with_status n o ∷ rest) ∙ rw (front, here, back) refl

-- A loop whose step is careful keeps what is done backed.
pub sweep-IsSound :
    (step : Step)
    → IsCareful step
    → (before rest : List TaskGraphNode) → IsSound (before ++ rest)
    → IsSound (sweep step before rest)
unfolding sweep
sweep-IsSound step careful before [] h = subst IsSound (append-nil before) h
sweep-IsSound step careful before (n ∷ rest) h =
    let o = step (before ++ n ∷ rest) n in
    let (settles, sets) = careful (before ++ n ∷ rest) n in
    sweep-IsSound step careful (before ++ with_status n o ∷ []) rest (
      subst IsSound (sym (snoc_append before (with_status n o) rest))
        (with_status-IsSound n o settles rest before sets h))
