-- ===== src/Patch/Transaction/Rounds.antt =====
-- The rounds of the loop in `applyUnifiedDiffWithResult`, src/core/patch/patchApplier.ts, against
-- what the plans say as changes of the files.
use mathlib.Core.List.{append_assoc, append-nil}
use tomorrowedge.Prelude.{
  ℕ, ◌+◌, ◌≤◌, ◌<◌, ◌≡◌, refl, sym, ap, ◌∙◌, String, Bool, true, false, ◌||◌, Option, none, some,
  List, [], ◌∷◌, ◌++◌, map, ◌==◌, if◌then◌else◌, is_some, arith, length, length-append, any, All,
  Memᴰ,
}
use tomorrowedge.ControlPlane.Specs.{Attempt, returned, threw}
use tomorrowedge.Patch.Transaction.{
  FilePlan, FileTexts, World, Disk, put, write_plan, apply_plans, Applied, Progress, completed,
  interrupted, push_plan, carry_on,
}
use tomorrowedge.Patch.Transaction.Laws.{Off, planned, IsStep, write_plan-IsStep}

-- The files as the plans say one after the other: of two plans for one file the later counts.
pub outcome : List FilePlan → FileTexts → FileTexts
outcome [] files = files
outcome (plan ∷ plans) files = outcome plans (put plan.absolute (planned plan) files)

outcome_congr :
    (plans : List FilePlan) (p : String) (f g : FileTexts)
    → f p ≡ g p
    → outcome plans f p ≡ outcome plans g p
unfolding outcome
outcome_congr [] p f g e = e
outcome_congr (plan ∷ plans) p f g e =
    outcome_congr plans p _ _ (ap (λ o. if plan.absolute == p then planned plan else o) e)

pub or-eq-false : (a b : Bool) → (a || b) ≡ false → (a ≡ false) × (b ≡ false)
or-eq-false true b h = cc
or-eq-false false b h = (refl, h)

-- What the file was before.
abbrev pub before : FilePlan → Option String
before plan = if plan.existed then some plan.original else none

-- The plan knows what its file is.
abbrev pub IsPlanOf : FileTexts → FilePlan → Type 0
IsPlanOf files plan = files plan.absolute ≡ before plan

abbrev pub touched : String → List FilePlan → Bool
touched p = any (λ plan. plan.absolute == p)

module _ (disk : Disk) (initial : FileTexts) where
  -- The loop stopped at `plan`, of which the file may be anything; `applied_before` are the plans that were
  -- applied applied_before the loop.
  pub record IsInterrupted (plans applied_before : List FilePlan) (start : ℕ) (a : Applied)
      (w : World) : Type 0 where
    pub plan : FilePlan
    pub listed : Memᴰ plan plans
    pub fault_at : ℕ
    pub since : start ≤ fault_at
    pub earlier : fault_at < w.clock
    pub failed : is_some (disk.fault fault_at) ≡ true
    pub originals : All (IsPlanOf initial) a.applied
    pub within :
        (p : String)
        → touched p applied_before ≡ false
        → touched p plans ≡ false
        → touched p a.applied ≡ false
    pub kept :
        (p : String)
        → Off disk p
        → (plan.absolute == p) ≡ false
        → touched p a.applied ≡ false
        → w.files p ≡ initial p

  abbrev pub IsProgress : List FilePlan → Applied → World → World × Progress → Type 0
  IsProgress plans a w (w', completed a') =
      ((p : String) → Off disk p → w'.files p ≡ outcome plans w.files p)
      × (a'.changed ≡ a.changed ++ map (λ plan. plan.target) plans)
      × (length a'.snapshots ≡ length a.snapshots + length plans)
  IsProgress plans a w (w', interrupted e a') = IsInterrupted plans a.applied w.clock a' w'

  -- What holds at the head of the loop.
  pub record IsUnderway (a : Applied) (w : World) : Type 0 where
    pub originals : All (IsPlanOf initial) a.applied
    pub untouched : (p : String) → Off disk p → touched p a.applied ≡ false → w.files p ≡ initial p

  later :
      (plan : FilePlan) (plans : List FilePlan) (id : String) (a : Applied) (w w' : World)
      (r : World × Progress)
      → w.clock ≤ w'.clock
      → ((p : String) → Off disk p → w'.files p ≡ put plan.absolute (planned plan) w.files p)
      → IsProgress plans (push_plan a plan id) w' r
      → IsProgress (plan ∷ plans) a w r
  unfolding outcome
  later plan plans id a w w' (w'', completed a') late step h = (
    λ p off. h.0 p off ∙ outcome_congr plans p _ _ (step p off),
    h.1 ∙ append_assoc a.changed (plan.target ∷ []) _,
    omega (arith, h.2, length-append {0} a.snapshots (id ∷ [])),
  )
  later plan plans id a w w' (w'', interrupted e a') late step h = record {
    plan = h.plan;
    listed = Memᴰ.tail h.listed;
    fault_at = h.fault_at;
    since = omega (arith, h.since);
    earlier = h.earlier;
    failed = h.failed;
    originals = h.originals;
    within = λ p fresh off_plans.
        let (other, off_rest) = or-eq-false (plan.absolute == p) (touched p plans) off_plans in
        h.within p (rw (touched, other) fresh) off_rest;
    kept = h.kept;
  }

  go_on :
      (plan : FilePlan) (a : Applied) (w w' : World) (id : String)
      → IsPlanOf initial plan
      → ((p : String) → Off disk p → w'.files p ≡ put plan.absolute (planned plan) w.files p)
      → IsUnderway a w
      → IsUnderway (push_plan a plan id) w'
  go_on plan a w w' id known step u = record {
    originals = (known, u.originals);
    untouched = λ p off fresh.
        let (other, old) = or-eq-false (plan.absolute == p) (touched p a.applied) fresh in
        step p off ∙ rw (put, other) (u.untouched p off old);
  }

  round :
      (plan : FilePlan) (plans : List FilePlan) (a : Applied) (w : World)
      (next : (a' : Applied) (w' : World)
        → IsUnderway a' w'
        → IsProgress plans a' w' (apply_plans disk plans a' w'))
      (r : World × Attempt String)
      → IsStep disk plan w r
      → IsPlanOf initial plan
      → IsUnderway a w
      → IsProgress (plan ∷ plans) a w (carry_on (apply_plans disk plans) a plan r)
  round plan plans a w next (w', returned id) step known u =
      later plan plans id a w w' _ step.0 step.1
        (next (push_plan a plan id) w' (go_on plan a w w' id known step.1 u))
  round plan plans a w next (w', threw e) (n, since, early, failed, kept) known u = record {
    plan = plan;
    listed = Memᴰ.head refl;
    fault_at = n;
    since = since;
    earlier = early;
    failed = failed;
    originals = u.originals;
    within = λ p fresh off_plans. fresh;
    kept = λ p off other fresh. kept p off other ∙ u.untouched p off fresh;
  }

  pub progress :
      (plans : List FilePlan) (a : Applied) (w : World)
      → All (IsPlanOf initial) plans
      → IsUnderway a w
      → IsProgress plans a w (apply_plans disk plans a w)
  unfolding apply_plans outcome
  progress [] a w known u = (λ p off. refl, sym (append-nil a.changed), omega arith)
  progress (plan ∷ plans) a w known u =
      round plan plans a w (λ a' w'. progress plans a' w' known.1) (write_plan disk plan w)
        (write_plan-IsStep disk plan w) known.0 u
