-- ===== src/Patch/Transaction/Rollback.antt =====
-- The rollback of `applyUnifiedDiffWithResult`, src/core/patch/patchApplier.ts, and what the carrying
-- out of plans ends with.
use tomorrowedge.Prelude.{
  ℕ, suc, ◌⊎◌, Option-cases, ◌≤◌, ◌<◌, ◌≡◌, refl, sym, ap, ◌∙◌, inl, inr, String, true, false, List,
  [], ◌∷◌, map, ◌==◌, eq_iff, Bool-cases, is_some, arith, length, All, Memᴰ,
}
use tomorrowedge.ControlPlane.Specs.{Attempt, returned, threw}
use tomorrowedge.ControlPlane.Effects.{run_next}
use tomorrowedge.Patch.Transaction.{
  throw, FilePlan, FileTexts, World, Disk, PatchApplyResult, put, Applied, Progress, completed,
  interrupted, make_directory, write_file, remove_file, restore_plan, rollback_applied_plans,
  carry_out, conclude, nothing_applied,
}
use tomorrowedge.Patch.Transaction.Laws.{Off}
use tomorrowedge.Patch.Transaction.Rounds.{
  outcome, or-eq-false, before, IsPlanOf, touched, IsInterrupted, IsProgress, progress,
}

module _ (disk : Disk) (initial : FileTexts) where
  -- What the restoring of one file ends with: the file is as before, or an operation has failed.
  abbrev IsRestored : FilePlan → World → World × Attempt (Unit {0}) → Type 0
  IsRestored plan w (w', returned u) =
      (w.clock ≤ w'.clock) × (w'.files ≡ put plan.absolute (before plan) w.files)
  IsRestored plan w (w', threw e) =
      (n : ℕ) × (w.clock ≤ n)
      × (n < w'.clock)
      × (is_some (disk.fault n) ≡ true)
      × ((p : String) → (plan.absolute == p) ≡ false → w'.files p ≡ w.files p)

  restore_plan-IsRestored_existing :
      (plan : FilePlan) (w : World)
      → plan.existed ≡ true
      → IsRestored plan w (restore_plan disk plan w)
  unfolding restore_plan
  restore_plan-IsRestored_existing plan w e = elim (Option-cases (disk.fault w.clock)) [
    | inr (m, f) ↦
        rw (restore_plan, e, make_directory, f)
          (w.clock, omega arith, omega arith, rw f refl, λ p other. refl)
    | inl f ↦ elim (Option-cases (disk.fault (suc w.clock))) [
      | inr (m, g) ↦
          rw (restore_plan, e, make_directory, f, write_file, g)
            (suc w.clock, omega arith, omega arith, rw g refl, λ p other. rw (put, other) refl)
      | inl g ↦ rw (restore_plan, e, make_directory, f, write_file, g) (omega arith, refl)
    ]
  ]

  restore_plan-IsRestored :
      (plan : FilePlan) (w : World) → IsRestored plan w (restore_plan disk plan w)
  unfolding restore_plan
  restore_plan-IsRestored plan w = elim (Bool-cases plan.existed) [
    | inl e ↦ restore_plan-IsRestored_existing plan w e
    | inr e ↦ elim (Option-cases (disk.fault w.clock)) [
      | inr (m, f) ↦
          rw (restore_plan, e, remove_file, f)
            (w.clock, omega arith, omega arith, rw f refl, λ p other. refl)
      | inl f ↦ rw (restore_plan, e, remove_file, f) (omega arith, refl)
    ]
  ]

  -- What the rollback ends with: the files of its plans are as before, or an operation has failed
  -- and no other file has changed.
  abbrev IsBack : List FilePlan → World → World × Attempt (Unit {0}) → Type 0
  IsBack plans w (w', returned u) =
      (p : String) → (touched p plans ≡ false → w.files p ≡ initial p) → w'.files p ≡ initial p
  IsBack plans w (w', threw e) =
      (n : ℕ) × (w.clock ≤ n)
      × (n < w'.clock)
      × (is_some (disk.fault n) ≡ true)
      × ((p : String) → touched p plans ≡ false → w'.files p ≡ w.files p)

  IsBack-cons :
      (plan : FilePlan) (plans : List FilePlan) (w w' : World) (r : World × Attempt (Unit {0}))
      → IsPlanOf initial plan
      → IsRestored plan w (w', returned tt)
      → IsBack plans w' r
      → IsBack (plan ∷ plans) w r
  IsBack-cons plan plans w w' (w'', returned u) known (late, files) rest = λ p h. rest p (λ fresh.
      elim (Bool-cases (plan.absolute == p)) [
        | inl e ↦
            ap (λ (f : FileTexts). f p) files
            ∙ rw (put, e) (sym known ∙ ap initial ((eq_iff plan.absolute p).0 e))
        | inr e ↦ ap (λ (f : FileTexts). f p) files ∙ rw (put, e) (h (rw (touched, e) fresh))
      ])
  IsBack-cons plan plans w w' (w'', threw e) known (late, files) (n, since, early, failed, kept) = (
    n,
    omega arith,
    early,
    failed,
    λ p off_plans.
        let (other, off_rest) = or-eq-false (plan.absolute == p) (touched p plans) off_plans in
        kept p off_rest ∙ ap (λ (f : FileTexts). f p) files ∙ rw (put, other) refl,
  )

  IsBack-step :
      (plan : FilePlan) (plans : List FilePlan) (w : World) (r : World × Attempt (Unit {0}))
      → IsPlanOf initial plan
      → ((w' : World) → IsBack plans w' (rollback_applied_plans disk plans w'))
      → IsRestored plan w r
      → IsBack (plan ∷ plans) w (run_next r.0 r.1 (λ _. rollback_applied_plans disk plans))
  IsBack-step plan plans w (w', returned u) known next is =
      IsBack-cons plan plans w w' _ known is (next w')
  IsBack-step plan plans w (w', threw e) known next (n, since, early, failed, kept) = (
    n,
    since,
    early,
    failed,
    λ p off_plans. kept p (or-eq-false (plan.absolute == p) (touched p plans) off_plans).0,
  )

  rollback-IsBack :
      (plans : List FilePlan) (w : World)
      → All (IsPlanOf initial) plans
      → IsBack plans w (rollback_applied_plans disk plans w)
  unfolding rollback_applied_plans
  rollback-IsBack [] w known = λ p h. h refl
  rollback-IsBack (plan ∷ plans) w known =
      IsBack-step plan plans w (restore_plan disk plan w) known.0
        (λ w'. rollback-IsBack plans w' known.1) (restore_plan-IsRestored plan w)

-- Two operations have failed between the two worlds.
abbrev pub FailedTwice : Disk → World → World → Type 0
FailedTwice disk w w' =
    (m : ℕ) × (n : ℕ) × (w.clock ≤ m)
    × (m < n)
    × (n < w'.clock)
    × (is_some (disk.fault m) ≡ true)
    × (is_some (disk.fault n) ≡ true)

-- What the carrying out of plans may end with. It returns with the files as the plans say, the
-- targets in their order and a snapshot for each. Or it throws, and then the files are as they
-- were, but for that of one plan; or else two operations have failed, of which the second broke off
-- the rollback, and no file but those of the plans has changed. Nothing is said of the snapshots' own files.
abbrev pub IsAtomic : Disk → List FilePlan → World → World × Attempt PatchApplyResult → Type 0
IsAtomic disk plans w (w', returned r) =
    ((p : String) → Off disk p → w'.files p ≡ outcome plans w.files p)
    × (r.changed_files ≡ map (λ plan. plan.target) plans)
    × (length r.undo_snapshot_ids ≡ length plans)
IsAtomic disk plans w (w', threw e) =
    ((plan : FilePlan) × Memᴰ plan plans
      × ((p : String) → Off disk p → (plan.absolute == p) ≡ false → w'.files p ≡ w.files p))
    ⊎ (FailedTwice disk w w'
        × ((p : String) → Off disk p → touched p plans ≡ false → w'.files p ≡ w.files p))

other_of_untouched :
    (p : String) (plan : FilePlan) (plans : List FilePlan)
    → Memᴰ plan plans
    → touched p plans ≡ false
    → (plan.absolute == p) ≡ false
other_of_untouched p plan [] m h = elim m [ ]
other_of_untouched p plan (other ∷ plans) (Memᴰ.head e) h =
    ap (λ (q : FilePlan). q.absolute == p) e
    ∙ (or-eq-false (other.absolute == p) (touched p plans) h).0
other_of_untouched p plan (other ∷ plans) (Memᴰ.tail m) h =
    other_of_untouched p plan plans m (or-eq-false (other.absolute == p) (touched p plans) h).1

back-IsAtomic :
    (disk : Disk) (plans : List FilePlan) (w w' : World) (e : String) (a : Applied)
    (r : World × Attempt (Unit {0}))
    → IsInterrupted disk w.files plans [] w.clock a w'
    → IsBack disk w.files a.applied w' r
    → IsAtomic disk plans w (run_next r.0 r.1 (λ _. throw e))
back-IsAtomic disk plans w w' e a (w'', returned u) h back =
    inl (h.plan, h.listed, λ p off other. back p (h.kept p off other))
back-IsAtomic disk plans w w' e a (w'', threw e') h (n, since, early, failed, kept) = inr (
  (h.fault_at, n, h.since, omega (arith, h.earlier), early, h.failed, failed),
  λ p off untouched.
      let fresh = h.within p refl untouched in
      kept p fresh ∙ h.kept p off (other_of_untouched p h.plan plans h.listed untouched) fresh,
)

conclude-IsAtomic :
    (disk : Disk) (plans : List FilePlan) (w : World) (r : World × Progress)
    → IsProgress disk w.files plans nothing_applied w r
    → IsAtomic disk plans w (conclude disk r)
conclude-IsAtomic disk plans w (w', completed a) h = (h.0, h.1, omega (arith, h.2))
conclude-IsAtomic disk plans w (w', interrupted e a) h =
    back-IsAtomic disk plans w w' e a _ h (rollback-IsBack disk w.files a.applied w' h.originals)

-- The carrying out of plans refines the change of the files that the plans say, all or nothing up
-- to one file, or to the files of the plans where a second operation fails: if each plan knows what
-- its file was, it ends as `IsAtomic` says, also where two plans are for one file.
pub carry_out-IsAtomic :
    (disk : Disk) (plans : List FilePlan) (w : World)
    → All (IsPlanOf w.files) plans
    → IsAtomic disk plans w (carry_out disk plans w)
unfolding carry_out
carry_out-IsAtomic disk plans w known = conclude-IsAtomic disk plans w _ (
    progress disk w.files plans nothing_applied w known
      (record { originals = tt; untouched = λ p off fresh. refl }))
