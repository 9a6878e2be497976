-- ===== src/Patch/Transaction/Laws.antt =====
-- The rounds of the loop in `applyUnifiedDiffWithResult`, src/core/patch/patchApplier.ts: what a
-- plan writes, as it returns and as it throws.
use tomorrowedge.Prelude.{
  ℕ, suc, ◌≤◌, ◌<◌, ◌≡◌, refl, sym, ap, ◌∙◌, subst, inl, inr, String, true, false, Option, none,
  some, ◌==◌, if◌then◌else◌, Bool-cases, Option-cases, is_some, arith,
}
use tomorrowedge.ControlPlane.Specs.{Attempt, returned, threw}
use tomorrowedge.ControlPlane.Effects.{pure, run_next}
use tomorrowedge.Patch.Transaction.{
  FilePlan, FileTexts, World, Disk, put, tick, put_at, write_plan, make_directory, write_file,
  remove_file, create_undo_snapshot,
}

-- A path that no snapshot has.
abbrev pub Off : Disk → String → Type 0
Off disk p = (n : ℕ) → (disk.snapshot_path n == p) ≡ false

-- What a plan leaves of its file.
abbrev pub planned : FilePlan → Option String
planned plan = if plan.is_delete then none else some plan.next

-- What a plan leaves behind, as it returns and as it throws: then an operation has failed, and no
-- file but the plan's own has changed.
abbrev pub IsStep : Disk → FilePlan → World → World × Attempt String → Type 0
IsStep disk plan w (w', returned id) =
    (w.clock ≤ w'.clock)
    × ((p : String) → Off disk p → w'.files p ≡ put plan.absolute (planned plan) w.files p)
IsStep disk plan w (w', threw e) =
    (n : ℕ) × (w.clock ≤ n)
    × (n < w'.clock)
    × (is_some (disk.fault n) ≡ true)
    × ((p : String) → Off disk p → (plan.absolute == p) ≡ false → w'.files p ≡ w.files p)

-- The world behind the snapshot of a plan.
abbrev with_snapshot : Disk → FilePlan → World → World
with_snapshot disk plan w =
    let w' = tick (tick w) in
    put_at (disk.snapshot_path w'.clock)
      (some (disk.snapshot_text w'.clock plan.target plan.original)) w'

module _ (disk : Disk) (plan : FilePlan) (w : World) where
  abbrev c : ℕ
  c = w.clock

  write_plan_first :
      (e : String) → disk.fault c ≡ some e → write_plan disk plan w ≡ (tick w, threw e)
  unfolding write_plan
  write_plan_first e f = rw (f, write_plan, make_directory) refl

  write_plan_second :
      (e : String)
      → disk.fault c ≡ none
      → disk.fault (suc c) ≡ some e
      → write_plan disk plan w ≡ (tick (tick w), threw e)
  unfolding write_plan
  write_plan_second e f g = rw (f, write_plan, make_directory, g, create_undo_snapshot) refl

  module _ (f : disk.fault c ≡ none) (g : disk.fault (suc c) ≡ none) where
    write_plan_third :
        (e : String)
        → disk.fault (suc (suc c)) ≡ some e
        → write_plan disk plan w ≡ (
          put_at
              (disk.snapshot_path (suc (suc c)))
              (disk.left_behind (suc (suc c)))
              (tick (tick w)),
          threw e,
        )
    unfolding write_plan
    write_plan_third e h =
        rw (f, write_plan, make_directory, g, create_undo_snapshot, h, write_file) refl

    module _ (h : disk.fault (suc (suc c)) ≡ none) where
      write_plan_last : write_plan disk plan w ≡ (
          let (w', outcome) =
            (if plan.is_delete
                then remove_file disk plan.absolute
                else write_file disk plan.absolute plan.next)
              (with_snapshot disk plan w) in
          run_next w' outcome (λ _. pure (disk.snapshot_path (suc (suc c)))))
      unfolding write_plan
      write_plan_last =
          rw (f, write_plan, make_directory, g, create_undo_snapshot, h, write_file) refl

-- The snapshot changes no other file.
Off-snapshot :
    (disk : Disk) (n : ℕ) (content : Option String) (files : FileTexts) (p : String)
    → Off disk p
    → put (disk.snapshot_path n) content files p ≡ files p
Off-snapshot disk n content files p off = rw (put, off n) refl

module _ (disk : Disk) (plan : FilePlan) (w : World) where
  abbrev last_step : World × Attempt (Unit {0})
  last_step =
      (if plan.is_delete
          then remove_file disk plan.absolute
          else write_file disk plan.absolute plan.next)
        w

  last_done :
      disk.fault w.clock ≡ none → last_step ≡ (put_at plan.absolute (planned plan) w, returned tt)
  unfolding remove_file write_file
  last_done k = elim (Bool-cases plan.is_delete) [
    | inl d ↦ rw (last_step, planned, d, remove_file, k) refl
    | inr d ↦ rw (last_step, planned, d, write_file, k) refl
  ]

  last_failed :
      (e : String)
      → disk.fault w.clock ≡ some e
      → (content : Option String) × (last_step
          ≡ (if plan.is_delete then tick w else put_at plan.absolute content w, threw e))
  unfolding remove_file write_file
  last_failed e k = (
    disk.left_behind w.clock,
    elim (Bool-cases plan.is_delete) [
      | inl d ↦ rw (last_step, d, remove_file, k) refl
      | inr d ↦ rw (last_step, d, write_file, k) refl
    ],
  )

-- A failed last step changes no other file.
failed_files :
    (plan : FilePlan) (content : Option String) (w : World) (p : String)
    → (plan.absolute == p) ≡ false
    → (if plan.is_delete then tick w else put_at plan.absolute content w).files p ≡ w.files p
failed_files plan content w p other = elim (Bool-cases plan.is_delete) [
  | inl d ↦ rw d refl
  | inr d ↦ rw (d, put, other) refl
]

failed_clock :
    (plan : FilePlan) (content : Option String) (w : World)
    → (if plan.is_delete then tick w else put_at plan.absolute content w).clock ≡ suc w.clock
failed_clock plan content w = elim (Bool-cases plan.is_delete) [
  | inl d ↦ rw d refl
  | inr d ↦ rw d refl
]

IsStep-last :
    (disk : Disk) (plan : FilePlan) (w : World) (id : String)
    → IsStep disk plan w (
        run_next
          (last_step disk plan (with_snapshot disk plan w)).0
          (last_step disk plan (with_snapshot disk plan w)).1
          (λ _. pure id))
IsStep-last disk plan w id =
    let n = suc (suc (suc w.clock)) in
    let w' = with_snapshot disk plan w in
    let off_path = λ (p : String) (off : Off disk p).
      Off-snapshot disk (suc (suc w.clock))
        (some (disk.snapshot_text (suc (suc w.clock)) plan.target plan.original)) w.files p off in
    elim (Option-cases (disk.fault n)) [
      | inr (e, k) ↦
          let (content, is) = last_failed disk plan w' e k in
          rw is (
            n,
            omega arith,
            subst (λ m. n < m) (sym (failed_clock plan content w')) (omega arith),
            rw k refl,
            λ p off other. failed_files plan content w' p other ∙ off_path p off,
          )
      | inl k ↦ rw (last_done disk plan w' k) (
        omega arith,
        λ p off. ap (λ o. if plan.absolute == p then planned plan else o) (off_path p off),
      )
    ]

pub write_plan-IsStep :
    (disk : Disk) (plan : FilePlan) (w : World) → IsStep disk plan w (write_plan disk plan w)
write_plan-IsStep disk plan w =
    let c = w.clock in
    elim (Option-cases (disk.fault c)) [
      | inr (e, f) ↦
          rw (write_plan_first disk plan w e f)
            (c, omega arith, omega arith, rw f refl, λ p off other. refl)
      | inl f ↦ elim (Option-cases (disk.fault (suc c))) [
        | inr (e, g) ↦
            rw (write_plan_second disk plan w e f g)
              (suc c, omega arith, omega arith, rw g refl, λ p off other. refl)
        | inl g ↦ elim (Option-cases (disk.fault (suc (suc c)))) [
          | inr (e, h) ↦ rw (write_plan_third disk plan w f g e h) (
            suc (suc c),
            omega arith,
            omega arith,
            rw h refl,
            λ p off other.
                Off-snapshot disk (suc (suc c)) (disk.left_behind (suc (suc c))) w.files p off,
          )
          | inl h ↦
              rw (write_plan_last disk plan w f g h)
                (IsStep-last disk plan w (disk.snapshot_path (suc (suc c))))
        ]
      ]
    ]
