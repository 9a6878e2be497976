-- ===== src/Patch/Applier/Laws.antt =====
-- What applying a parsed patch comes to, src/core/patch/patchApplier.ts: which files change, and
-- what is left where it throws.
use tomorrowedge.Prelude.{
  suc, ◌≡◌, refl, sym, ap, ◌∙◌, subst, ◌⊎◌, inl, inr, String, false, Option, none, some, List, [],
  ◌∷◌, map, ◌==◌, if◌then◌else◌, Bool-cases, Option-cases, is_some, is_empty, eqb, arith, length,
  All, All-mem,
}
use tomorrowedge.ControlPlane.Specs.{Attempt, returned, threw}
use tomorrowedge.ControlPlane.Attempts.{>>=-eq-returned, eq_of_returned}
use tomorrowedge.ControlPlane.Effects.{Attempt-cases}
use tomorrowedge.Safety.Inside.{AbsolutePath, FileTree, resolve_inside}
use tomorrowedge.Patch.Anchors.{StructuredPatch}
use tomorrowedge.Patch.Transaction.{FilePlan, FileTexts, World, Disk, PatchApplyResult}
use tomorrowedge.Patch.Transaction.Laws.{Off}
use tomorrowedge.Patch.Transaction.Rounds.{outcome, IsPlanOf, touched}
use tomorrowedge.Patch.Transaction.Rollback.{FailedTwice, IsAtomic, carry_out-IsAtomic}
use tomorrowedge.Patch.Applier.{
  ParsedPatchFile, Tools, path_text, target_of, read_original, patched, plan_from, plan_file,
  plan_files, check_parsed, plans_of, apply_parsed,
}

-- A plan for a path that lies inside the project, with the content of its file.
pub record IsPlanned (tree : FileTree) (cwd : String) (files : FileTexts) (plan : FilePlan)
    : Type 0 where
  pub known : IsPlanOf files plan
  pub names : AbsolutePath
  pub resolved : resolve_inside tree cwd plan.target ≡ returned names
  pub at : plan.absolute ≡ path_text names

module _ (tree : FileTree) (tools : Tools) (cwd : String) (files : FileTexts) where
  original-before :
      (path original : String)
      → read_original tools files path ≡ returned original
      → files path ≡ (if is_some (files path) then some original else none)
  original-before path original = elim (Option-cases (files path)) [
    | inl e ↦ rw (read_original, e) (λ h. refl)
    | inr (content, e) ↦ elim (Option-cases (tools.unreadable path)) [
      | inl u ↦ rw (read_original, e, u) (λ h. ap some (eq_of_returned h))
      | inr (m, u) ↦ rw (read_original, e, u) (λ h. absurd (cc h))
    ]
  ]

  plan_from-IsPlanned :
      (target original : String) (file : ParsedPatchFile) (names : AbsolutePath)
      (next : Option String) (plan : FilePlan)
      → resolve_inside tree cwd target ≡ returned names
      → read_original tools files (path_text names) ≡ returned original
      → plan_from files target file (path_text names) original next ≡ returned plan
      → IsPlanned tree cwd files plan × (plan.target ≡ target)
  plan_from-IsPlanned target original file names none plan r o h = absurd (cc h)
  plan_from-IsPlanned target original file names (some next) plan r o h =
      subst (λ p. IsPlanned tree cwd files p × (p.target ≡ target)) (eq_of_returned h)
        (
          record {
            known = original-before (path_text names) original o;
            names = names;
            resolved = r;
            at = refl;
          },
          refl,
        )

  plan_file-IsPlanned :
      (file : ParsedPatchFile) (patch : StructuredPatch) (plan : FilePlan)
      → plan_file tree tools cwd files file patch ≡ returned plan
      → IsPlanned tree cwd files plan × (plan.target ≡ target_of file)
  unfolding plan_file
  plan_file-IsPlanned file patch plan = elim (Bool-cases (target_of file == "")) [
    | inl e ↦ rw e (λ h. absurd (cc h))
    | inr e ↦ rw e (λ h.
        let (names, r, k) = >>=-eq-returned (resolve_inside tree cwd (target_of file)) _ h in
        let (original, o, l) = >>=-eq-returned (read_original tools files (path_text names)) _ k in
        plan_from-IsPlanned (target_of file) original file names (patched tools original patch) plan
          r o l)
  ]

  plan_files-IsPlanned :
      (parsed : List ParsedPatchFile) (patches : List StructuredPatch) (plans : List FilePlan)
      → length parsed ≡ length patches
      → plan_files tree tools cwd files parsed patches ≡ returned plans
      → All (IsPlanned tree cwd files) plans
        × (map (λ plan. plan.target) plans ≡ map target_of parsed)
  unfolding plan_files
  plan_files-IsPlanned [] patches plans e h =
      subst (λ ps. All (IsPlanned tree cwd files) ps × (map (λ plan. plan.target) ps ≡ []))
        (eq_of_returned h) (tt, refl)
  plan_files-IsPlanned (file ∷ rest) [] plans e h = absurd (cc e)
  plan_files-IsPlanned (file ∷ rest) (patch ∷ patches) plans e h =
      let (plan, p, k) = >>=-eq-returned (plan_file tree tools cwd files file patch) _ h in
      let (later, q, l) = >>=-eq-returned (plan_files tree tools cwd files rest patches) _ k in
      let (is, same) = plan_file-IsPlanned file patch plan p in
      let (all_planned, targets) = plan_files-IsPlanned rest patches later (cc e) q in
      subst
        (λ ps.
          All (IsPlanned tree cwd files) ps
          × (map (λ plan. plan.target) ps ≡ map target_of (file ∷ rest)))
        (eq_of_returned l) ((is, all_planned), λ i. same i ∷ targets i)

check_parsed-length :
    (parsed : List ParsedPatchFile) (patches : List StructuredPatch) (u : Unit {0})
    → check_parsed parsed patches ≡ returned u
    → length parsed ≡ length patches
unfolding check_parsed
check_parsed-length parsed patches u = elim (Bool-cases (is_empty parsed)) [
  | inl e ↦ rw e (λ h. absurd (cc h))
  | inr e ↦ elim (Bool-cases (is_empty patches)) [
    | inl f ↦ rw (e, f) (λ h. absurd (cc h))
    | inr f ↦ elim (Bool-cases (eqb (length parsed) (length patches))) [
      | inr g ↦ rw (e, f, g) (λ h. absurd (cc h))
      | inl g ↦ rw (e, f, g) (λ h. ground arith)
    ]
  ]
]

All-imp {ℓ κ ν} :
    {A : Type ℓ} {P : A → Type κ} {Q : A → Type ν} (xs : List A)
    → ((x : A) → P x → Q x)
    → All P xs
    → All Q xs
All-imp [] h k = tt
All-imp (x ∷ xs) h k = (h x k.0, All-imp xs h k.1)

-- What applying a parsed patch may end with. It returns with the files as the plans say and with
-- the targets of the parsed files in their order; or it throws, and then no file has changed, or
-- at most that of one plan, or else two operations of the file system have failed and no files but
-- those of the plans, one for each parsed file, have changed. Each plan is for a path that
-- `resolveInside` returns for its target.
-- Nothing is said of the snapshots' own files.
abbrev pub IsApplied :
    FileTree
    → String
    → Disk
    → List ParsedPatchFile
    → World
    → World × Attempt PatchApplyResult
    → Type 0
IsApplied tree cwd disk parsed w (w', returned r) =
    (plans : List FilePlan) × All (IsPlanned tree cwd w.files) plans
    × (r.changed_files ≡ map target_of parsed)
    × (length r.undo_snapshot_ids ≡ length parsed)
    × ((p : String) → Off disk p → w'.files p ≡ outcome plans w.files p)
IsApplied tree cwd disk parsed w (w', threw e) =
    (w' ≡ w)
    ⊎ (((plan : FilePlan) × IsPlanned tree cwd w.files plan
          × ((p : String) → Off disk p → (plan.absolute == p) ≡ false → w'.files p ≡ w.files p))
        ⊎ (FailedTwice disk w w'
            × ((plans : List FilePlan) × All (IsPlanned tree cwd w.files) plans
                × (map (λ plan. plan.target) plans ≡ map target_of parsed)
                × ((p : String) → Off disk p → touched p plans ≡ false → w'.files p ≡ w.files p))))

length-map {ℓ κ} :
    {A : Type ℓ} {B : Type κ} (f : A → B) (xs : List A) → length (map f xs) ≡ length xs
length-map f [] = refl
length-map f (x ∷ xs) = ap suc (length-map f xs)

atomic-IsApplied :
    (tree : FileTree) (cwd : String) (disk : Disk) (parsed : List ParsedPatchFile) (w : World)
    (plans : List FilePlan) (r : World × Attempt PatchApplyResult)
    → All (IsPlanned tree cwd w.files) plans
    → map (λ plan. plan.target) plans ≡ map target_of parsed
    → IsAtomic disk plans w r
    → IsApplied tree cwd disk parsed w r
atomic-IsApplied tree cwd disk parsed w plans (w', returned r) all_planned targets
      (files, changed, count) =
    let as_many : length plans ≡ length parsed =
      sym (length-map (λ (plan : FilePlan). plan.target) plans)
      ∙ ap length targets
      ∙ length-map target_of parsed in
    (plans, all_planned, changed ∙ targets, count ∙ as_many, files)
atomic-IsApplied tree cwd disk parsed w plans (w', threw e) all_planned targets
      (inl (plan, listed, kept)) =
    inr (inl (plan, All-mem (IsPlanned tree cwd w.files) plans all_planned listed, kept))
atomic-IsApplied tree cwd disk parsed w plans (w', threw e) all_planned targets
      (inr (twice, kept)) =
    inr (inr (twice, (plans, all_planned, targets, kept)))

pub apply_parsed-IsApplied :
    (tree : FileTree) (tools : Tools) (disk : Disk) (cwd : String) (parsed : List ParsedPatchFile)
    (patches : List StructuredPatch) (w : World)
    → IsApplied tree cwd disk parsed w (apply_parsed tree tools disk cwd parsed patches w)
unfolding apply_parsed plans_of
apply_parsed-IsApplied tree tools disk cwd parsed patches w =
    elim (Attempt-cases (plans_of tree tools cwd w.files parsed patches)) [
      | inr (m, e) ↦ rw e (inl refl)
      | inl (plans, e) ↦
          let (u, checked, made) = >>=-eq-returned (check_parsed parsed patches) _ e in
          let (all_planned, targets) =
            plan_files-IsPlanned tree tools cwd w.files parsed patches plans
              (check_parsed-length parsed patches u checked) made in
          rw e (
            atomic-IsApplied tree cwd disk parsed w plans _ all_planned targets (
              carry_out-IsAtomic disk plans w (
                All-imp plans (λ plan (is : IsPlanned tree cwd w.files plan). is.known)
                  all_planned)))
    ]
