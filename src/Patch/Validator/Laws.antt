-- ===== src/Patch/Validator/Laws.antt =====
-- What a patch has passed when it is applied, src/core/patch/patchApplier.ts and patchValidator.ts.
use tomorrowedge.Prelude.{
  ◌≡◌, refl, sym, ap, subst, inl, inr, String, Bool, true, false, not, none, List, [], ◌∷◌, ◌++◌,
  map, ◌==◌, is_empty, or_else, if◌then◌else◌, Bool-cases, Option-cases, All,
}
use tomorrowedge.ControlPlane.Specs.{Attempt, returned, threw}
use tomorrowedge.Safety.Inside.{FileTree, is_path_traversal, normalize_slashes}
use tomorrowedge.Safety.Risk.{classify_file_risk}
use tomorrowedge.Patch.Anchors.{StructuredPatch}
use tomorrowedge.Patch.Transaction.{FileTexts, World, Disk, PatchApplyResult}
use tomorrowedge.Patch.Applier.{ParsedPatchFile, Tools, target_of}
use tomorrowedge.Patch.Applier.Laws.{IsApplied, apply_parsed-IsApplied}
use tomorrowedge.Patch.Validator.{
  PatchValidationIssue, is_dev_null, strip_prefix, parse_file, path_of, is_sensitive, issue,
  content_issues, file_issues, all_issues, validate_patches, assert_patch_safe, apply_text_diff,
  text_quality_issue, artifact_issues, added_text_for_file, quality_issue,
}

-- The target of a deleted file is its old name, since its new one is empty.
target-path :
    (patch : StructuredPatch)
    → normalize_slashes (target_of (parse_file patch)) ≡ path_of (parse_file patch)
unfolding parse_file strip_prefix
target-path patch = elim (Bool-cases (is_dev_null (or_else patch.new_file_name ""))) [
  | inl e ↦ rw e refl
  | inr e ↦ rw e refl
]

append-eq-empty :
    (xs ys : List PatchValidationIssue) → is_empty (xs ++ ys) ≡ true → (xs ≡ []) × (ys ≡ [])
append-eq-empty [] [] h = (refl, refl)
append-eq-empty [] (y ∷ ys) h = absurd (cc h)
append-eq-empty (x ∷ xs) ys h = absurd (cc h)

module _ (tree : FileTree) (tools : Tools) (ignores : String → Bool) (cwd : String)
    (files : FileTexts) (patches : List StructuredPatch) where
  -- What holds of a path that the validator has no objection to.
  pub record IsAcceptable (path : String) : Type 0 where
    pub inside : is_path_traversal tree cwd path ≡ false
    pub not_ignored : ignores path ≡ false
    pub not_sensitive : is_sensitive (classify_file_risk path 0) ≡ false
    pub clean : text_quality_issue (added_text_for_file patches path) path ≡ none
    pub no_artifacts : artifact_issues tree tools cwd files patches path ≡ []

  content_clean :
      (path : String)
      → content_issues tree tools cwd files patches path ≡ []
      → (is_sensitive (classify_file_risk path 0) ≡ false)
        × (text_quality_issue (added_text_for_file patches path) path ≡ none)
        × (artifact_issues tree tools cwd files patches path ≡ [])
  unfolding content_issues
  content_clean path =
      elim (Option-cases (text_quality_issue (added_text_for_file patches path) path)) [
        | inr (reason, e) ↦ rw (content_issues, e) (λ h. absurd (cc h))
        | inl e ↦
            rw (content_issues, e)
              (λ h.
                let (s, a) =
                  artifact_clean (artifact_issues tree tools cwd files patches path)
                    (is_sensitive (classify_file_risk path 0)) h in
                (s, refl, a))
      ]
    where
      artifact_clean :
          (artifact : List String) (sensitive : Bool)
          → (if not (is_empty artifact)
              then map (quality_issue path) artifact
              else if sensitive
              then issue path "path is classified as sensitive"
              else [])
            ≡ []
          → (sensitive ≡ false) × (artifact ≡ [])
      artifact_clean [] false h = (refl, refl)
      artifact_clean [] true h = absurd (cc h)
      artifact_clean (x ∷ xs) sensitive h = absurd (cc h)

  -- Where a round has no objection to a file with a path, the path is acceptable and the file keeps
  -- its name.
  file_clean :
      (file : ParsedPatchFile)
      → (path_of file == "") ≡ false
      → file_issues tree tools ignores cwd files patches file ≡ []
      → IsAcceptable (path_of file) × (file.is_rename ≡ false)
  unfolding file_issues normalize_slashes
  file_clean file e = rw e (elim (Bool-cases file.is_binary) [
    | inl b ↦ rw b (λ h. absurd (cc h))
    | inr b ↦ rw b (elim (Bool-cases file.is_rename) [
      | inl r ↦ rw r (λ h. absurd (cc h))
      | inr r ↦ rw r (elim (Bool-cases (is_path_traversal tree cwd (path_of file))) [
        | inl t ↦ rw t (λ h. absurd (cc h))
        | inr t ↦ rw t (elim (Bool-cases (ignores (path_of file))) [
          | inl g ↦ rw g (λ h. absurd (cc h))
          | inr g ↦ rw g (λ h.
              let (s, q, a) = content_clean (path_of file) h in
              (
                record {
                  inside = t;
                  not_ignored = g;
                  not_sensitive = s;
                  clean = q;
                  no_artifacts = a;
                },
                refl,
              ))
        ])
      ])
    ])
  ])

  -- What the validator leaves of a patch, if its target has a path: an acceptable one, and no rename.
  abbrev pub IsPassed : StructuredPatch → Type 0
  IsPassed patch =
      (normalize_slashes (target_of (parse_file patch)) == "") ≡ false
      → IsAcceptable (normalize_slashes (target_of (parse_file patch)))
        × ((parse_file patch).is_rename ≡ false)

  all_issues-IsPassed :
      (rest : List StructuredPatch)
      → is_empty (all_issues tree tools ignores cwd files patches (map parse_file rest)) ≡ true
      → All IsPassed rest
  unfolding all_issues
  all_issues-IsPassed [] h = tt
  all_issues-IsPassed (patch ∷ rest) h =
      let (now, later) =
        append-eq-empty (file_issues tree tools ignores cwd files patches (parse_file patch))
          (all_issues tree tools ignores cwd files patches (map parse_file rest)) h in
      (
        subst
            (λ path.
              (path == "") ≡ false → IsAcceptable path × ((parse_file patch).is_rename ≡ false))
            (sym (target-path patch)) (λ e. file_clean (parse_file patch) e now),
        all_issues-IsPassed rest (ap is_empty later),
      )

  validate_patches-IsPassed :
      (validate_patches tree tools ignores cwd files patches).ok ≡ true → All IsPassed patches
  unfolding validate_patches
  validate_patches-IsPassed h = all_issues-IsPassed patches h

-- What applying a diff may end with: a result is given only where the application was approved and
-- each file has passed, and then, as where it throws, the files are as `IsApplied` says.
abbrev pub IsGuarded :
    FileTree
    → Tools
    → Disk
    → (String → Bool)
    → String
    → List StructuredPatch
    → Bool
    → World
    → World × Attempt PatchApplyResult
    → Type 0
IsGuarded tree tools disk ignores cwd patches approved w (w', returned r) =
    (approved ≡ true)
    × All (IsPassed tree tools ignores cwd w.files patches) patches
    × IsApplied tree cwd disk (map parse_file patches) w (w', returned r)
IsGuarded tree tools disk ignores cwd patches approved w (w', threw e) =
    IsApplied tree cwd disk (map parse_file patches) w (w', threw e)

passed-IsGuarded :
    (tree : FileTree) (tools : Tools) (disk : Disk) (ignores : String → Bool) (cwd : String)
    (patches : List StructuredPatch) (w : World) (r : World × Attempt PatchApplyResult)
    → All (IsPassed tree tools ignores cwd w.files patches) patches
    → IsApplied tree cwd disk (map parse_file patches) w r
    → IsGuarded tree tools disk ignores cwd patches true w r
passed-IsGuarded tree tools disk ignores cwd patches w (w', returned r) p a = (refl, p, a)
passed-IsGuarded tree tools disk ignores cwd patches w (w', threw e) p a = a

-- Applying a diff of texts gives a result only where it was approved and each patch whose target has
-- a path is no rename and stays inside the project, is neither ignored nor sensitive, and the text
-- that the first patch for its path adds has no fault; the files are then, and where it throws, as
-- `IsApplied` says, whatever operations of the file system fail: where it throws all are as before
-- but that of one plan, or, where a second operation has failed, but those of the plans.
pub apply_text_diff-IsGuarded :
    (tree : FileTree) (tools : Tools) (disk : Disk) (ignores : String → Bool) (cwd : String)
    (patches : List StructuredPatch) (approved : Bool) (w : World)
    → IsGuarded tree tools disk ignores cwd patches approved w
        (apply_text_diff tree tools disk ignores cwd patches approved w)
unfolding apply_text_diff assert_patch_safe
apply_text_diff-IsGuarded tree tools disk ignores cwd patches false w = inl refl
apply_text_diff-IsGuarded tree tools disk ignores cwd patches true w =
    elim (Bool-cases (validate_patches tree tools ignores cwd w.files patches).ok) [
      | inr e ↦ rw e (inl refl)
      | inl e ↦ rw e (
          passed-IsGuarded tree tools disk ignores cwd patches w _
            (validate_patches-IsPassed tree tools ignores cwd w.files patches e)
            (apply_parsed-IsApplied tree tools disk cwd (map parse_file patches) patches w))
    ]
