-- ===== src/ControlPlane/Evaluator/Conditions.antt =====
-- What each success condition of src/core/controlPlane/evaluator.ts asks for.
pub mod Exact
use tomorrowedge.Prelude.{
  ℕ, ◌≤◌, ◌⊎◌, inl, inr, String, ◌≡◌, refl, subst, sym, Bool, true, false, not, ◌&&◌, ◌==◌, List,
  [], ◌∷◌, ◌++◌, All, all, any, find, filter, leb, is_empty, or_else, arith, Option, none, some,
  ◌↔◌, Bool-cases, eq_iff,
}
use tomorrowedge.ControlPlane.Specs.{
  GoalSpec, EvalSpec, GateType, GateResult, ObservedWorkspaceState, SuccessCondition,
  SuccessConditionType,
}
use tomorrowedge.ControlPlane.Paths.{find_denied_path_violations}
use tomorrowedge.ControlPlane.Evaluator.{
  is_diff_required, is_no_regression, truthy, has_evidence, required_results, by_hard_gates,
  condition_satisfied_of, condition_satisfied,
}

-- Every required result satisfies `P`.
abbrev pub AllRequired : (GateResult → Type 0) → List GateResult → Type 0
AllRequired P results = All (λ gate. gate.required ≡ true → P gate) results

-- AnyOf result satisfies `P`.
abbrev pub AnyOf : (GateResult → Type 0) → List GateResult → Type 0
AnyOf P [] = ⊥
AnyOf P (r ∷ rs) = P r ⊎ AnyOf P rs

abbrev pub IsText : Option String → Type 0
IsText none = ⊥
IsText (some s) = ¬ (s ≡ "")

-- A file of evidence is named.
abbrev pub HasEvidence : GateResult → Type 0
HasEvidence gate = IsText gate.evidence_path ⊎ IsText gate.raw_output_path

abbrev pub IsScored : Option ℕ → Type 0
IsScored none = ⊥
IsScored (some score) = 50 ≤ score

-- The first result of the id has passed; or there is none of the id, and `otherwise` holds.
abbrev pub ByFirst : String → Type 0 → List GateResult → Type 0
ByFirst id otherwise [] = otherwise
ByFirst id otherwise (r ∷ rs) =
    ((r.id ≡ id) × (r.passed ≡ true)) ⊎ ((¬ (r.id ≡ id)) × ByFirst id otherwise rs)

-- There is a required result, and each of them satisfies `P`.
abbrev pub RequiredMeet : (GateResult → Type 0) → List GateResult → Type 0
RequiredMeet P results = AnyOf (λ gate. gate.required ≡ true) results × AllRequired P results

module _ (exists : String → Bool) (goal : GoalSpec) (spec : EvalSpec)
    (observed : ObservedWorkspaceState) (hard soft : List GateResult) where
  abbrev pub Exist : Option String → Type 0
  Exist (some path) = exists path ≡ true
  Exist none = (¬ (goal.artifacts ≡ [])) × All (λ artifact. exists artifact ≡ true) goal.artifacts

  abbrev pub Satisfies : SuccessConditionType → SuccessCondition → Type 0
  Satisfies SuccessConditionType.diff_required c =
      (¬ (observed.files_changed ≡ []))
      ⊎ AnyOf (λ gate. (gate.type ≡ GateType.diff_required) × (gate.passed ≡ true)) hard
  Satisfies SuccessConditionType.file_exists c = Exist c.path
  Satisfies SuccessConditionType.no_regression c =
      All (λ (gate : GateResult). gate.type ≡ GateType.no_regression → gate.passed ≡ true) hard
  Satisfies SuccessConditionType.no_denied_path_modified c =
      find_denied_path_violations observed.files_changed goal.constraints.denied_paths ≡ []
  Satisfies SuccessConditionType.evidence_collected c =
      ((spec.evidence_required ≡ true) × RequiredMeet HasEvidence hard)
      ⊎ ((spec.evidence_required ≡ false) × AnyOf HasEvidence (hard ++ soft))
  Satisfies SuccessConditionType.llm_review c =
      AnyOf (λ gate. (gate.passed ≡ true) × IsScored gate.score) soft
  Satisfies SuccessConditionType.manual c = ⊥
  Satisfies SuccessConditionType.test c =
      ByFirst c.id (RequiredMeet (λ gate. gate.passed ≡ true) hard) hard
  Satisfies SuccessConditionType.command c =
      ByFirst c.id (RequiredMeet (λ gate. gate.passed ≡ true) hard) hard

  -- What the condition asks for is there.
  abbrev pub IsSatisfied : SuccessCondition → Type 0
  IsSatisfied c = Satisfies c.type c
