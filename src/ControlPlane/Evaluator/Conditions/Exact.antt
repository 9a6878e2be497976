-- ===== src/ControlPlane/Evaluator/Conditions/Exact.antt =====
-- The tests of src/core/controlPlane/evaluator.ts agree with what the conditions ask for.
use tomorrowedge.Prelude.{
  ℕ, inl, inr, String, ◌≡◌, refl, subst, sym, Bool, true, not, ◌&&◌, ◌==◌, List, [], ◌∷◌, ◌++◌, All,
  all, any, find, filter, leb, is_empty, or_else, arith, Option, none, some, ◌↔◌, Bool-cases,
  eq_iff,
}
use tomorrowedge.ControlPlane.Specs.{
  GoalSpec, EvalSpec, GateType, GateResult, ObservedWorkspaceState, SuccessCondition,
  SuccessConditionType,
}
use tomorrowedge.ControlPlane.Evaluator.{
  is_diff_required, is_no_regression, truthy, has_evidence, required_results, by_hard_gates,
  condition_satisfied_of, condition_satisfied,
}
use tomorrowedge.ControlPlane.Evaluator.Conditions.{
  AllRequired, AnyOf, IsText, HasEvidence, IsScored, ByFirst, RequiredMeet, Exist, Satisfies,
  IsSatisfied,
}

pub AllRequired-iff :
    (P : GateResult → Type 0) (p : GateResult → Bool)
    → ((r : GateResult) → (p r ≡ true) ↔ P r)
    → (results : List GateResult)
    → (all p (required_results results) ≡ true) ↔ AllRequired P results
AllRequired-iff P p iff [] = (λ h. tt, λ h. refl)
AllRequired-iff P p iff (r ∷ rs) = grind (arith, AllRequired-iff P p iff rs, iff r)

any-AnyOf :
    (P : GateResult → Type 0) (p : GateResult → Bool)
    → ((r : GateResult) → (p r ≡ true) ↔ P r)
    → (results : List GateResult) → (any p results ≡ true) ↔ AnyOf P results
any-AnyOf P p iff [] = (λ h. cc, λ h. absurd h)
any-AnyOf P p iff (r ∷ rs) = grind (arith, any-AnyOf P p iff rs, iff r)

required_iff :
    (results : List GateResult)
    → (not (is_empty (required_results results)) ≡ true)
      ↔ AnyOf (λ gate. gate.required ≡ true) results
required_iff [] = (λ h. cc, λ h. absurd h)
required_iff (r ∷ rs) = grind (arith, required_iff rs)

RequiredMeet-iff :
    (P : GateResult → Type 0) (p : GateResult → Bool)
    → ((r : GateResult) → (p r ≡ true) ↔ P r)
    → (results : List GateResult)
    → ((not (is_empty (required_results results)) && all p (required_results results)) ≡ true)
      ↔ RequiredMeet P results
RequiredMeet-iff P p iff results =
    grind (arith, required_iff results, AllRequired-iff P p iff results)

text_iff : (s : String) → (not (s == "") ≡ true) ↔ (¬ (s ≡ ""))
text_iff s = grind (arith, eq_iff s "")

truthy_iff : (o : Option String) → (truthy o ≡ true) ↔ IsText o
truthy_iff none = (λ h. cc, λ h. absurd h)
truthy_iff (some s) = text_iff s

has_evidence_iff : (r : GateResult) → (has_evidence r ≡ true) ↔ HasEvidence r
has_evidence_iff r = grind (arith, truthy_iff r.evidence_path, truthy_iff r.raw_output_path)

diff_required_of : (t : GateType) → is_diff_required t ≡ true → t ≡ GateType.diff_required
diff_required_of GateType.command h = cc
diff_required_of GateType.test h = cc
diff_required_of GateType.lint h = cc
diff_required_of GateType.typecheck h = cc
diff_required_of GateType.static_analysis h = cc
diff_required_of GateType.file_exists h = cc
diff_required_of GateType.diff_required h = refl
diff_required_of GateType.no_regression h = cc
diff_required_of GateType.checker_agent h = cc
diff_required_of GateType.architecture_review h = cc
diff_required_of GateType.security_review h = cc
diff_required_of GateType.regression_review h = cc

no_regression_of : (t : GateType) → is_no_regression t ≡ true → t ≡ GateType.no_regression
no_regression_of GateType.command h = cc
no_regression_of GateType.test h = cc
no_regression_of GateType.lint h = cc
no_regression_of GateType.typecheck h = cc
no_regression_of GateType.static_analysis h = cc
no_regression_of GateType.file_exists h = cc
no_regression_of GateType.diff_required h = cc
no_regression_of GateType.no_regression h = refl
no_regression_of GateType.checker_agent h = cc
no_regression_of GateType.architecture_review h = cc
no_regression_of GateType.security_review h = cc
no_regression_of GateType.regression_review h = cc

is_diff_required_iff : (t : GateType) → (is_diff_required t ≡ true) ↔ (t ≡ GateType.diff_required)
is_diff_required_iff t =
    (diff_required_of t, λ e. subst (λ u. is_diff_required u ≡ true) (sym e) refl)

is_no_regression_iff : (t : GateType) → (is_no_regression t ≡ true) ↔ (t ≡ GateType.no_regression)
is_no_regression_iff t =
    (no_regression_of t, λ e. subst (λ u. is_no_regression u ≡ true) (sym e) refl)

changed_iff : (files : List String) → (not (is_empty files) ≡ true) ↔ (¬ (files ≡ []))
changed_iff [] = (λ h. cc, λ h. absurd (h refl))
changed_iff (f ∷ fs) = (λ h e. cc, λ h. refl)

pub empty_iff : (xs : List String) → (is_empty xs ≡ true) ↔ (xs ≡ [])
empty_iff [] = (λ h. refl, λ h. refl)
empty_iff (x ∷ xs) = (λ h. cc, λ h. cc)

all-All : (p : String → Bool) (xs : List String) → (all p xs ≡ true) ↔ All (λ x. p x ≡ true) xs
all-All p [] = (λ h. tt, λ h. refl)
all-All p (x ∷ xs) = grind (arith, all-All p xs)

no_regression_iff :
    (hard : List GateResult)
    → (all (λ gate. gate.passed) (filter (λ gate. is_no_regression gate.type) hard) ≡ true)
      ↔ All (λ (gate : GateResult). gate.type ≡ GateType.no_regression → gate.passed ≡ true) hard
no_regression_iff [] = (λ h. tt, λ h. refl)
no_regression_iff (r ∷ rs) = grind (arith, no_regression_iff rs, is_no_regression_iff r.type)

diff_iff :
    (r : GateResult)
    → ((is_diff_required r.type && r.passed) ≡ true)
      ↔ ((r.type ≡ GateType.diff_required) × (r.passed ≡ true))
diff_iff r = grind (arith, is_diff_required_iff r.type)

IsScored-iff : (o : Option ℕ) → (leb 50 (or_else o 0) ≡ true) ↔ IsScored o
IsScored-iff none = (λ h. cc, λ h. absurd h)
IsScored-iff (some score) = grind arith

review_iff :
    (r : GateResult)
    → ((r.passed && leb 50 (or_else r.score 0)) ≡ true) ↔ ((r.passed ≡ true) × IsScored r.score)
review_iff r = grind (arith, IsScored-iff r.score)

ByFirst-iff :
    (id : String) (otherwise : Bool) (Q : Type 0) (hard : List GateResult)
    → ((otherwise ≡ true) ↔ Q)
    → ((elim (find (λ (gate : GateResult). gate.id == id) hard) [
      | some gate ↦ gate.passed
      | none ↦ otherwise
    ])
        ≡ true)
      ↔ ByFirst id Q hard
ByFirst-iff id otherwise Q [] iff = iff
ByFirst-iff id otherwise Q (r ∷ rs) iff = elim (Bool-cases (r.id == id)) [
  | inl e ↦
      let same = (eq_iff r.id id).0 e in
      rw e (λ h. inl (same, h), λ h. elim h [ inl p ↦ p.1 | inr p ↦ absurd (p.0 same) ])
  | inr e ↦
      let differs : ¬ (r.id ≡ id) = λ same. let equal = (eq_iff r.id id).1 same in cc in
      let rest = ByFirst-iff id otherwise Q rs iff in
      rw e (
        λ h. inr (differs, rest.0 h),
        λ h. elim h [ inl p ↦ absurd (differs p.0) | inr p ↦ rest.1 p.1 ],
      )
]

by_hard_gates_iff :
    (id : String) (hard : List GateResult)
    → (by_hard_gates id hard ≡ true)
      ↔ ByFirst id (RequiredMeet (λ gate. gate.passed ≡ true) hard) hard
unfolding by_hard_gates
by_hard_gates_iff id hard = ByFirst-iff id _ _ hard (
    RequiredMeet-iff (λ gate. gate.passed ≡ true) (λ gate. gate.passed) (λ r. (λ h. h, λ h. h))
      hard)

module _ (exists : String → Bool) (goal : GoalSpec) (spec : EvalSpec)
    (observed : ObservedWorkspaceState) (hard soft : List GateResult) where
  Exist-iff :
      (path : Option String)
      → ((elim path [
        | some path ↦ exists path
        | none ↦ not (is_empty goal.artifacts) && all exists goal.artifacts
      ])
          ≡ true)
        ↔ Exist exists goal spec observed hard soft path
  Exist-iff (some path) = (λ h. h, λ h. h)
  Exist-iff none = grind (arith, changed_iff goal.artifacts, all-All exists goal.artifacts)

  -- The test of the source agrees with what the condition asks for.
  Satisfies-iff :
      (t : SuccessConditionType) (c : SuccessCondition)
      → (condition_satisfied_of exists goal spec observed hard soft t c ≡ true)
        ↔ Satisfies exists goal spec observed hard soft t c
  unfolding condition_satisfied_of
  Satisfies-iff SuccessConditionType.diff_required c =
      grind (arith, changed_iff observed.files_changed, any-AnyOf _ _ diff_iff hard)
  Satisfies-iff SuccessConditionType.file_exists c = Exist-iff c.path
  Satisfies-iff SuccessConditionType.no_regression c = no_regression_iff hard
  Satisfies-iff SuccessConditionType.no_denied_path_modified c = empty_iff _
  Satisfies-iff SuccessConditionType.evidence_collected c = grind (
    arith,
    RequiredMeet-iff HasEvidence has_evidence has_evidence_iff hard,
    any-AnyOf HasEvidence has_evidence has_evidence_iff (hard ++ soft),
  )
  Satisfies-iff SuccessConditionType.llm_review c = any-AnyOf _ _ review_iff soft
  Satisfies-iff SuccessConditionType.manual c = (λ h. cc, λ h. absurd h)
  Satisfies-iff SuccessConditionType.test c = by_hard_gates_iff c.id hard
  Satisfies-iff SuccessConditionType.command c = by_hard_gates_iff c.id hard

  pub condition_satisfied_iff :
      (c : SuccessCondition)
      → (condition_satisfied exists goal spec observed hard soft c ≡ true)
        ↔ IsSatisfied exists goal spec observed hard soft c
  unfolding condition_satisfied
  condition_satisfied_iff c = Satisfies-iff c.type c
