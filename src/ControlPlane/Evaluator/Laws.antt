-- ===== src/ControlPlane/Evaluator/Laws.antt =====
-- What an evaluation of the acceptance matrix says of its gates and conditions.
use mathlib.Core.List.{append-nil, append_assoc}
use tomorrowedge.Prelude.{
  sym, ◌∙◌, subst, String, ◌≡◌, refl, Bool, true, false, not, ◌&&◌, List, [], ◌∷◌, ◌++◌, map, All,
  filter, is_empty, arith, Option, ◌↔◌, if◌then◌else◌,
}
use tomorrowedge.ControlPlane.Specs.{
  GoalSpec, EvalSpec, GateSpec, GateResult, EvaluationResult, ObservedWorkspaceState,
  SuccessCondition,
}
use tomorrowedge.ControlPlane.Host.{Host}
use tomorrowedge.ControlPlane.Gates.{GateContext, run_gate}
use tomorrowedge.ControlPlane.Gates.Laws.{IsVerdictOf, run_gate-IsVerdictOf}
use tomorrowedge.ControlPlane.Evaluator.Conditions.{AllRequired, IsSatisfied}
use tomorrowedge.ControlPlane.Evaluator.Conditions.Exact.{
  AllRequired-iff, condition_satisfied_iff, empty_iff,
}
use tomorrowedge.ControlPlane.Evaluator.{
  has_evidence, evaluation_of, run_hard_gates, run_soft_gates, evaluate, evaluate_conditions,
}

-- The results belong to the gates, one for each and in the same order.
abbrev pub AreVerdictsOf : List GateSpec → List GateResult → Type 0
AreVerdictsOf [] [] = Unit
AreVerdictsOf [] (r ∷ rs) = ⊥
AreVerdictsOf (s ∷ ss) [] = ⊥
AreVerdictsOf (s ∷ ss) (r ∷ rs) = IsVerdictOf s r × AreVerdictsOf ss rs

module _ {W : Type 0} (host : Host W) where
  run_hard_gates-AreVerdictsOf :
      (context : GateContext) (specs : List GateSpec) (w : W)
      → (results : List GateResult) × ((run_hard_gates host context specs w).1
          ≡ context.current_gate_results ++ results)
        × AreVerdictsOf specs results
  unfolding run_hard_gates
  run_hard_gates-AreVerdictsOf context [] w =
      ([], sym (append-nil context.current_gate_results), tt)
  run_hard_gates-AreVerdictsOf context (spec ∷ specs) w =
      let (w', result) = run_gate host context spec w in
      let (results, split, each) =
        run_hard_gates-AreVerdictsOf
          (record context { current_gate_results = context.current_gate_results ++ result ∷ [] })
          specs w' in
      (
        result ∷ results,
        split ∙ append_assoc context.current_gate_results (result ∷ []) results,
        (run_gate-IsVerdictOf host context spec w, each),
      )

  run_soft_gates-AreVerdictsOf :
      (context : GateContext) (specs : List GateSpec) (w : W)
      → AreVerdictsOf specs (run_soft_gates host context specs w).1
  unfolding run_soft_gates
  run_soft_gates-AreVerdictsOf context [] w = tt
  run_soft_gates-AreVerdictsOf context (spec ∷ specs) w = (
    run_gate-IsVerdictOf host context spec w,
    run_soft_gates-AreVerdictsOf context specs (run_gate host context spec w).0,
  )

no_missing_iff :
    (results : List GateResult)
    → (is_empty (
          map
            (λ (gate : GateResult). gate.id)
            (filter (λ gate. gate.required && not (has_evidence gate)) results))
        ≡ true)
      ↔ AllRequired (λ gate. has_evidence gate ≡ true) results
no_missing_iff [] = (λ h. tt, λ h. refl)
no_missing_iff (r ∷ rs) = grind (arith, no_missing_iff rs)

module _ (exists : String → Bool) (goal : GoalSpec) (spec : EvalSpec)
    (observed : ObservedWorkspaceState) (hard soft : List GateResult) where
  evaluate_conditions_iff :
      (cs : List SuccessCondition)
      → (is_empty (evaluate_conditions exists goal spec observed hard soft cs).1 ≡ true)
        ↔ All (λ c. c.required ≡ true → IsSatisfied exists goal spec observed hard soft c) cs
  unfolding evaluate_conditions
  evaluate_conditions_iff [] = (λ h. tt, λ h. refl)
  evaluate_conditions_iff (c ∷ cs) = grind (
    arith,
    evaluate_conditions_iff cs,
    condition_satisfied_iff exists goal spec observed hard soft c,
  )

-- The flags of an evaluation, read off its results.
pub record IsEvaluation (exists : String → Bool) (goal : GoalSpec) (spec : EvalSpec)
    (observed : ObservedWorkspaceState) (e : EvaluationResult) : Type 0 where
  pub gates : AreVerdictsOf spec.hard_gates e.hard_gate_results
  pub advisory : AreVerdictsOf spec.soft_gates e.soft_gate_results
  pub hard :
      (e.all_hard_gates_passed ≡ true)
      ↔ AllRequired (λ gate. gate.passed ≡ true) e.hard_gate_results
  pub evidence : (e.required_gate_evidence_complete ≡ true) ↔ (
      spec.evidence_required ≡ true
      → AllRequired (λ gate. has_evidence gate ≡ true) e.hard_gate_results)
  pub conditions :
      (e.required_conditions_met ≡ true)
      ↔ All
          (λ c.
            c.required ≡ true
            → IsSatisfied exists goal spec observed e.hard_gate_results e.soft_gate_results c)
          goal.success_conditions
  pub missing : (e.required_conditions_met ≡ true) ↔ (e.missing_conditions ≡ [])

evidence_iff :
    (required : Bool) (hard : List GateResult)
    → (is_empty (
          if required
          then map
              (λ (gate : GateResult). gate.id)
              (filter (λ gate. gate.required && not (has_evidence gate)) hard)
          else [])
        ≡ true)
      ↔ (required ≡ true → AllRequired (λ gate. has_evidence gate ≡ true) hard)
evidence_iff true hard = (λ h e. (no_missing_iff hard).0 h, λ k. (no_missing_iff hard).1 (k refl))
evidence_iff false hard = (λ h e. cc, λ k. refl)

evaluation_of-IsEvaluation :
    (exists : String → Bool) (goal : GoalSpec) (spec : EvalSpec) (observed : ObservedWorkspaceState)
    (hard soft : List GateResult)
    → AreVerdictsOf spec.hard_gates hard
    → AreVerdictsOf spec.soft_gates soft
    → IsEvaluation exists goal spec observed (evaluation_of exists goal spec observed hard soft)
unfolding evaluation_of
evaluation_of-IsEvaluation exists goal spec observed hard soft h k = record {
  gates = h;
  advisory = k;
  hard =
      AllRequired-iff (λ gate. gate.passed ≡ true) (λ gate. gate.passed) (λ r. (λ h. h, λ h. h))
        hard;
  evidence = evidence_iff spec.evidence_required hard;
  conditions = evaluate_conditions_iff exists goal spec observed hard soft goal.success_conditions;
  missing = empty_iff _;
}

-- An evaluation reports one verdict for each gate of the matrix, in the matrix's order; all blocking
-- gates have passed exactly where each required hard result has passed, the evidence is complete
-- exactly where each required hard result has some (or none is asked for), and the required
-- conditions are met exactly where what each required condition of the goal asks for is there, which
-- is where none is listed as missing: a changed file or a passed diff gate; the file of the path or
-- else all artifacts, of which there are some; each regression gate passed; no changed file under a
-- denied path; evidence for each required gate, of which there are some, or else, where none is
-- asked for, for some gate; an advisory gate passed with a score of 50 at least; for a test or a
-- command, its own gate passed or else all required gates, of which there are some; a manual one is
-- never there.
pub evaluate-IsEvaluation :
    {W : Type 0} (host : Host W) (goal : GoalSpec) (spec : EvalSpec) (evidence_dir : String)
    (observed : ObservedWorkspaceState) (previous : Option EvaluationResult) (w : W)
    → IsEvaluation
        (host.exists (evaluate host goal spec evidence_dir observed previous w).0)
        goal
        spec
        observed
        (evaluate host goal spec evidence_dir observed previous w).1
unfolding evaluate
evaluate-IsEvaluation host goal spec evidence_dir observed previous w =
    let context : GateContext = record {
      evidence_dir = evidence_dir;
      observed = observed;
      previous_evaluation = previous;
      current_gate_results = [];
    } in
    let (results, split, each) = run_hard_gates-AreVerdictsOf host context spec.hard_gates w in
    let (w', hard) = run_hard_gates host context spec.hard_gates w in
    evaluation_of-IsEvaluation _ goal spec observed hard _
      (subst (AreVerdictsOf spec.hard_gates) (sym split) each)
      (run_soft_gates-AreVerdictsOf host (record context { current_gate_results = hard })
        spec.soft_gates w')
