-- ===== src/ControlPlane/Evaluator.antt =====
-- The acceptance runner, src/core/controlPlane/evaluator.ts.
pub mod Conditions
pub mod Laws
use tomorrowedge.Prelude.{
  ℕ, ◌+◌, ◌*◌, ◌/◌, min, max, String, Bool, true, false, not, ◌&&◌, ◌||◌, Option, none, some, List,
  [], ◌∷◌, ◌++◌, map, ◌==◌, length, filter, any, all, find, cat, join, leb, or_else, is_empty,
  if◌then◌else◌,
}
use tomorrowedge.ControlPlane.Specs.{
  SuccessConditionType, SuccessCondition, GateType, hard_only, JudgeMode, GoalSpec, EvalSpec,
  GateSpec, GateResult, EvaluationResult, ObservedWorkspaceState,
}
use tomorrowedge.ControlPlane.Paths.{find_denied_path_violations}
use tomorrowedge.ControlPlane.Host.{Host}
use tomorrowedge.ControlPlane.Gates.{GateContext, run_gate}

abbrev is_diff_required : GateType → Bool
is_diff_required GateType.diff_required = true
is_diff_required _ = false

abbrev is_no_regression : GateType → Bool
is_no_regression GateType.no_regression = true
is_no_regression _ = false

-- A path is there and is not the empty text.
abbrev truthy : Option String → Bool
truthy none = false
truthy (some s) = not (s == "")

abbrev pub has_evidence : GateResult → Bool
has_evidence gate = truthy gate.evidence_path || truthy gate.raw_output_path

abbrev pub required_results : List GateResult → List GateResult
required_results results = filter (λ gate. gate.required) results

unfoldable pub weak_verification_warnings : EvalSpec → List String
weak_verification_warnings spec =
    if is_empty spec.hard_gates
    then "objective is weakly verifiable: no blocking checks are configured" ∷ []
    else []

-- The condition's own gate, or else all required hard gates, of which there must be one.
by_hard_gates : String → List GateResult → Bool
by_hard_gates id hard = elim (find (λ (gate : GateResult). gate.id == id) hard) [
  | some gate ↦ gate.passed
  | none ↦
      not (is_empty (required_results hard)) && all (λ gate. gate.passed) (required_results hard)
]

module _ (exists : String → Bool) (goal : GoalSpec) (spec : EvalSpec)
    (observed : ObservedWorkspaceState) (hard soft : List GateResult) where
  condition_satisfied_of : SuccessConditionType → SuccessCondition → Bool
  unfolding by_hard_gates
  condition_satisfied_of SuccessConditionType.diff_required c =
      not (is_empty observed.files_changed)
      || any (λ gate. is_diff_required gate.type && gate.passed) hard
  condition_satisfied_of SuccessConditionType.file_exists c = elim c.path [
    | some path ↦ exists path
    | none ↦ not (is_empty goal.artifacts) && all exists goal.artifacts
  ]
  condition_satisfied_of SuccessConditionType.no_regression c =
      all (λ gate. gate.passed) (filter (λ gate. is_no_regression gate.type) hard)
  condition_satisfied_of SuccessConditionType.no_denied_path_modified c =
      is_empty (find_denied_path_violations observed.files_changed goal.constraints.denied_paths)
  condition_satisfied_of SuccessConditionType.evidence_collected c =
      if spec.evidence_required
      then not (is_empty (required_results hard)) && all has_evidence (required_results hard)
      else any has_evidence (hard ++ soft)
  condition_satisfied_of SuccessConditionType.llm_review c =
      any (λ gate. gate.passed && leb 50 (or_else gate.score 0)) soft
  condition_satisfied_of SuccessConditionType.manual c = false
  condition_satisfied_of SuccessConditionType.test c = by_hard_gates c.id hard
  condition_satisfied_of SuccessConditionType.command c = by_hard_gates c.id hard

  unfoldable pub condition_satisfied : SuccessCondition → Bool
  unfolding condition_satisfied_of
  condition_satisfied c = condition_satisfied_of c.type c

  -- The loop of `evaluateSuccessConditions`: what is satisfied, and what is required and is not.
  unfoldable pub evaluate_conditions : List SuccessCondition → List String × List String
  unfolding condition_satisfied
  evaluate_conditions [] = ([], [])
  evaluate_conditions (c ∷ cs) =
      let (satisfied, missing) = evaluate_conditions cs in
      if condition_satisfied c
      then (c.id ∷ satisfied, missing)
      else if c.required
      then (satisfied, c.id ∷ missing)
      else (satisfied, missing)

abbrev sum_scores : List GateResult → ℕ
sum_scores [] = 0
sum_scores (gate ∷ gates) = or_else gate.score 0 + sum_scores gates

abbrev max_score : List GateResult → ℕ
max_score [] = 0
max_score (gate ∷ gates) = max (or_else gate.score 0) (max_score gates)

-- In hundredths, the soft part is min(10, average / 10) and the sum is rounded to the nearest.
unfoldable pub compute_confidence : Bool → Bool → List GateResult → Bool → ℕ
compute_confidence all_hard_passed required_conditions_met soft checker_satisfied =
    let n = length soft in
    let average_tenth =
      if is_empty soft then 10 else min 10 ((2 * sum_scores soft + 10 * n) / (20 * n)) in
    (if all_hard_passed then 60 else 0)
    + (if required_conditions_met then 30 else 0)
    + (if checker_satisfied then average_tenth else 0)

checker_satisfied_by : JudgeMode → ℕ → List GateResult → Bool
checker_satisfied_by hard_only threshold soft = true
checker_satisfied_by mode threshold soft = is_empty soft || leb threshold (max_score soft)

unfoldable pub evaluation_of :
    (String → Bool)
    → GoalSpec
    → EvalSpec
    → ObservedWorkspaceState
    → List GateResult
    → List GateResult
    → EvaluationResult
unfolding weak_verification_warnings evaluate_conditions compute_confidence checker_satisfied_by
evaluation_of exists goal spec observed hard soft =
    let all_hard_passed = all (λ (gate : GateResult). gate.passed) (required_results hard) in
    let missing_evidence =
      if spec.evidence_required
      then map (λ (gate : GateResult). gate.id)
          (filter (λ gate. not (has_evidence gate)) (hard ++ soft))
      else [] in
    let missing_required_evidence =
      if spec.evidence_required
      then map (λ (gate : GateResult). gate.id)
          (filter (λ gate. gate.required && not (has_evidence gate)) hard)
      else [] in
    let warnings =
      weak_verification_warnings spec
      ++ (if is_empty missing_evidence
          then []
          else cat ("evidence missing for gates: " ∷ join ", " missing_evidence ∷ []) ∷ []) in
    let evidence_complete = is_empty missing_required_evidence in
    let (satisfied, missing) =
      evaluate_conditions exists goal spec observed hard soft goal.success_conditions in
    let conditions_met = is_empty missing in
    let checker_ok = checker_satisfied_by spec.judge_mode spec.min_confidence soft in
    record {
      hard_gate_results = hard;
      soft_gate_results = soft;
      all_hard_gates_passed = all_hard_passed;
      required_conditions_met = conditions_met;
      required_gate_evidence_complete = evidence_complete;
      missing_evidence_gate_ids = missing_evidence;
      satisfied_conditions = satisfied;
      missing_conditions = missing;
      regressions =
          map (λ (gate : GateResult). gate.id)
            (filter (λ gate. is_no_regression gate.type && not gate.passed) hard);
      warnings = warnings;
      confidence = compute_confidence all_hard_passed conditions_met soft checker_ok;
      converged = all_hard_passed && conditions_met && evidence_complete && checker_ok;
    }

module _ {W : Type 0} (host : Host W) where
  -- A hard gate sees the results of the hard gates before it.
  unfoldable pub run_hard_gates : GateContext → List GateSpec → W → W × List GateResult
  run_hard_gates context [] w = (w, context.current_gate_results)
  run_hard_gates context (spec ∷ specs) w =
      let (w', result) = run_gate host context spec w in
      run_hard_gates
        (record context { current_gate_results = context.current_gate_results ++ result ∷ [] })
        specs w'

  -- A soft gate sees the results of all hard gates.
  unfoldable pub run_soft_gates : GateContext → List GateSpec → W → W × List GateResult
  run_soft_gates context [] w = (w, [])
  run_soft_gates context (spec ∷ specs) w =
      let (w', result) = run_gate host context spec w in
      let (w'', results) = run_soft_gates context specs w' in (w'', result ∷ results)

  unfoldable pub evaluate :
      GoalSpec
      → EvalSpec
      → String
      → ObservedWorkspaceState
      → Option EvaluationResult
      → W
      → W × EvaluationResult
  unfolding run_hard_gates run_soft_gates evaluation_of
  evaluate goal spec evidence_dir observed previous w =
      let context : GateContext = record {
        evidence_dir = evidence_dir;
        observed = observed;
        previous_evaluation = previous;
        current_gate_results = [];
      } in
      let (w', hard) = run_hard_gates context spec.hard_gates w in
      let (w'', soft) =
        run_soft_gates (record context { current_gate_results = hard }) spec.soft_gates w' in
      (w'', evaluation_of (host.exists w'') goal spec observed hard soft)
