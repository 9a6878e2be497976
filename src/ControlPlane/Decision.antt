-- ===== src/ControlPlane/Decision.antt =====
-- The decisions of src/core/controlPlane/controller.ts: `collectBlockers`, `shouldConverge`,
-- `decideAfterPostEvaluation` and `updateDecisionState`.
pub mod Blockers
pub mod Laws
use tomorrowedge.Prelude.{
  ℕ, zero, ◌+◌, String, Bool, true, false, not, ◌&&◌, ◌||◌, Option, none, some, List, [], ◌∷◌, ◌++◌,
  map, ◌==◌, filter, any, find, is_empty, length, cat, join, show, sort, starts_with, has_text, ltb,
  leb, eqb, if◌then◌else◌,
}
use tomorrowedge.ControlPlane.Specs.{
  GoalSpec, LoopSpec, GateResult, EvaluationResult, DesiredStateDiff, StatusPhase, converged,
  aborted, evaluating, ActionStatus, ActionResult, success, failed, skipped,
}
use tomorrowedge.ControlPlane.Paths.{find_denied_path_violations, find_allowed_path_violations}
use tomorrowedge.ControlPlane.Gates.{is_failure}

abbrev pub failed_gate_ids : List GateResult → List String
failed_gate_ids gates = map (λ (gate : GateResult). gate.id) (filter is_failure gates)

-- `[message]` where the test holds.
abbrev pub when : Bool → String → List String
when true message = message ∷ []
when false message = []

unfoldable pub exceeds : Option ℕ → ℕ → Bool
exceeds none n = false
exceeds (some most) n = ltb most n

unfoldable pub too_many_message : Option ℕ → ℕ → String
too_many_message none n = ""
too_many_message (some most) n = cat ("too many files changed: " ∷ show n ∷ " > " ∷ show most ∷ [])

-- `items.join(", ") || "unknown"`
names_or_unknown : List String → String
names_or_unknown ids = let text = join ", " ids in if text == "" then "unknown" else text

warning_blockers : List String → List String
warning_blockers [] = []
warning_blockers (warning ∷ warnings) =
    if has_text warning "weakly verifiable" || has_text warning "evidence missing"
    then cat ("warning: " ∷ warning ∷ []) ∷ warning_blockers warnings
    else warning_blockers warnings

abbrev pub advisory_message : String
advisory_message =
    "reviewer/advisory check passed but blocking checks failed; advisory checks cannot override blocking checks"

-- The blockers behind those for the changed paths.
unfoldable pub check_blockers : LoopSpec → ActionResult → EvaluationResult → List String
unfolding names_or_unknown warning_blockers
check_blockers loop action evaluation =
    when (not evaluation.all_hard_gates_passed) (
      cat (
        "blocking checks failed: "
        ∷ names_or_unknown (failed_gate_ids evaluation.hard_gate_results)
        ∷ []))
    ++ (when
          (any is_failure evaluation.hard_gate_results
            && any (λ gate. gate.passed) evaluation.soft_gate_results)
          advisory_message
        ++ (when (action.budget_exhausted && loop.abort_when.budget_exhausted) "budget exhausted"
            ++ warning_blockers evaluation.warnings))

unfoldable pub denied_message : List String → String
denied_message denied = cat ("modified denied path: " ∷ join ", " denied ∷ [])

unfoldable pub outside_message : List String → String
outside_message outside = cat ("modified path outside allowed_paths: " ∷ join ", " outside ∷ [])

unfoldable pub collect_blockers :
    GoalSpec → LoopSpec → ActionResult → List String → EvaluationResult → List String
unfolding exceeds too_many_message denied_message outside_message check_blockers
collect_blockers goal loop action changed_files evaluation =
    let denied = find_denied_path_violations changed_files goal.constraints.denied_paths in
    let outside = find_allowed_path_violations changed_files goal.constraints.allowed_paths in
    let most = goal.constraints.max_files_changed in
    let n = length changed_files in
    when (not (is_empty denied)) (denied_message denied)
    ++ (when (not (is_empty outside)) (outside_message outside)
        ++ (when (exceeds most n) (too_many_message most n)
            ++ check_blockers loop action evaluation))

abbrev below : ℕ → Option ℕ → Bool
below confidence none = false
below confidence (some threshold) = ltb confidence threshold

unfoldable pub should_converge : LoopSpec → EvaluationResult → List String → Bool
should_converge loop evaluation blockers =
    if loop.stop_when.all_hard_gates_pass && not evaluation.all_hard_gates_passed
    then false
    else if loop.stop_when.all_required_conditions_met && not evaluation.required_conditions_met
    then false
    else if not evaluation.required_gate_evidence_complete
    then false
    else if loop.stop_when.no_unresolved_blockers && not (is_empty blockers)
    then false
    else if below evaluation.confidence loop.stop_when.checker_confidence_above
    then false
    else true

pub record DecisionState : Type 0 where
  pub repeated_failures : ℕ
  pub no_progress_rounds : ℕ
  pub previous_progress_key : Option String

-- What `decideAfterPostEvaluation` returns.
pub record FinalDecision : Type 0 where
  pub should_continue : Bool
  pub reason : String
  pub next_action : Option String
  pub phase : StatusPhase

abbrev pub abort : String → FinalDecision
abort reason = record {
  should_continue = false;
  reason = reason;
  next_action = none;
  phase = aborted;
}

abbrev pub converge : String → FinalDecision
converge reason = record {
  should_continue = false;
  reason = reason;
  next_action = none;
  phase = converged;
}

-- The reason of an abort for repeated failures.
repeated_failure_reason : EvaluationResult → ℕ → String
repeated_failure_reason evaluation rounds =
    let failing = failed_gate_ids evaluation.hard_gate_results in
    if is_empty failing
    then cat ("aborted: repeated failure for " ∷ show rounds ∷ " round(s)" ∷ [])
    else cat (
        "aborted: blocking check always failing after "
        ∷ show rounds
        ∷ " post-action round(s): "
        ∷ join ", " failing
        ∷ [])

-- The tests behind that of convergence.
unfoldable pub abort_or_continue :
    LoopSpec → ℕ → ℕ → EvaluationResult → DecisionState → ActionResult → FinalDecision
unfolding repeated_failure_reason
abort_or_continue loop iteration max_iterations evaluation state action =
    let limits = loop.abort_when in
    if limits.budget_exhausted && action.budget_exhausted
    then abort "aborted: budget exhausted"
    else if ltb 0 limits.repeated_failure_rounds
        && leb limits.repeated_failure_rounds state.repeated_failures
    then abort (repeated_failure_reason evaluation state.repeated_failures)
    else if ltb 0 limits.no_progress_rounds
        && leb limits.no_progress_rounds state.no_progress_rounds
    then abort (
        cat (
          "aborted: no progress for " ∷ show state.no_progress_rounds ∷ " consecutive rounds" ∷ []))
    else if limits.max_iterations_reached && leb max_iterations iteration
    then abort (cat ("aborted: max iterations reached (" ∷ show max_iterations ∷ ")" ∷ []))
    else record {
      should_continue = true;
      reason =
          if evaluation.all_hard_gates_passed
          then "continue: ConvergencePolicy stop conditions not satisfied"
          else "continue: blocking checks still failing after AgentBridge action";
      next_action = some "reconcile missing conditions";
      phase = evaluating;
    }

-- `blockers.find((item) => item.startsWith(prefix))`
abbrev pub blocker_with : String → List String → Option String
blocker_with prefix blockers = find (λ item. starts_with item prefix) blockers

unfoldable pub decide_after_post_evaluation :
    LoopSpec → ℕ → ℕ → EvaluationResult → List String → DecisionState → ActionResult → FinalDecision
unfolding abort_or_continue should_converge
decide_after_post_evaluation loop iteration max_iterations evaluation blockers state action =
    elim (blocker_with "modified denied path" blockers) [
      | some denied ↦ abort (cat ("aborted: " ∷ denied ∷ []))
      | none ↦ elim (blocker_with "modified path outside allowed_paths" blockers) [
        | some outside ↦ abort (cat ("aborted: " ∷ outside ∷ []))
        | none ↦ elim (blocker_with "too many files changed" blockers) [
          | some too_many ↦ abort (cat ("aborted: " ∷ too_many ∷ []))
          | none ↦
              if should_converge loop evaluation blockers
              then converge "converged: all configured ConvergencePolicy stop conditions passed"
              else abort_or_continue loop iteration max_iterations evaluation state action
        ]
      ]
    ]

abbrev action_status_text : ActionStatus → String
action_status_text success = "success"
action_status_text failed = "failed"
action_status_text skipped = "skipped"

unfoldable pub progress_key :
    DesiredStateDiff → List GateResult → List String → ActionStatus → String
progress_key diff hard changed_files status = join "|" (
    cat ("satisfied=" ∷ join "," (sort diff.satisfied_conditions) ∷ [])
    ∷ cat ("missing=" ∷ join "," (sort diff.missing_conditions) ∷ [])
    ∷ cat ("failed=" ∷ join "," (sort (failed_gate_ids hard)) ∷ [])
    ∷ cat ("changed=" ∷ join "," (sort changed_files) ∷ [])
    ∷ cat ("action=" ∷ action_status_text status ∷ [])
    ∷ [])

abbrev same_key : Option String → String → Bool
same_key none key = false
same_key (some previous) key = previous == key

unfoldable pub update_decision_state :
    DecisionState → EvaluationResult → DesiredStateDiff → List String → ActionResult → DecisionState
unfolding progress_key
update_decision_state state evaluation diff changed_files action =
    let failing = failed_gate_ids evaluation.hard_gate_results in
    let key = progress_key diff evaluation.hard_gate_results changed_files action.status in
    record {
      repeated_failures = if is_empty failing then 0 else state.repeated_failures + 1;
      no_progress_rounds =
          if same_key state.previous_progress_key key then state.no_progress_rounds + 1 else 0;
      previous_progress_key = some key;
    }
