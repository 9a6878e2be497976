-- ===== src/ControlPlane/Decision/Laws.antt =====
-- What the controller decides after an action, told by the violations themselves.
use tomorrowedge.Prelude.{
  ℕ, ◌<◌, ◌≤◌, String, ◌≡◌, refl, ◌≢◌, true, false, not, Option, none, some, List, [], ◌∷◌,
  is_empty, length, cat, arith, if◌then◌else◌, ◌↔◌, ◌⊎◌, sym, subst,
}
use tomorrowedge.ControlPlane.Specs.{
  GoalSpec, LoopSpec, ActionResult, EvaluationResult, converged, aborted, evaluating,
}
use tomorrowedge.ControlPlane.Paths.{find_denied_path_violations, find_allowed_path_violations}
use tomorrowedge.ControlPlane.Decision.{
  too_many_message, denied_message, outside_message, collect_blockers, below, should_converge,
  DecisionState, FinalDecision, abort, converge, abort_or_continue, decide_after_post_evaluation,
}
use tomorrowedge.ControlPlane.Decision.Blockers.{
  denied, outside, too_many, blockers, find_denied, find_outside, find_too_many,
}

module _ (goal : GoalSpec) (loop : LoopSpec) (action : ActionResult) (changed : List String)
    (e : EvaluationResult) where
  -- The decision, with no text searched: a violation of the paths or of the number of files comes
  -- first, then convergence, then the limits of the policy.
  abbrev pub decide_by_violations : ℕ → ℕ → DecisionState → FinalDecision
  decide_by_violations iteration most state =
      if not (is_empty (denied goal loop action changed e))
      then abort (cat ("aborted: " ∷ denied_message (denied goal loop action changed e) ∷ []))
      else if not (is_empty (outside goal loop action changed e))
      then abort (cat ("aborted: " ∷ outside_message (outside goal loop action changed e) ∷ []))
      else if too_many goal loop action changed e
      then abort (
          cat (
            "aborted: "
            ∷ too_many_message goal.constraints.max_files_changed (length changed)
            ∷ []))
      else if should_converge loop e (blockers goal loop action changed e)
      then converge "converged: all configured ConvergencePolicy stop conditions passed"
      else abort_or_continue loop iteration most e state action

  -- The controller finds the violations by the openings of the blocker texts. Its decision is the
  -- one by the violations themselves: a denied path first, then a path outside of the allowed ones,
  -- then too many files, then convergence, then the limits of the policy.
  pub decide-collect_blockers :
      (iteration most : ℕ) (state : DecisionState)
      → decide_after_post_evaluation loop iteration most e
          (collect_blockers goal loop action changed e)
          state
          action
        ≡ decide_by_violations iteration most state
  unfolding decide_after_post_evaluation
  decide-collect_blockers iteration most state = ground (
    arith,
    find_denied goal loop action changed e,
    find_outside goal loop action changed e,
    find_too_many goal loop action changed e,
  )

-- The stop conditions of the policy, as a condition on an evaluation and its blockers.
pub record Converges (loop : LoopSpec) (e : EvaluationResult) (blockers : List String)
    : Type 0 where
  pub hard : loop.stop_when.all_hard_gates_pass ≡ true → e.all_hard_gates_passed ≡ true
  pub conditions :
      loop.stop_when.all_required_conditions_met ≡ true → e.required_conditions_met ≡ true
  pub evidence : e.required_gate_evidence_complete ≡ true
  pub unblocked : loop.stop_when.no_unresolved_blockers ≡ true → blockers ≡ []
  pub confident :
      (threshold : ℕ)
      → loop.stop_when.checker_confidence_above ≡ some threshold
      → threshold ≤ e.confidence

empty_iff : (xs : List String) → (is_empty xs ≡ true) ↔ (xs ≡ [])
empty_iff [] = (λ h. refl, λ h. refl)
empty_iff (x ∷ xs) = (λ h. cc, λ h. cc)

confident_of :
    (confidence : ℕ) (bound : Option ℕ)
    → below confidence bound ≡ false
    → (threshold : ℕ) → bound ≡ some threshold
    → threshold ≤ confidence
confident_of confidence none h threshold e = cc
confident_of confidence (some t) h threshold e = ground arith

below-eq-false :
    (confidence : ℕ) (bound : Option ℕ)
    → ((threshold : ℕ) → bound ≡ some threshold → threshold ≤ confidence)
    → below confidence bound ≡ false
below-eq-false confidence none h = refl
below-eq-false confidence (some t) h = ground (arith, h t refl)

-- The runtime converges exactly where the stop conditions that the policy asks for hold: the
-- blocking gates, the required conditions, no blockers, a confidence of at least the threshold,
-- and, always, the evidence of the required gates.
pub should_converge_iff :
    (loop : LoopSpec) (e : EvaluationResult) (blockers : List String)
    → (should_converge loop e blockers ≡ true) ↔ Converges loop e blockers
unfolding should_converge
should_converge_iff loop e blockers = (
  λ h. record {
    hard = λ on. ground arith;
    conditions = λ on. ground arith;
    evidence = ground arith;
    unblocked = λ on. (empty_iff blockers).0 (ground arith);
    confident = confident_of e.confidence loop.stop_when.checker_confidence_above (ground arith);
  },
  λ c. converges c,
)
  where
    converges : Converges loop e blockers → should_converge loop e blockers ≡ true
    converges c = ground (
      arith,
      c.hard,
      c.conditions,
      c.evidence,
      c.unblocked,
      (empty_iff blockers).1,
      below-eq-false e.confidence loop.stop_when.checker_confidence_above c.confident,
    )

-- What every decision after an action keeps to.
pub record IsDecision (goal : GoalSpec) (loop : LoopSpec) (action : ActionResult)
    (changed : List String) (e : EvaluationResult) (iteration most : ℕ) (state : DecisionState)
    (decided : FinalDecision) : Type 0 where
  pub ends :
      decided.should_continue ≡ false → (decided.phase ≡ converged) ⊎ (decided.phase ≡ aborted)
  pub goes_on : decided.should_continue ≡ true → decided.phase ≡ evaluating
  pub sound :
      decided.phase ≡ converged
      → should_converge loop e (collect_blockers goal loop action changed e) ≡ true
  pub denied_aborts :
      find_denied_path_violations changed goal.constraints.denied_paths ≢ []
      → decided.phase ≡ aborted
  pub outside_aborts :
      find_allowed_path_violations changed goal.constraints.allowed_paths ≢ []
      → decided.phase ≡ aborted
  pub limited :
      loop.abort_when.max_iterations_reached ≡ true
      → most ≤ iteration
      → decided.should_continue ≡ false
  pub failing_stops :
      0 < loop.abort_when.repeated_failure_rounds
      → loop.abort_when.repeated_failure_rounds ≤ state.repeated_failures
      → decided.should_continue ≡ false
  pub stalled_stops :
      0 < loop.abort_when.no_progress_rounds
      → loop.abort_when.no_progress_rounds ≤ state.no_progress_rounds
      → decided.should_continue ≡ false
  pub exhausted_stops :
      loop.abort_when.budget_exhausted ≡ true
      → action.budget_exhausted ≡ true
      → decided.should_continue ≡ false

module _ (goal : GoalSpec) (loop : LoopSpec) (action : ActionResult) (changed : List String)
    (e : EvaluationResult) (iteration most : ℕ) (state : DecisionState) where
  by_violations-IsDecision :
      IsDecision goal loop action changed e iteration most state
        (decide_by_violations goal loop action changed e iteration most state)
  unfolding abort_or_continue
  by_violations-IsDecision = record {
    ends = ground arith;
    goes_on = ground arith;
    sound = ground arith;
    denied_aborts = ground arith;
    outside_aborts = ground arith;
    limited = ground arith;
    failing_stops = ground arith;
    stalled_stops = ground arith;
    exhausted_stops = ground arith;
  }

  -- The decision after an action stops only with `converged` or `aborted` and goes on only with
  -- `evaluating`; it converges only where the stop conditions hold; it aborts on a change under a
  -- denied path or outside of the allowed ones; and it stops at the last iteration if the policy
  -- says so, at an exhausted budget if the policy says so, and at a limit on failing rounds or on
  -- rounds without progress that is not zero.
  pub decide-IsDecision : IsDecision goal loop action changed e iteration most state (
      decide_after_post_evaluation loop iteration most e
        (collect_blockers goal loop action changed e)
        state
        action)
  decide-IsDecision =
      subst (IsDecision goal loop action changed e iteration most state)
        (sym (decide-collect_blockers goal loop action changed e iteration most state))
        by_violations-IsDecision
