-- ===== src/ControlPlane/Pass/Laws.antt =====
-- What one pass of the reconciliation loop leaves.
use tomorrowedge.Prelude.{
  ℕ, ◌≤◌, String, ◌≡◌, refl, ◌≢◌, true, false, not, Option, some, List, [], ◌⊎◌, arith, inl,
  Bool-cases, inr,
}
use tomorrowedge.ControlPlane.Specs.{
  EvaluationResult, ObservedWorkspaceState, converged, aborted, evaluating, post_action, StatusSpec,
  ActionResult,
}
use tomorrowedge.ControlPlane.Paths.{find_denied_path_violations, find_allowed_path_violations}
use tomorrowedge.ControlPlane.Effects.{OnReturn, bind-OnReturn}
use tomorrowedge.ControlPlane.Workspace.{WorkspaceSnapshot, compute_desired_state_diff}
use tomorrowedge.ControlPlane.Host.{Host}
use tomorrowedge.ControlPlane.Evaluator.{evaluate}
use tomorrowedge.ControlPlane.Evaluator.Laws.{IsEvaluation, evaluate-IsEvaluation}
use tomorrowedge.ControlPlane.Decision.{
  collect_blockers, should_converge, DecisionState, FinalDecision, update_decision_state,
}
use tomorrowedge.ControlPlane.Decision.Laws.{
  Converges, should_converge_iff, IsDecision, decide-IsDecision,
}
use tomorrowedge.ControlPlane.Status.{
  RunOptions, Round, all_results, empty_action, converged_round, acted_round, max_iterations,
}
use tomorrowedge.ControlPlane.Pass.{
  write_file, observe, conclude_before_action, conclude_after_action, evaluate_after_action,
  act_and_decide, decide_round, round,
}

module _ {W : Type 0} (host : Host W) (options : RunOptions) where
  -- The evaluation that a pass is decided by, made in some state of the world.
  pub record WasEvaluated (files : List String) (e : EvaluationResult) : Type 0 where
    pub world : W
    pub observed : ObservedWorkspaceState
    pub same_files : observed.files_changed ≡ files
    pub evaluated : IsEvaluation (host.exists world) options.goal options.evaluation observed e

  pub record IsRound (iteration : ℕ) (r : Round) : Type 0 where
    pub numbered : r.status.iteration ≡ iteration
    pub stops : r.stop ≡ not r.status.decision.should_continue
    pub ends : r.stop ≡ true → (r.status.phase ≡ converged) ⊎ (r.status.phase ≡ aborted)
    pub goes_on : r.stop ≡ false → r.status.phase ≡ evaluating
    pub limited :
        options.loop.abort_when.max_iterations_reached ≡ true
        → max_iterations options ≤ iteration
        → r.stop ≡ true
    pub recorded : r.status.evidence.gate_results ≡ all_results r.evaluation
    pub sound :
        r.status.phase ≡ converged
        → Converges options.loop r.evaluation r.status.observed_state.unresolved_blockers
    pub evaluated : WasEvaluated r.status.observed_state.files_changed r.evaluation
    pub denied_aborts :
        r.status.evaluation_phase ≡ some post_action
        → find_denied_path_violations r.status.observed_state.files_changed
            options.goal.constraints.denied_paths
          ≢ []
        → r.status.phase ≡ aborted
    pub outside_aborts :
        r.status.evaluation_phase ≡ some post_action
        → find_allowed_path_violations r.status.observed_state.files_changed
            options.goal.constraints.allowed_paths
          ≢ []
        → r.status.phase ≡ aborted

  was_evaluated :
      (dir : String) (observed : ObservedWorkspaceState) (previous : Option EvaluationResult)
      (w : W)
      → WasEvaluated observed.files_changed
          (evaluate host options.goal options.evaluation dir observed previous w).1
  was_evaluated dir observed previous w = record {
    world = (evaluate host options.goal options.evaluation dir observed previous w).0;
    observed = observed;
    same_files = refl;
    evaluated = evaluate-IsEvaluation host options.goal options.evaluation dir observed previous w;
  }

  converged_round-IsRound :
      (iteration : ℕ) (observed : ObservedWorkspaceState) (e : EvaluationResult)
      (blockers : List String) (state : DecisionState)
      → WasEvaluated observed.files_changed e
      → should_converge options.loop e blockers ≡ true
      → IsRound iteration (converged_round options iteration observed e blockers state)
  unfolding converged_round
  converged_round-IsRound iteration observed e blockers state was h = record {
    numbered = refl;
    stops = refl;
    ends = λ _. inl refl;
    goes_on = λ k. cc;
    limited = λ _ _. refl;
    recorded = refl;
    sound = λ _. (should_converge_iff options.loop e blockers).0 h;
    evaluated = was;
    denied_aborts = λ k _. cc;
    outside_aborts = λ k _. cc;
  }

  module _ (iteration : ℕ) (before e : EvaluationResult) (action : ActionResult)
      (observed : ObservedWorkspaceState) (state : DecisionState) where
    abbrev blockers : List String
    blockers = collect_blockers options.goal options.loop action observed.files_changed e

    acted_round-IsRound :
        (decided : FinalDecision)
        → WasEvaluated observed.files_changed e
        → IsDecision options.goal options.loop action observed.files_changed e iteration
            (max_iterations options)
            state
            decided
        → IsRound iteration (
            acted_round options iteration host.adapter_id before action observed e blockers state
              decided)
    unfolding acted_round
    acted_round-IsRound decided was d = record {
      numbered = refl;
      stops = refl;
      ends = λ k. d.ends (ground arith);
      goes_on = λ k. d.goes_on (ground arith);
      limited = λ on most. let stop = d.limited on most in ground arith;
      recorded = refl;
      sound = λ k. (should_converge_iff options.loop e blockers).0 (d.sound k);
      evaluated = was;
      denied_aborts = λ _. d.denied_aborts;
      outside_aborts = λ _. d.outside_aborts;
    }

  module _ (baseline : Option WorkspaceSnapshot) (iteration : ℕ) where
    conclude_before_action-IsRound :
        (observed : ObservedWorkspaceState) (e : EvaluationResult) (blockers : List String)
        (state : DecisionState) (w : W)
        → WasEvaluated observed.files_changed e
        → should_converge options.loop e blockers ≡ true
        → OnReturn
            (IsRound iteration)
            (conclude_before_action host options baseline iteration observed e blockers state w)
    unfolding conclude_before_action
    conclude_before_action-IsRound observed e blockers state w was h =
        let made = converged_round-IsRound iteration observed e blockers state was h in ground arith

    conclude_after_action-IsRound :
        (state : DecisionState) (before : EvaluationResult) (action : ActionResult)
        (after : ObservedWorkspaceState) (e : EvaluationResult) (w : W)
        → WasEvaluated after.files_changed e
        → OnReturn
            (IsRound iteration)
            (conclude_after_action host options baseline iteration state before action after e w)
    unfolding conclude_after_action
    conclude_after_action-IsRound state before action after e w was =
        let state' =
          update_decision_state state e (compute_desired_state_diff options.goal (some e))
            after.files_changed action in
        let made = acted_round-IsRound iteration before e action after state' _ was (
          decide-IsDecision options.goal options.loop action after.files_changed e iteration
            (max_iterations options) state') in
        ground arith

    evaluate_after_action-IsRound :
        (previous : Option EvaluationResult) (state : DecisionState) (before : EvaluationResult)
        (action : ActionResult) (w : W)
        → OnReturn
            (IsRound iteration)
            (evaluate_after_action host options baseline iteration previous state before action w)
    unfolding evaluate_after_action
    evaluate_after_action-IsRound previous state before action w =
        bind-OnReturn (IsRound iteration) (observe host baseline) _ w λ after w'.
          conclude_after_action-IsRound state before action after _ _
            (was_evaluated _ after previous w')

    decide_round-IsRound :
        (last : StatusSpec) (previous : Option EvaluationResult) (state : DecisionState)
        (observed : ObservedWorkspaceState) (before : EvaluationResult) (w : W)
        → WasEvaluated observed.files_changed before
        → OnReturn
            (IsRound iteration)
            (decide_round host options baseline iteration last previous state observed before w)
    unfolding decide_round act_and_decide
    decide_round-IsRound last previous state observed before w was =
        bind-OnReturn (IsRound iteration) (write_file host _) _ w λ _ w'.
          let found =
            collect_blockers options.goal options.loop (empty_action host.adapter_id)
              observed.files_changed before in
          elim (Bool-cases (should_converge options.loop before found)) [
            | inl stop ↦
                rw stop (conclude_before_action-IsRound observed before found state w' was stop)
            | inr act ↦ rw act (
                bind-OnReturn (IsRound iteration) (host.act _) _ _
                  λ action w''. evaluate_after_action-IsRound previous state before action w'')
          ]

    -- A pass of the loop that returns keeps to all of `IsRound`.
    pub round-IsRound :
        (last : StatusSpec) (previous : Option EvaluationResult) (state : DecisionState) (w : W)
        → OnReturn (IsRound iteration) (round host options baseline iteration last previous state w)
    unfolding round
    round-IsRound last previous state w =
        bind-OnReturn (IsRound iteration) (observe host baseline) _ w λ observed w'.
          decide_round-IsRound last previous state observed _ _
            (was_evaluated _ observed previous w')
