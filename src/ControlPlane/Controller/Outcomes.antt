-- ===== src/ControlPlane/Controller/Outcomes.antt =====
-- What a whole run guarantees: its ledger, its verdict and its end.
pub mod Passes
pub use tomorrowedge.ControlPlane.Controller.Outcomes.Passes.{IsConvergence}
use tomorrowedge.ControlPlane.Controller.Outcomes.Passes.{
  last_of-IsChain, last_of-All, initial-not-converged, passes-IsConvergence, Ends, Aborts,
  initial-Ends, initial-Aborts, initial-numbered, passes-Ends, passes-Aborts, none_in,
}
use mathlib.Core.List.{append-nil, append_assoc}
use tomorrowedge.Prelude.{
  sym, ℕ, ◌+◌, ◌≤◌, ◌<◌, ◌≡◌, refl, ◌≢◌, true, false, some, List, [], ◌∷◌, ◌++◌, ◌⊎◌, inl, inr, All,
  length, arith, ◌∙◌, ap, All-mem, Memᴰ, subst,
}
use tomorrowedge.ControlPlane.Specs.{
  GateResult, StatusSpec, converged, aborted, post_action, returned,
}
use tomorrowedge.ControlPlane.Paths.{find_denied_path_violations, find_allowed_path_violations}
use tomorrowedge.ControlPlane.StatusStore.{Ledger}
use tomorrowedge.ControlPlane.Host.{Host}
use tomorrowedge.ControlPlane.Evaluator.{has_evidence}
use tomorrowedge.ControlPlane.Evaluator.Conditions.{AllRequired}
use tomorrowedge.ControlPlane.Evaluator.Laws.{AreVerdictsOf, IsEvaluation}
use tomorrowedge.ControlPlane.Decision.Laws.{Converges}
use tomorrowedge.ControlPlane.Status.{RunOptions, initial_status, max_iterations}
use tomorrowedge.ControlPlane.Controller.{run}
use tomorrowedge.ControlPlane.Pass.Laws.{IsRound}
use tomorrowedge.ControlPlane.Controller.Laws.{IsChain, last_of, IsPass}
use tomorrowedge.ControlPlane.Controller.Runs.{run-IsRun}

split_last :
    (s : StatusSpec) (ss : List StatusSpec)
    → (before : List StatusSpec) × (s ∷ ss ≡ before ++ last_of s ss ∷ [])
split_last s [] = ([], refl)
split_last s (t ∷ ts) = let (before, e) = split_last t ts in (s ∷ before, ap (λ l. s ∷ l) e)

append_cancel : (xs ys zs : List StatusSpec) → xs ++ ys ≡ xs ++ zs → ys ≡ zs
append_cancel [] ys zs h = h
append_cancel (x ∷ xs) ys zs h = append_cancel xs ys zs (cc h)

-- Whatever the outside world does, also where it throws: the statuses that stand whole in the trace
-- are those found there when the run starts and, behind them, nothing or the initial status and then
-- at most `max_iterations` passes, numbered 1, 2, 3, …, of which each but the last says that the run
-- goes on.
pub run-trace :
    {W : Type 0} (host : Host W) (options : RunOptions) (found : Ledger) (w : W)
    → (run host options found w).ledger.trace ≡ found.trace
      ⊎ ((passes : List StatusSpec) × ((run host options found w).ledger.trace
            ≡ found.trace ++ initial_status options ∷ passes)
          × IsChain 1 passes
          × (length passes ≤ max_iterations options))
run-trace host options found w = elim (run-IsRun host options found w) [
  | inl absent ↦ inl absent.empty
  | inr there ↦ inr (there.passes, there.split, there.chain, there.short)
]

-- A run that returns `converged` has recorded a verdict for each blocking gate of the matrix, in
-- order, and then one for each advisory gate, in order; if the policy asks for the blocking gates,
-- each required one of them has passed, whatever the advisory gates say; if evidence is asked for,
-- each required one has some; and if the policy asks for it, no blocker is unresolved.
pub run-IsConvergence :
    {W : Type 0} (host : Host W) (options : RunOptions) (found : Ledger) (w : W) (s : StatusSpec)
    → (run host options found w).outcome ≡ returned s
    → s.phase ≡ converged
    → IsConvergence host options s
run-IsConvergence host options found w s e phase = elim (run-IsRun host options found w) [
  | inl absent ↦ cc (absent.thrown)
  | inr there ↦
      (subst (λ t. t.phase ≡ converged → IsConvergence host options t) (there.ends e)
          (last_of-All (λ t. t.phase ≡ converged → IsConvergence host options t)
            (initial_status options) there.passes
            (λ k. absurd (initial-not-converged host options k))
            (passes-IsConvergence host options there.passes there.each)))
        phase
]

-- If the policy aborts at its last iteration and there is one, a run that returns has decided not to go on: the status is
-- `converged` or `aborted`, and its iteration is at most `max_iterations`.
pub run_settles :
    {W : Type 0} (host : Host W) (options : RunOptions) (found : Ledger) (w : W) (s : StatusSpec)
    → (run host options found w).outcome ≡ returned s
    → options.loop.abort_when.max_iterations_reached ≡ true
    → 0 < max_iterations options
    → (s.decision.should_continue ≡ false)
      × ((s.phase ≡ converged) ⊎ (s.phase ≡ aborted))
      × (s.iteration ≤ max_iterations options)
run_settles host options found w s e on some_left = elim (run-IsRun host options found w) [
  | inl absent ↦ cc (absent.thrown)
  | inr there ↦
      let stop = there.settled e on some_left in
      (
        stop,
        subst Ends (there.ends e)
            (last_of-All Ends (initial_status options) there.passes (initial-Ends options)
              (passes-Ends host options there.passes there.each))
            stop,
        subst (λ t. t.iteration ≤ max_iterations options) (there.ends e)
            (omega (
              arith,
              last_of-IsChain 1 (initial_status options) there.passes (initial-numbered options)
                  there.chain,
              there.short,
            )),
      )
]

-- A pass that acts and leaves a change under a denied path, or outside of the allowed paths, is
-- recorded as aborted, wherever it stands in what the run adds to the trace.
pub run-violation-aborts :
    {W : Type 0} (host : Host W) (options : RunOptions) (found : Ledger) (w : W) (s : StatusSpec)
    → (added : List StatusSpec) → (run host options found w).ledger.trace ≡ found.trace ++ added
    → Memᴰ s added
    → s.evaluation_phase ≡ some post_action
    → (find_denied_path_violations s.observed_state.files_changed
          options.goal.constraints.denied_paths
        ≢ [])
      ⊎ (find_allowed_path_violations s.observed_state.files_changed
            options.goal.constraints.allowed_paths
          ≢ [])
    → s.phase ≡ aborted
run-violation-aborts host options found w s added e m acted violated =
    elim (run-IsRun host options found w) [
      | inl absent ↦ none_in (
          subst (Memᴰ s)
            (append_cancel found.trace added []
              (sym e ∙ absent.empty ∙ sym (append-nil found.trace)))
            m)
      | inr there ↦
          All-mem (Aborts options) (initial_status options ∷ there.passes)
            (initial-Aborts options, passes-Aborts host options there.passes there.each)
            (subst (Memᴰ s) (append_cancel found.trace added _ (sym e ∙ there.split)) m) acted
            violated
    ]

-- The status that a run returns is the latest one of the ledger and the last of its trace.
pub run-latest :
    {W : Type 0} (host : Host W) (options : RunOptions) (found : Ledger) (w : W) (s : StatusSpec)
    → (run host options found w).outcome ≡ returned s
    → ((run host options found w).ledger.latest ≡ some s)
      × ((before : List StatusSpec) × ((run host options found w).ledger.trace ≡ before ++ s ∷ []))
run-latest host options found w s e = elim (run-IsRun host options found w) [
  | inl absent ↦ cc (absent.thrown)
  | inr there ↦
      let (before, split) = split_last (initial_status options) there.passes in
      (
        there.latest e,
        (
          found.trace ++ before,
          there.split
              ∙ ap (λ l. found.trace ++ l) (split ∙ ap (λ t. before ++ t ∷ []) (there.ends e))
              ∙ sym (append_assoc found.trace before (s ∷ [])),
        ),
      )
]
