-- ===== src/ControlPlane/Controller/Runs.antt =====
-- A run's ledger, from its first status on.
use mathlib.Core.List.{append_assoc}
use tomorrowedge.Prelude.{
  ◌≤◌, ◌<◌, ◌≡◌, refl, true, false, some, List, [], ◌∷◌, ◌++◌, ◌⊎◌, inl, inr, All, length, arith,
  ◌∙◌, ap, Option, none, String, cat,
}
use tomorrowedge.ControlPlane.Specs.{StatusSpec, returned, threw}
use tomorrowedge.ControlPlane.Effects.{Attempt-cases}
use tomorrowedge.ControlPlane.Workspace.{WorkspaceSnapshot}
use tomorrowedge.ControlPlane.Host.{Host}
use tomorrowedge.ControlPlane.StatusStore.{Ledger, Written}
use tomorrowedge.ControlPlane.StatusStore.Laws.{
  IsWritten, IsThrown, between-traced, write_status_cases,
}
use tomorrowedge.ControlPlane.Status.{RunOptions, initial_status, max_iterations, start_state}
use tomorrowedge.ControlPlane.Controller.{RunState, after_first, run_initialized, run}
use tomorrowedge.ControlPlane.Controller.Laws.{IsChain, last_of, IsPass, loop-IsLoop}

module _ {W : Type 0} (host : Host W) (options : RunOptions) (found : Ledger) where
  -- The run threw before its first pass, or it went through the loop.
  pub record HasStarted (r : RunState W) : Type 0 where
    pub passes : List StatusSpec
    pub split : r.ledger.trace ≡ found.trace ++ initial_status options ∷ passes
    pub chain : IsChain 1 passes
    pub short : length passes ≤ max_iterations options
    pub each : All (IsPass host options) passes
    pub ends :
        {s : StatusSpec} → r.outcome ≡ returned s → last_of (initial_status options) passes ≡ s
    pub latest : {s : StatusSpec} → r.outcome ≡ returned s → r.ledger.latest ≡ some s
    pub settled :
        {s : StatusSpec}
        → r.outcome ≡ returned s
        → options.loop.abort_when.max_iterations_reached ≡ true
        → 0 < max_iterations options
        → s.decision.should_continue ≡ false

  -- The run threw with the trace as found.
  pub record HasNotStarted (r : RunState W) : Type 0 where
    pub message : String
    pub thrown : r.outcome ≡ threw message
    pub empty : r.ledger.trace ≡ found.trace

  abbrev pub IsRun : RunState W → Type 0
  IsRun r = HasNotStarted r ⊎ HasStarted r

  after_first-IsRun :
      (baseline : Option WorkspaceSnapshot) (written : Written W)
      → IsWritten (initial_status options) found written
      → HasStarted (after_first host options baseline written)
  unfolding after_first
  after_first-IsRun baseline written done =
      let first = initial_status options in
      let l =
        loop-IsLoop host options baseline (max_iterations options) 1 first none start_state
          written.ledger written.world in
      rw (done.done, after_first)
        (record {
          passes = l.passes;
          split =
              l.split
              ∙ ap (λ t. t ++ l.passes) done.traced
              ∙ append_assoc found.trace (first ∷ []) l.passes;
          chain = l.chain;
          short = l.short;
          each = l.each;
          ends = l.ends;
          latest = l.latest done.latest;
          settled = λ e on some_left. l.settled e on some_left (omega arith);
        })

  after_first_throw-IsRun :
      (baseline : Option WorkspaceSnapshot) (written : Written W)
      → IsThrown (initial_status options) found written
      → IsRun (after_first host options baseline written)
  unfolding after_first
  after_first_throw-IsRun baseline written thrown =
      rw (thrown.thrown, after_first)
        (elim (between-traced thrown.between) [
          | inl same ↦ inl (record { message = thrown.message; thrown = refl; empty = same })
          | inr longer ↦ inr (record {
            passes = [];
            split = longer;
            chain = tt;
            short = omega arith;
            each = tt;
            ends = λ e. cc;
            latest = λ e. cc;
            settled = λ e _ _. cc;
          })
        ])

  run_initialized-IsRun : (w : W) → IsRun (run_initialized host options found w)
  unfolding run_initialized
  run_initialized-IsRun w =
      elim (write_status_cases host options.run_dir (initial_status options) found w) [
        | inl done ↦ inr (after_first-IsRun _ _ done)
        | inr thrown ↦ after_first_throw-IsRun _ _ thrown
      ]

  pub run-IsRun : (w : W) → IsRun (run host options found w)
  unfolding run
  run-IsRun w =
      elim (Attempt-cases (host.write_file (cat (options.run_dir ∷ "/evidence" ∷ [])) w)) [
        | inl (w', e) ↦ rw (e, run) (run_initialized-IsRun w')
        | inr (message, e) ↦
            rw (e, run) (inl (record { message = message; thrown = refl; empty = refl }))
      ]
