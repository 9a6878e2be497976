-- ===== src/ControlPlane/Controller/Laws.antt =====
-- The reconciliation loop as a whole: its ledger, its end and its verdicts.
use mathlib.Core.List.{append-nil, append_assoc}
use native.Mathlib.Decide.{dec_lt}
use tomorrowedge.Prelude.{
  subst, ℕ, zero, suc, ◌+◌, ◌≤◌, ◌<◌, String, ◌≡◌, refl, sym, ◌∙◌, ap, true, false, Option, some,
  List, [], ◌∷◌, ◌++◌, inl, inr, All, length, is_empty, arith, Bool-cases,
}
use tomorrowedge.ControlPlane.Specs.{EvaluationResult, StatusSpec, Attempt, returned, threw}
use tomorrowedge.ControlPlane.Effects.{OnReturn}
use tomorrowedge.ControlPlane.Workspace.{WorkspaceSnapshot}
use tomorrowedge.ControlPlane.Host.{Host}
use tomorrowedge.ControlPlane.Decision.{DecisionState}
use tomorrowedge.ControlPlane.StatusStore.{Ledger, Written}
use tomorrowedge.ControlPlane.StatusStore.Laws.{
  IsWritten, IsThrown, between-traced, write_status_cases,
}
use tomorrowedge.ControlPlane.Status.{RunOptions, Round, max_iterations}
use tomorrowedge.ControlPlane.Controller.{RunState, after_write, after_round, loop}
use tomorrowedge.ControlPlane.Pass.Laws.{IsRound, round-IsRound}

-- The passes are numbered from `n`, and each but the last says that the run goes on.
abbrev pub IsChain : ℕ → List StatusSpec → Type 0
IsChain n [] = Unit
IsChain n (s ∷ ss) =
    (s.iteration ≡ n)
    × (is_empty ss ≡ false → s.decision.should_continue ≡ true)
    × IsChain (n + 1) ss

abbrev pub last_of : StatusSpec → List StatusSpec → StatusSpec
last_of s [] = s
last_of s (t ∷ ts) = last_of t ts

module _ {W : Type 0} (host : Host W) (options : RunOptions) where
  -- A status that a pass of the loop has written.
  pub record IsPass (status : StatusSpec) : Type 0 where
    pub made : Round
    pub written : made.status ≡ status
    pub kept : IsRound host options status.iteration made

  -- What the loop adds to the ledger, from pass `n` on with `left` passes to go.
  pub record IsLoop (n left : ℕ) (last : StatusSpec) (before : Ledger) (r : RunState W)
      : Type 0 where
    pub passes : List StatusSpec
    pub split : r.ledger.trace ≡ before.trace ++ passes
    pub chain : IsChain n passes
    pub short : length passes ≤ left
    pub each : All IsPass passes
    pub ends : {s : StatusSpec} → r.outcome ≡ returned s → last_of last passes ≡ s
    pub latest :
        {s : StatusSpec}
        → before.latest ≡ some last
        → r.outcome ≡ returned s
        → r.ledger.latest ≡ some s
    pub settled :
        {s : StatusSpec}
        → r.outcome ≡ returned s
        → options.loop.abort_when.max_iterations_reached ≡ true
        → 0 < left
        → n + left ≡ max_iterations options + 1
        → s.decision.should_continue ≡ false

  module _ (n left : ℕ) (last : StatusSpec) (before : Ledger) where
    stops_unwritten :
        (r : RunState W) {message : String}
        → r.ledger.trace ≡ before.trace
        → r.outcome ≡ threw message
        → IsLoop n left last before r
    stops_unwritten r same thrown = record {
      passes = [];
      split = same ∙ sym (append-nil before.trace);
      chain = tt;
      short = omega arith;
      each = tt;
      ends = λ e. cc;
      latest = λ _ e. cc;
      settled = λ e _ _ _. cc;
    }

    -- The pass is the last one: the loop is left, or its status was written in part.
    stops_written :
        (r : RunState W) (s : StatusSpec)
        → r.ledger.trace ≡ before.trace ++ s ∷ []
        → s.iteration ≡ n
        → 0 < left
        → IsPass s
        → ((t : StatusSpec)
            → r.outcome ≡ returned t
            → (s ≡ t) × (t.decision.should_continue ≡ false) × (r.ledger.latest ≡ some t))
        → IsLoop n left last before r
    stops_written r s traced numbered some_left pass ends = record {
      passes = s ∷ [];
      split = traced;
      chain = (numbered, (λ k. cc), tt);
      short = omega arith;
      each = (pass, tt);
      ends = λ {s} e. (ends s e).0;
      latest = λ {s} _ e. (ends s e).2;
      settled = λ {s} e _ _ _. (ends s e).1;
    }

  IsPass-of : (n : ℕ) (r : Round) → IsRound host options n r → IsPass r.status
  IsPass-of n r kept = record {
    made = r;
    written = refl;
    kept = subst (λ k. IsRound host options k r) (sym kept.numbered) kept;
  }

  room_of :
      (n : ℕ) (r : Round)
      → IsRound host options n r
      → r.stop ≡ false
      → options.loop.abort_when.max_iterations_reached ≡ true
      → n < max_iterations options
  room_of n r kept more on = elim (dec_lt n (max_iterations options)) [
    | yes h ↦ h
    | no h ↦ let stop = kept.limited on (omega arith) in absurd (cc)
  ]

  -- A pass goes before the passes of the rest.
  goes_before :
      (n left : ℕ) (last s : StatusSpec) (before between : Ledger) (r : RunState W)
      → between.trace ≡ before.trace ++ s ∷ []
      → between.latest ≡ some s
      → s.iteration ≡ n
      → s.decision.should_continue ≡ true
      → IsPass s
      → (options.loop.abort_when.max_iterations_reached ≡ true → n < max_iterations options)
      → IsLoop (n + 1) left s between r
      → IsLoop n (suc left) last before r
  goes_before n left last s before between r traced latest numbered more pass room rest = record {
    passes = s ∷ rest.passes;
    split =
        rest.split
        ∙ ap (λ l. l ++ rest.passes) traced
        ∙ append_assoc before.trace (s ∷ []) rest.passes;
    chain = (numbered, (λ _. more), rest.chain);
    short = omega (arith, rest.short);
    each = (pass, rest.each);
    ends = rest.ends;
    latest = λ _. rest.latest latest;
    settled = λ e on _ count. rest.settled e on (omega (arith, room on)) (omega arith);
  }

  module _ (n left : ℕ) (last : StatusSpec) (ledger : Ledger) where
    abbrev Goes : Round → (Ledger → W → RunState W) → Type 0
    Goes r next = (ledger' : Ledger) (w : W) → IsLoop (n + 1) left r.status ledger' (next ledger' w)

    after_write-IsLoop :
        (r : Round) (next : Ledger → W → RunState W) (written : Written W)
        → IsRound host options n r
        → Goes r next
        → IsWritten r.status ledger written
        → IsLoop n (suc left) last ledger (after_write host options r next written)
    unfolding after_write
    after_write-IsLoop r next written kept goes done =
        rw (done.done, after_write)
          (elim (Bool-cases r.stop) [
            | inl stop ↦
                rw (stop, after_write)
                  (stops_written n (suc left) last ledger _ r.status done.traced kept.numbered
                    (omega arith) (IsPass-of n r kept)
                    (λ t e.
                      (ground arith, ground (arith, kept.stops), ground (arith, done.latest))))
            | inr more ↦
                rw (more, after_write)
                  (goes_before n left last r.status ledger written.ledger _ done.traced done.latest
                    kept.numbered (ground (arith, kept.stops)) (IsPass-of n r kept)
                    (room_of n r kept more) (goes written.ledger written.world))
          ])

    after_throw-IsLoop :
        (r : Round) (next : Ledger → W → RunState W) (written : Written W)
        → IsRound host options n r
        → IsThrown r.status ledger written
        → IsLoop n (suc left) last ledger (after_write host options r next written)
    unfolding after_write
    after_throw-IsLoop r next written kept thrown =
        rw (thrown.thrown, after_write)
          (elim (between-traced thrown.between) [
            | inl same ↦ stops_unwritten n (suc left) last ledger _ same refl
            | inr longer ↦
                stops_written n (suc left) last ledger _ r.status longer kept.numbered (omega arith)
                  (IsPass-of n r kept) (λ t e. cc)
          ])

    after_round-IsLoop :
        (next : Round → Ledger → W → RunState W) (made : W × Attempt Round)
        → OnReturn (IsRound host options n) made
        → ((r : Round) → Goes r (next r))
        → IsLoop n (suc left) last ledger (after_round host options next ledger made)
    unfolding after_round
    after_round-IsLoop next (w, threw message) kept goes =
        stops_unwritten n (suc left) last ledger _ refl refl
    after_round-IsLoop next (w, returned r) kept goes =
        elim (write_status_cases host options.run_dir r.status ledger w) [
          | inl done ↦ after_write-IsLoop r (next r) _ kept (goes r) done
          | inr thrown ↦ after_throw-IsLoop r (next r) _ kept thrown
        ]

  pub loop-IsLoop :
      (baseline : Option WorkspaceSnapshot) (left n : ℕ) (last : StatusSpec)
      (previous : Option EvaluationResult) (state : DecisionState) (ledger : Ledger) (w : W)
      → IsLoop n left last ledger (loop host options baseline left n last previous state ledger w)
  unfolding loop
  loop-IsLoop baseline zero n last previous state ledger w = record {
    passes = [];
    split = sym (append-nil ledger.trace);
    chain = tt;
    short = omega arith;
    each = tt;
    ends = λ e. ground arith;
    latest = λ h e. ground arith;
    settled = λ e on none_left. absurd (omega arith);
  }
  loop-IsLoop baseline (suc left) n last previous state ledger w =
      after_round-IsLoop n left last ledger _ _
        (round-IsRound host options baseline n last previous state w)
        (λ r ledger' w'.
          loop-IsLoop baseline left (n + 1) r.status (some r.evaluation) r.state ledger' w')
