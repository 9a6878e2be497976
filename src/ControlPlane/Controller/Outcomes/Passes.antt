-- ===== src/ControlPlane/Controller/Outcomes/Passes.antt =====
-- What the passes of a run end in.
use tomorrowedge.Prelude.{
  ℕ, ◌+◌, ◌≡◌, ◌≢◌, true, false, some, List, [], ◌∷◌, ◌++◌, ◌⊎◌, inl, inr, All, length, arith, Memᴰ,
  subst,
}
use tomorrowedge.ControlPlane.Specs.{GateResult, StatusSpec, converged, aborted, post_action}
use tomorrowedge.ControlPlane.Paths.{find_denied_path_violations, find_allowed_path_violations}
use tomorrowedge.ControlPlane.Host.{Host}
use tomorrowedge.ControlPlane.Evaluator.{has_evidence}
use tomorrowedge.ControlPlane.Evaluator.Conditions.{AllRequired}
use tomorrowedge.ControlPlane.Evaluator.Laws.{AreVerdictsOf, IsEvaluation}
use tomorrowedge.ControlPlane.Decision.Laws.{Converges}
use tomorrowedge.ControlPlane.Status.{RunOptions, initial_status}
use tomorrowedge.ControlPlane.Pass.Laws.{IsRound}
use tomorrowedge.ControlPlane.Controller.Laws.{IsChain, last_of, IsPass}

pub last_of-IsChain :
    (n : ℕ) (s : StatusSpec) (ss : List StatusSpec)
    → s.iteration + 1 ≡ n
    → IsChain n ss
    → (last_of s ss).iteration + 1 ≡ n + length ss
last_of-IsChain n s [] e h = omega arith
last_of-IsChain n s (t ∷ ts) e h =
    omega (arith, last_of-IsChain (n + 1) t ts (omega (arith, h.0)) h.2)

pub last_of-All :
    (P : StatusSpec → Type 0) (s : StatusSpec) (ss : List StatusSpec)
    → P s
    → All P ss
    → P (last_of s ss)
last_of-All P s [] h k = h
last_of-All P s (t ∷ ts) h k = last_of-All P t ts k.0 k.1

module _ {W : Type 0} (host : Host W) (options : RunOptions) where
  -- The verdict of a pass that has converged, read off its status.
  pub record IsConvergence (s : StatusSpec) : Type 0 where
    pub blocking : List GateResult
    pub advisory : List GateResult
    pub recorded : s.evidence.gate_results ≡ blocking ++ advisory
    pub verdicts : AreVerdictsOf options.evaluation.hard_gates blocking
    pub advised : AreVerdictsOf options.evaluation.soft_gates advisory
    pub passed :
        options.loop.stop_when.all_hard_gates_pass ≡ true
        → AllRequired (λ gate. gate.passed ≡ true) blocking
    pub evidenced :
        options.evaluation.evidence_required ≡ true
        → AllRequired (λ gate. has_evidence gate ≡ true) blocking
    pub unblocked :
        options.loop.stop_when.no_unresolved_blockers ≡ true
        → s.observed_state.unresolved_blockers ≡ []

  IsPass-IsConvergence :
      (s : StatusSpec) → IsPass host options s → s.phase ≡ converged → IsConvergence s
  IsPass-IsConvergence s pass e = subst IsConvergence pass.written (record {
    blocking = pass.made.evaluation.hard_gate_results;
    advisory = pass.made.evaluation.soft_gate_results;
    recorded = kept.recorded;
    verdicts = is.gates;
    advised = is.advisory;
    passed = λ on. is.hard.0 (c.hard on);
    evidenced = is.evidence.0 c.evidence;
    unblocked = c.unblocked;
  })
    where
      kept : IsRound host options s.iteration pass.made
      kept = pass.kept

      c :
          Converges options.loop pass.made.evaluation
            pass.made.status.observed_state.unresolved_blockers
      c = kept.sound (cc (pass.written))

      is :
          IsEvaluation
            (host.exists kept.evaluated.world)
            options.goal
            options.evaluation
            kept.evaluated.observed
            pass.made.evaluation
      is = kept.evaluated.evaluated

  pub initial-not-converged : (initial_status options).phase ≢ converged
  unfolding initial_status
  initial-not-converged = λ e. cc

  pub passes-IsConvergence :
      (ss : List StatusSpec)
      → All (IsPass host options) ss
      → All (λ t. t.phase ≡ converged → IsConvergence t) ss
  passes-IsConvergence [] h = tt
  passes-IsConvergence (t ∷ ts) h = (IsPass-IsConvergence t h.0, passes-IsConvergence ts h.1)

abbrev pub Ends : StatusSpec → Type 0
Ends s = s.decision.should_continue ≡ false → (s.phase ≡ converged) ⊎ (s.phase ≡ aborted)

abbrev pub Aborts : RunOptions → StatusSpec → Type 0
Aborts options s =
    s.evaluation_phase ≡ some post_action
    → (find_denied_path_violations s.observed_state.files_changed
          options.goal.constraints.denied_paths
        ≢ [])
      ⊎ (find_allowed_path_violations s.observed_state.files_changed
            options.goal.constraints.allowed_paths
          ≢ [])
    → s.phase ≡ aborted

module _ (options : RunOptions) where
  pub initial-Ends : Ends (initial_status options)
  unfolding initial_status
  initial-Ends = λ e. cc

  pub initial-Aborts : Aborts options (initial_status options)
  unfolding initial_status
  initial-Aborts = λ e _. cc

  pub initial-numbered : (initial_status options).iteration + 1 ≡ 1
  unfolding initial_status
  initial-numbered = omega arith

module _ {W : Type 0} (host : Host W) (options : RunOptions) where
  IsPass-Ends : (s : StatusSpec) → IsPass host options s → Ends s
  IsPass-Ends s pass = subst Ends pass.written λ e. pass.kept.ends (ground (arith, pass.kept.stops))

  pub passes-Ends : (ss : List StatusSpec) → All (IsPass host options) ss → All Ends ss
  passes-Ends [] h = tt
  passes-Ends (t ∷ ts) h = (IsPass-Ends t h.0, passes-Ends ts h.1)

  IsPass-Aborts : (s : StatusSpec) → IsPass host options s → Aborts options s
  IsPass-Aborts s pass = subst (Aborts options) pass.written λ acted violated. elim violated [
    | inl denied ↦ pass.kept.denied_aborts acted denied
    | inr outside ↦ pass.kept.outside_aborts acted outside
  ]

  pub passes-Aborts :
      (ss : List StatusSpec) → All (IsPass host options) ss → All (Aborts options) ss
  passes-Aborts [] h = tt
  passes-Aborts (t ∷ ts) h = (IsPass-Aborts t h.0, passes-Aborts ts h.1)

pub none_in {ℓ} : {A : Type ℓ} {x : A} {B : Type 0} → Memᴰ x [] → B
none_in m = elim m [ ]
