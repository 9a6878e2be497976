-- ===== src/ControlPlane/StatusStore.antt =====
-- The run ledger, src/core/controlPlane/statusStore.ts: `writeStatus` appends the status to
-- trace.jsonl and replaces status.latest.json and progress.md. The JSON text is left out.
pub mod Laws
use tomorrowedge.Prelude.{
  String, Bool, true, false, Option, none, some, List, [], ◌∷◌, ◌++◌, map, is_empty, cat, join,
  show, if◌then◌else◌,
}
use tomorrowedge.ControlPlane.Specs.{
  GateType, command, test, lint, typecheck, static_analysis, file_exists, diff_required,
  no_regression, checker_agent, architecture_review, security_review, regression_review, GateResult,
  StatusPhase, initialized, observing, acting, evaluating, converged, failed, aborted,
  EvaluationPhase, pre_action, post_action, DiffBasis, run_baseline, git_status, snapshot,
  StatusSpec, Attempt, returned, threw,
}
use tomorrowedge.ControlPlane.Host.{Left, Host}

abbrev gate_type_text : GateType → String
gate_type_text command = "command"
gate_type_text test = "test"
gate_type_text lint = "lint"
gate_type_text typecheck = "typecheck"
gate_type_text static_analysis = "static_analysis"
gate_type_text file_exists = "file_exists"
gate_type_text diff_required = "diff_required"
gate_type_text no_regression = "no_regression"
gate_type_text checker_agent = "checker_agent"
gate_type_text architecture_review = "architecture_review"
gate_type_text security_review = "security_review"
gate_type_text regression_review = "regression_review"

abbrev phase_text : StatusPhase → String
phase_text initialized = "initialized"
phase_text observing = "observing"
phase_text acting = "acting"
phase_text evaluating = "evaluating"
phase_text converged = "converged"
phase_text failed = "failed"
phase_text aborted = "aborted"

abbrev evaluation_phase_text : Option EvaluationPhase → String
evaluation_phase_text none = "n/a"
evaluation_phase_text (some pre_action) = "pre_action"
evaluation_phase_text (some post_action) = "post_action"

abbrev diff_basis_text : DiffBasis → String
diff_basis_text run_baseline = "run_baseline"
diff_basis_text git_status = "git_status"
diff_basis_text snapshot = "snapshot"

abbrev bullet_list : List String → List String
bullet_list items =
    if is_empty items then "- none" ∷ [] else map (λ item. cat ("- " ∷ item ∷ [])) items

gate_line : GateResult → String
gate_line gate = cat (
    "- "
    ∷ (if gate.passed then "[x]" else "[ ]")
    ∷ " "
    ∷ gate.id
    ∷ " ("
    ∷ gate_type_text gate.type
    ∷ "): "
    ∷ gate.summary
    ∷ [])

-- `renderProgressMarkdown`
unfoldable pub render_progress_markdown : StatusSpec → String
unfolding gate_line
render_progress_markdown status =
    let gates = status.evidence.gate_results in
    join "\n" (
      ("# Run status"
        ∷ ""
        ∷ cat ("- Goal: " ∷ status.goal_id ∷ [])
        ∷ cat ("- Run: " ∷ status.run_id ∷ [])
        ∷ cat ("- Current iteration: " ∷ show status.iteration ∷ [])
        ∷ cat ("- Phase: " ∷ phase_text status.phase ∷ [])
        ∷ cat ("- Evaluation phase: " ∷ evaluation_phase_text status.evaluation_phase ∷ [])
        ∷ cat ("- Diff basis: " ∷ diff_basis_text status.observed_state.diff_basis ∷ [])
        ∷ ""
        ∷ "## Satisfied conditions"
        ∷ bullet_list status.diff.satisfied_conditions)
      ++ ("" ∷ "## Missing conditions" ∷ bullet_list status.diff.missing_conditions)
      ++ ("" ∷ "## Gate results" ∷ (if is_empty gates then "- none" ∷ [] else map gate_line gates))
      ++ ("" ∷ "## Current blockers" ∷ bullet_list status.observed_state.unresolved_blockers)
      ++ (""
          ∷ "## Next action"
          ∷ elim status.decision.next_action [
            | none ↦ "- none"
            | some next ↦ cat ("- " ∷ next ∷ [])
          ]
          ∷ ""
          ∷ "## Final verdict if stopped"
          ∷ cat (
              "- "
              ∷ (if status.decision.should_continue then "running" else status.decision.reason)
              ∷ [])
          ∷ ""
          ∷ []))

-- The three files: the statuses of which the whole text stands in the trace, the oldest first, the
-- latest status and its report. `torn` is whether a text that was cut off stands in the trace, too;
-- the text that is appended next stands on the same line.
pub record Ledger : Type 0 where
  pub trace : List StatusSpec
  pub latest : Option StatusSpec
  pub progress : Option String
  pub torn : Bool

abbrev pub empty_ledger : Ledger
empty_ledger = record { trace = []; latest = none; progress = none; torn = false }

pub record Written (W : Type 0) : Type 0 where
  pub world : W
  pub ledger : Ledger
  pub outcome : Attempt (Unit {0})

abbrev ledger_left : Left → Ledger → Ledger → Ledger → Ledger
ledger_left Left.unchanged before cut after = before
ledger_left Left.cut_off before cut after = cut
ledger_left Left.whole before cut after = after

module _ {W : Type 0} (host : Host W) (run_dir : String) (status : StatusSpec) where
  -- One write, what the ledger is when it is cut off and when it has succeeded; `next` goes on from
  -- there.
  abbrev write_then : String → Ledger → Ledger → (Ledger → W → Written W) → Ledger → W → Written W
  write_then name cut after next before w = elim (host.write_file (cat (run_dir ∷ name ∷ [])) w) [
    | threw message ↦ record {
      world = w;
      ledger = ledger_left (host.left_behind (cat (run_dir ∷ name ∷ [])) w) before cut after;
      outcome = threw message;
    }
    | returned w' ↦ next after w'
  ]

  -- A file that is written atomically is replaced whole or kept.
  write_progress : Ledger → W → Written W
  write_progress ledger =
      write_then "/progress.md" ledger
        (record ledger { progress = some (render_progress_markdown status) })
        (λ done w. record { world = w; ledger = done; outcome = returned tt }) ledger

  write_latest : Ledger → W → Written W
  unfolding write_progress
  write_latest ledger =
      write_then "/status.latest.json" ledger (record ledger { latest = some status })
        write_progress ledger

  append_trace : Ledger → W → Written W
  unfolding write_latest
  append_trace ledger =
      write_then "/trace.jsonl" (record ledger { torn = true })
        (record ledger { trace = ledger.trace ++ status ∷ [] }) write_latest ledger

  -- The directory is made first.
  unfoldable pub write_status : Ledger → W → Written W
  unfolding append_trace
  write_status ledger = write_then "/evidence" ledger ledger append_trace ledger
