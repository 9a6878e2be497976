-- ===== src/ControlPlane/Gates.antt =====
-- The acceptance gates, src/core/controlPlane/gates.ts. A gate runs in a state of the world and
-- leaves another; what it throws is caught and makes it fail. The text of the log files, and the
-- durations in it, are left out.
pub mod Laws
use Prim.Native.Char.{code}
use tomorrowedge.Prelude.{
  ℕ, ◌*◌, String, Bool, true, false, not, ◌&&◌, ◌||◌, Option, none, some, List, length, filter, cat,
  show, eqb, leb, if◌then◌else◌, is_empty, [], ◌∷◌, or_else,
}
use tomorrowedge.ControlPlane.Specs.{
  GateType, command, test, lint, typecheck, static_analysis, file_exists, diff_required,
  no_regression, GateSpec, GateResult, EvaluationResult, ObservedWorkspaceState, returned, threw,
}
use tomorrowedge.ControlPlane.Host.{CommandResult, Host}

pub record GateContext : Type 0 where
  pub evidence_dir : String
  pub observed : ObservedWorkspaceState
  pub previous_evaluation : Option EvaluationResult
  pub current_gate_results : List GateResult

abbrev pub is_failure : GateResult → Bool
is_failure gate = gate.required && not gate.passed

unfoldable pub failed_gate : GateSpec → String → GateResult
failed_gate spec error = record {
  id = spec.id;
  type = spec.type;
  required = spec.required;
  passed = false;
  score = some 0;
  summary = error;
  evidence_path = none;
  raw_output_path = none;
  error = some error;
}

abbrev is_safe_char : ℕ → Bool
is_safe_char c =
    leb b'a' c && leb c b'z'
    || leb b'A' c && leb c b'Z'
    || leb b'0' c && leb c b'9'
    || eqb c b'_'
    || eqb c b'.'
    || eqb c b'-'

-- `replace(/[^a-zA-Z0-9_.-]+/g, "_")`; the first argument says that a run of others is open.
safe_id_from : Bool → String → String
safe_id_from open_run String.[] = ""
safe_id_from open_run (String.◌∷◌ c s) =
    let kept = String.◌∷◌ c (safe_id_from false s) in
    let merged = safe_id_from true s in
    let fresh = String.◌∷◌ "_" (safe_id_from true s) in
    if is_safe_char (code c) then kept else if open_run then merged else fresh

unfoldable pub log_path : String → String → String → String
unfolding safe_id_from
log_path evidence_dir gate_id extension =
    cat (evidence_dir ∷ "/" ∷ safe_id_from false gate_id ∷ "." ∷ extension ∷ [])

-- A verdict with its log at `path`.
verdict : GateSpec → Bool → String → Option String → String → GateResult
verdict spec passed summary error path = record {
  id = spec.id;
  type = spec.type;
  required = spec.required;
  passed = passed;
  score = some (if passed then 100 else 0);
  summary = summary;
  evidence_path = some path;
  raw_output_path = some path;
  error = error;
}

abbrev count_failures : List GateResult → ℕ
count_failures results = length (filter is_failure results)

-- `previousFailed === Infinity || currentFailed <= previousFailed`
unfoldable pub no_regression_passes : Option EvaluationResult → List GateResult → Bool
no_regression_passes none current = true
no_regression_passes (some previous) current =
    leb (count_failures current) (count_failures previous.hard_gate_results)

module _ {W : Type 0} (host : Host W) where
  -- `writeGateLog` and what the gate returns, or what its `catch` returns.
  logged : GateContext → GateSpec → String → String → (String → GateResult) → W → W × GateResult
  unfolding failed_gate log_path
  logged context spec extension label result w =
      let path = log_path context.evidence_dir spec.id extension in
      elim (host.write_file path w) [
        | returned w' ↦ (w', result path)
        | threw message ↦ (w, failed_gate spec (cat (label ∷ " gate failed: " ∷ message ∷ [])))
      ]

  command_verdict : GateSpec → String → CommandResult → String → GateResult
  unfolding verdict
  command_verdict spec type_name result path =
      let passed = eqb result.exit_code 0 && not result.timed_out in
      verdict spec passed
        (if passed
          then cat (type_name ∷ " gate passed" ∷ [])
          else cat (type_name ∷ " gate failed with exit code " ∷ show result.exit_code ∷ []))
        (if result.timed_out
          then some (cat ("timed out after " ∷ show spec.timeout_sec ∷ "s" ∷ []))
          else none)
        path

  run_command_gate : String → GateContext → GateSpec → W → W × GateResult
  unfolding logged command_verdict failed_gate
  run_command_gate type_name context spec w =
      let command = or_else spec.command "" in
      let (w', outcome) = host.run_command command (spec.timeout_sec * 1000) w in
      elim outcome [
        | returned result ↦
            logged context spec "log" "command" (command_verdict spec type_name result) w'
        | threw message ↦ (w', failed_gate spec (cat ("command gate failed: " ∷ message ∷ [])))
      ]

  run_file_exists_gate : GateContext → GateSpec → W → W × GateResult
  unfolding logged verdict
  run_file_exists_gate context spec w =
      let target = or_else spec.path "" in
      let passed = host.exists w target in
      logged context spec "log" "file_exists"
        (verdict spec passed
          (cat ((if passed then "file exists: " else "missing file: ") ∷ target ∷ []))
          (if passed then none else some (cat ("missing file: " ∷ target ∷ []))))
        w

  run_diff_required_gate : GateContext → GateSpec → W → W × GateResult
  unfolding logged verdict
  run_diff_required_gate context spec w =
      let changed = context.observed.files_changed in
      let passed = not (is_empty changed) in
      logged context spec "json" "diff_required"
        (verdict spec passed
          (if passed
            then cat (show (length changed) ∷ " changed file(s) detected" ∷ [])
            else "no workspace diff detected")
          (if passed then none else some "no diff exists"))
        w

  run_no_regression_gate : GateContext → GateSpec → W → W × GateResult
  unfolding logged verdict no_regression_passes
  run_no_regression_gate context spec w =
      let passed = no_regression_passes context.previous_evaluation context.current_gate_results in
      logged context spec "json" "no_regression"
        (verdict spec passed
          (if passed then "no hard-gate regression detected" else "hard-gate regression detected")
          (if passed then none else some "regression detected"))
        w

  -- The checker's `catch` words its message in its own way.
  run_checker_gate : GateContext → GateSpec → W → W × GateResult
  unfolding verdict failed_gate log_path
  run_checker_gate context spec w =
      let path = log_path context.evidence_dir spec.id "json" in
      let summary =
        if is_empty (filter is_failure context.current_gate_results)
        then "checker stub passed"
        else "checker stub passed softly, but hard-gate failures remain authoritative" in
      elim (host.write_file path w) [
        | returned w' ↦ (w', verdict spec true summary none path)
        | threw message ↦
            (w, failed_gate spec (cat ("review_agent advisory check failed: " ∷ message ∷ [])))
      ]

  -- `createGate(spec).run(context)`
  unfoldable pub run_gate_of : GateType → GateContext → GateSpec → W → W × GateResult
  unfolding run_command_gate run_file_exists_gate run_diff_required_gate run_no_regression_gate
      run_checker_gate
  run_gate_of command = run_command_gate "command"
  run_gate_of test = run_command_gate "test"
  run_gate_of lint = run_command_gate "lint"
  run_gate_of typecheck = run_command_gate "typecheck"
  run_gate_of static_analysis = run_command_gate "static_analysis"
  run_gate_of file_exists = run_file_exists_gate
  run_gate_of diff_required = run_diff_required_gate
  run_gate_of no_regression = run_no_regression_gate
  run_gate_of _ = run_checker_gate

  unfoldable pub run_gate : GateContext → GateSpec → W → W × GateResult
  unfolding run_gate_of
  run_gate context spec w = run_gate_of spec.type context spec w
