-- ===== src/ControlPlane/Status/Evidence.antt =====
-- What a status takes from an evaluation, src/core/controlPlane/controller.ts.
use tomorrowedge.Prelude.{
  ℕ, String, Bool, true, false, none, some, List, [], ◌∷◌, ◌++◌, map, filter, cat, show, or_else,
  ltb, if◌then◌else◌, ◌==◌,
}
use tomorrowedge.ControlPlane.Specs.{
  GateType, GoalSpec, EvalSpec, LoopSpec, GateSpec, GateResult, EvaluationResult, ActionResult,
  skipped,
}

-- The options of a run; `run_dir` is the store's directory.
pub record RunOptions : Type 0 where
  pub run_id : String
  pub run_dir : String
  pub goal : GoalSpec
  pub evaluation : EvalSpec
  pub loop : LoopSpec

abbrev pub empty_action : String → ActionResult
empty_action adapter_id = record {
  status = skipped;
  summary = cat ("No " ∷ adapter_id ∷ " action was applied before evaluation." ∷ []);
  changed_files = [];
  commands_run = [];
  artifacts = [];
  budget_exhausted = false;
  error = none;
}

abbrev is_test : GateType → Bool
is_test GateType.test = true
is_test _ = false

unfoldable pub test_commands : EvalSpec → List String
test_commands spec =
    map (λ (gate : GateSpec). or_else gate.command gate.id)
      (filter (λ (gate : GateSpec). is_test gate.type) spec.hard_gates)

-- A command that is the empty text is left out, as one that is absent.
hard_commands_of : List GateSpec → List String
hard_commands_of [] = []
hard_commands_of (gate ∷ gates) = elim gate.command [
  | none ↦ hard_commands_of gates
  | some c ↦ if c == "" then hard_commands_of gates else c ∷ hard_commands_of gates
]

unfoldable pub hard_gate_commands : EvalSpec → List String
unfolding hard_commands_of
hard_gate_commands spec = hard_commands_of spec.hard_gates

logs_of : List GateResult → List (String × String)
logs_of [] = []
logs_of (gate ∷ gates) = elim gate.raw_output_path [
  | none ↦ logs_of gates
  | some path ↦ if path == "" then logs_of gates else (gate.id, path) ∷ logs_of gates
]

abbrev pub all_results : EvaluationResult → List GateResult
all_results e = e.hard_gate_results ++ e.soft_gate_results

unfoldable pub gate_logs : EvaluationResult → List (String × String)
unfolding logs_of
gate_logs e = logs_of (all_results e)

-- `String(iteration).padStart(3, "0")`
pad_iteration : ℕ → String
pad_iteration n =
    if ltb n 10
    then cat ("00" ∷ show n ∷ [])
    else if ltb n 100
    then cat ("0" ∷ show n ∷ [])
    else show n

unfoldable pub evidence_dir : String → ℕ → String
unfolding pad_iteration
evidence_dir run_dir iteration =
    cat (run_dir ∷ "/evidence/iteration_" ∷ pad_iteration iteration ∷ [])
