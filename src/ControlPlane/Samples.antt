-- ===== src/ControlPlane/Samples.antt =====
-- A small workspace on which the runtime is run: one file, a test that passes once the adapter has
-- changed it. `W` is the number of times that the adapter has acted.
use tomorrowedge.Prelude.{ℕ, ◌+◌, String, true, false, none, some, [], ◌∷◌, ltb, if◌then◌else◌}
use tomorrowedge.ControlPlane.Specs.{
  SuccessConditionType, GateType, GoalSpec, GateSpec, EvalSpec, LoopSpec, hard_only, success,
  returned,
}
use tomorrowedge.ControlPlane.Workspace.{Disk}
use tomorrowedge.ControlPlane.Host.{Left, Host}
use tomorrowedge.ControlPlane.Status.{RunOptions}

abbrev pub goal : GoalSpec
goal = record {
  id = "fix-bug";
  success_conditions =
      record { id = "tests"; type = SuccessConditionType.test; required = true; path = none } ∷ [];
  constraints = record {
    allowed_paths = "." ∷ [];
    denied_paths = "secrets" ∷ [];
    max_files_changed = none;
    max_iterations = none;
  };
  artifacts = [];
}

abbrev pub npm_test : GateSpec
npm_test = record {
  id = "tests";
  type = GateType.test;
  command = some "npm test";
  path = none;
  timeout_sec = 60;
  required = true;
}

abbrev pub acceptance : EvalSpec
acceptance = record {
  hard_gates = npm_test ∷ [];
  soft_gates = [];
  judge_mode = hard_only;
  min_confidence = 0;
  evidence_required = true;
}

abbrev pub policy : LoopSpec
policy = record {
  max_iterations = 3;
  stop_when = record {
    all_hard_gates_pass = true;
    all_required_conditions_met = true;
    checker_confidence_above = none;
    no_unresolved_blockers = true;
  };
  abort_when = record {
    max_iterations_reached = true;
    no_progress_rounds = 2;
    repeated_failure_rounds = 3;
    budget_exhausted = true;
  };
}

abbrev pub options : RunOptions
options = record {
  run_id = "r1";
  run_dir = ".runs/r1";
  goal = goal;
  evaluation = acceptance;
  loop = policy;
}

-- The test passes after `needed` actions; each action writes `file`.
abbrev pub workspace : ℕ → String → ℕ → Disk
workspace needed file n = record {
  entries = returned (if ltb 0 n then file ∷ "index.js" ∷ [] else "index.js" ∷ []);
  digest = λ path. path;
  digest_table = λ files. "h";
  git_stdout = none;
}

abbrev pub host : ℕ → String → Host ℕ
host needed file = record {
  disk = workspace needed file;
  exists = λ n path. true;
  write_file = λ path n. returned n;
  left_behind = λ path n. Left.cut_off;
  run_command = λ command timeout n.
      (n, returned (record { exit_code = if ltb n needed then 1 else 0; timed_out = false }));
  adapter_id = "mock";
  act = λ input n. (
    n + 1,
    returned (record {
      status = success;
      summary = "wrote";
      changed_files = [];
      commands_run = [];
      artifacts = [];
      budget_exhausted = false;
      error = none;
    }),
  );
}
