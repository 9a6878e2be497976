-- ===== src/ControlPlane/Host.antt =====
-- What the convergence runtime calls outside of the repository: the file system, the shell that
-- runs approved commands, and the adapter that acts. `W` is the state of the
-- outside world; `write_file` makes the directories of a path and writes the file.
use tomorrowedge.Prelude.{ℕ, String, Bool}
use tomorrowedge.ControlPlane.Specs.{
  GoalSpec, ObservedWorkspaceState, DesiredStateDiff, StatusSpec, ActionResult, Attempt,
}
use tomorrowedge.ControlPlane.Workspace.{Disk}

-- An exit code is the number that a shell reports, 0 on success.
pub record CommandResult : Type 0 where
  pub exit_code : ℕ
  pub timed_out : Bool

pub record ActionInput : Type 0 where
  pub goal : GoalSpec
  pub iteration : ℕ
  pub observed : ObservedWorkspaceState
  pub delta : DesiredStateDiff
  pub status : StatusSpec
  pub evidence_dir : String

-- What a write that fails has done to its file: nothing, a part, or all, as where the closing fails.
pub data Left : Type 0 where
  unchanged cut_off whole : Left

pub record Host (W : Type 0) : Type 0 where
  pub disk : W → Disk
  pub exists : W → String → Bool
  pub write_file : String → W → Attempt W
  pub left_behind : String → W → Left
  pub run_command : (command : String) (timeout_ms : ℕ) → W → W × Attempt CommandResult
  pub adapter_id : String
  pub act : ActionInput → W → W × Attempt ActionResult
