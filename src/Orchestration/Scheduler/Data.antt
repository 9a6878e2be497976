-- ===== src/Orchestration/Scheduler/Data.antt =====
-- The states and results of roles, src/core/orchestration/roleGraphScheduler.ts.
use tomorrowedge.Prelude.{ℕ, String, Bool, true, false, Option, List}
use tomorrowedge.Roles.{AgentRole}
use tomorrowedge.Orchestration.RoleGraph.{RoleGraph}

pub data ResultStatus : Type 0 where
  success failed blocked skipped : ResultStatus

pub data ExecutionStatus : Type 0 where
  pending ready running : ExecutionStatus
  ended : ResultStatus → ExecutionStatus

pub record RoleNodeExecution : Type 0 where
  pub node_id : String
  pub role : AgentRole
  pub status : ExecutionStatus
  pub attempts : ℕ
  pub summary : Option String
  pub artifacts : List String
  pub evidence : List String
  pub error : Option String

pub record RoleNodeResult : Type 0 where
  pub node_id : Option String
  pub role : AgentRole
  pub status : ResultStatus
  pub summary : String
  pub artifacts : List String
  pub evidence : List String
  pub error : Option String

-- The table of the nodes is a list of entries, found by their ids.
pub record RoleGraphExecutionState : Type 0 where
  pub graph : RoleGraph
  pub nodes : List RoleNodeExecution
  pub results : List RoleNodeResult
  pub stop_reason : Option String

abbrev pub is_waiting : ExecutionStatus → Bool
is_waiting pending = true
is_waiting ready = true
is_waiting _ = false

abbrev pub is_pending : ExecutionStatus → Bool
is_pending pending = true
is_pending _ = false

abbrev pub is_running : ExecutionStatus → Bool
is_running running = true
is_running _ = false

abbrev pub is_ended : ExecutionStatus → Bool
is_ended (ended _) = true
is_ended _ = false

abbrev pub is_ended_as_failure : ExecutionStatus → Bool
is_ended_as_failure (ended failed) = true
is_ended_as_failure (ended blocked) = true
is_ended_as_failure _ = false
