-- ===== src/Planning.antt =====
-- The task graphs of a plan, src/core/planning.
pub mod TaskGraph
pub mod Plan
pub mod Contract
pub mod Cycles
pub mod Inputs
pub mod Specs
pub mod Ids
pub mod Builder
pub mod Validator
pub mod Progress
pub mod Execution
mod Samples
mod Tests
