-- ===== src/Orchestration.antt =====
-- Which roles take part in a task and in which order, src/core/orchestration.
pub mod RoleGraph
pub mod Scheduler
mod Tests
