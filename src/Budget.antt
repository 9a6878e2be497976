-- ===== src/Budget.antt =====
-- The strong-agent budget, src/core/budget.
pub mod Allocator
pub mod Gate
pub mod Scope
mod Tests
