-- ===== src/Patch.antt =====
-- Patches, src/core/patch.
pub mod Hunks
pub mod Transaction
pub mod Anchors
pub mod Applier
pub mod Quality
pub mod Declarations
pub mod Validator
pub mod Parser
mod Tests
