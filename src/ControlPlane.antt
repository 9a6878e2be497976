-- ===== src/ControlPlane.antt =====
-- The Canopus convergence runtime, src/core/controlPlane.
pub mod Specs
pub mod Paths
pub mod Workspace
pub mod Host
pub mod Effects
pub mod Attempts
pub mod StatusStore
pub mod Gates
pub mod Evaluator
pub mod Decision
pub mod Status
pub mod Pass
pub mod Controller
mod Samples
mod Tests
mod PartTests
