-- ===== src/Routing.antt =====
-- The routing of roles to models, src/core/routing.
pub mod Profiles
pub mod Defaults
pub mod Configured
pub mod Externals
pub mod Policies
pub mod Router
mod Tests
