-- ===== src/Agent.antt =====
-- The DeepAgent service that runs investigations for the server (deepagent/deepagent).
pub mod Catalog
pub mod Jobs
pub mod Retry
pub mod Tiers
pub mod Slots
pub mod Reach
pub mod Again
pub mod Rounds
mod Tests
