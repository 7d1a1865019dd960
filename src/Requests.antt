-- ===== src/Requests.antt =====
-- Requests of administrators for an investigation (server/app/api/routes/dfir_requests.py).
pub mod Types
pub mod Handle
pub mod Read
pub mod Trail
pub mod Decisions
pub mod Hidden
mod Tests
