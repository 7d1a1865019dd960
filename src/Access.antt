-- ===== src/Access.antt =====
-- Who may do what, and on which organisations (server/app/api/deps.py, server/app/services/org_scope.py and
-- server/app/api/routes/orgs.py).
pub mod Types
pub mod Orgs
pub mod Guards
pub mod Walk
pub mod Fuel
pub mod Below
pub mod Create
pub mod Visible
pub mod Entry
pub mod Roles
pub mod Identity
mod Tests
