-- ===== src/Auth.antt =====
-- Sessions of users (server/app/api/routes/auth.py, server/app/core/security.py).
pub mod Types
pub mod Session
pub mod SignIn
pub mod Account
pub mod Rotation
pub mod Login
pub mod Closing
mod Tests
