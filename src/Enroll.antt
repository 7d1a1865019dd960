-- ===== src/Enroll.antt =====
-- Enrolment of a machine by a token (server/app/api/routes/enroll.py and server/app/services/fingerprint.py).
pub mod Types
pub mod Fingerprint
pub mod Attempt
pub mod Perform
pub mod Spent
pub mod Once
pub mod Drift
pub mod Retries
mod Tests
