-- ===== src/Review.antt =====
-- What administrators decide on enrolments: refused machines, changed fingerprints, tokens and links
-- (server/app/api/routes/enroll_attempts.py, server/app/api/routes/drifts.py, server/app/api/routes/tokens.py and
-- server/app/api/routes/self_service.py).
pub mod Types
pub mod Attempts
pub mod Drifts
pub mod Tokens
pub mod Decided
pub mod Issued
pub mod Recognised
pub mod Links
pub mod Claimed
mod Tests
