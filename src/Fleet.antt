-- ===== src/Fleet.antt =====
-- The life of an enrolled machine (server/app/api/routes/heartbeat.py, server/app/api/routes/machines.py,
-- server/app/api/routes/inventory.py and server/app/services/monitor.py).
pub mod Types
pub mod Beat
pub mod Sweep
pub mod Desk
pub mod Swept
pub mod Calls
pub mod KeptOut
pub mod Declined
pub mod Presence
pub mod Approval
mod Tests
