-- ===== src/Dfir.antt =====
-- The investigation service of the server (server/app/services/dfir_investigation.py and
-- server/app/api/routes/llm_dfir_external.py).
pub mod Types
pub mod Queue
pub mod Reconcile
pub mod Prepare
pub mod Dispatch
pub mod Collect
pub mod Analyze
pub mod Worker
pub mod External
pub mod Progress
pub mod Table
pub mod Capacity
pub mod Rows
pub mod Slots
pub mod Frame
pub mod Release
pub mod Sound
pub mod SoundTick
pub mod Callback
pub mod Monotone
pub mod Catalogue
pub mod Moves
pub mod Calls
pub mod Reach
pub mod Samples
mod Tests
