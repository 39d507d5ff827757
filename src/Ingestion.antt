-- ===== src/Ingestion.antt =====
-- crates/ingestion: where transactions come from.
pub mod Source
pub mod Mock
pub mod Replay
pub mod Normalize
pub mod Horizon
pub mod Fetching
pub mod Server
pub mod Polled
