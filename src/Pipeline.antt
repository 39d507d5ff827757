-- ===== src/Pipeline.antt =====
-- crates/api/src/pipeline.rs: what is done with one transaction, and with a batch.
pub mod Process
pub mod Advice
pub mod Familiar
pub mod Batch
pub mod Letters
pub mod Accounted
pub mod Restart
