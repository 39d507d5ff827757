-- ===== src/Audit.antt =====
-- crates/audit: the append-only, hash-chained log.
pub mod Chain
pub mod Store
pub mod Linked
pub mod Growth
pub mod Tamper
