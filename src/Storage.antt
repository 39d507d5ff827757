-- ===== src/Storage.antt =====
-- crates/storage: the repositories over SQLite. A table is the list of its rows in the order of their
-- insertion, and each SQL text of the source is the list function that it documents.
pub mod Query
pub mod Transactions
pub mod History
pub mod Flagged
pub mod Ingestion
pub mod AuditLog
pub mod AuditRefines
pub mod AuditRuns
pub mod AlertTable
pub mod Investigators
pub mod Projected
pub mod Projection
pub mod Readable
pub mod Views
pub mod Mapped
pub mod Agree
