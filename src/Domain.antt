-- ===== src/Domain.antt =====
-- crates/domain: the vocabulary that every crate shares.
pub mod Severity
pub mod AlertStatus
pub mod Decision
pub mod Role
pub mod Error
pub mod Transaction
pub mod Rule
pub mod Alert
pub mod AuditEvent
pub mod Names
pub mod Accounts
