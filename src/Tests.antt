-- ===== src/Tests.antt =====
-- Runs on concrete inputs, and each theorem applied to one.
pub mod Rules
pub mod Audit
pub mod Alerts
pub mod Pipeline
pub mod Outside
pub mod Stores
pub mod Web
pub mod Batches
pub mod Rows
pub mod Floats
