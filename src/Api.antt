-- ===== src/Api.antt =====
-- crates/api: the error responses, the role checks and the handlers of the alert routes; and the hash
-- of crates/soroban_anchor that the decision handler sends on.
pub mod Error
pub mod Commitment
pub mod Decisions
pub mod Gate
pub mod Auth
pub mod Login
pub mod Sessions
pub mod Html
pub mod Escape
pub mod Shown
pub mod Panels
pub mod Dashboard
pub mod Query
pub mod Transactions
pub mod Config
pub mod Demo
pub mod Bootstrap
pub mod Seeded
