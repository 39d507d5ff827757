-- ===== src/Alerts.antt =====
-- crates/alerts: the alert store, the service and the review workflow.
pub mod Memory
pub mod Laws
pub mod Service
pub mod Review
pub mod Status
pub mod Collect
