-- ===== src/Advisor.antt =====
-- crates/ai_advisor: what an AI model is asked, and what of its answer is kept.
pub mod Request
pub mod Validate
pub mod Sanitized
pub mod Schema
pub mod Client
pub mod Answered
