-- ===== src/Rules.antt =====
-- crates/rules_engine: the rules, their registry and the score.
pub mod Config
pub mod Context
pub mod BuiltIn
pub mod Registry
pub mod Scoring
pub mod Bands
pub mod Fires
pub mod Hits
