-- ===== src/Anchor.antt =====
-- crates/soroban_anchor/contract: the contract that anchors decisions on chain.
pub mod Contract
pub mod Calls
pub mod Cli
