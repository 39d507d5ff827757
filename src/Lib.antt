-- ===== src/Lib.antt =====
-- StellarRisk watches Stellar transactions, evaluates each against deterministic rules, opens an
-- alert for a suspicious one, asks an AI model for an advisory and leaves the decision to a human
-- investigator; every step is appended to a hash-chained audit log, and a commitment to a decision can
-- be anchored by a Soroban contract. This library models the Rust crates of the repository.
--
-- The parts and their files:
--   Domain      crates/domain: transactions, alerts, decisions, roles, audit events.
--   Rules       crates/rules_engine: the six built-in rules (BuiltIn), the registry, the score.
--   Audit       crates/audit: `compute_hash`, `verify_chain` (Chain), the in-memory store (Store).
--   Alerts      crates/alerts: the in-memory store (Memory), `AlertService` (Service),
--               `accounts_and_assets` (Collect).
--   Advisor     crates/ai_advisor: the request, the tool and the prompt (Schema), client.rs (Client),
--               and the validation of the model's answer (Validate).
--   Storage     crates/storage: error mapping and what the SQL statements share (Query), tx_repo.rs
--               (Transactions), flagged_accounts_repo.rs (Flagged), ingestion_repo.rs (Ingestion),
--               audit_store.rs (AuditLog), alert_store.rs (AlertTable), investigator_repo.rs
--               (Investigators).
--   Ingestion   crates/ingestion: source.rs, mock.rs, normalize.rs, horizon.rs (Horizon, Server).
--   Pipeline    crates/api/src/pipeline.rs: `process_transaction` (Process), `process_batch` and
--               `run_source` (Batch).
--   Api         crates/api: error.rs, auth.rs (Auth and, for the roles, Decisions), html.rs (Html),
--               config.rs (Config); of routes/, alerts_api.rs (Decisions, Transactions), auth.rs
--               (Login), transactions.rs (Transactions), dashboard.rs (Panels, Dashboard);
--               demo.rs (Demo) and `bootstrap` of lib.rs (Bootstrap); and `hash_decision` of
--               crates/soroban_anchor/src/hash.rs (Commitment).
--   Anchor      crates/soroban_anchor/contract: the contract. crates/soroban_anchor/src: the anchor
--               that runs the command line (Cli).
--   Platform, Codec   what the program takes from other crates and from derived code.
--   Common      names, list, text and number helpers. Toy, Tests: concrete runs.
--
-- How they interact: the pipeline saves a transaction, reads the history of its source and the flagged
-- accounts, evaluates the rules, opens an alert through the service and records what the advisor
-- answers; the decision handler checks the role and the request and calls the service, which writes to
-- its store and then appends to the audit log.
--
-- State and operations. Each store is a record or a list (a `HashMap` the list of its entries, an SQL
-- table the list of its rows in the order of insertion). An operation is a function that takes the
-- state and answers a result and the new state, so that what was written before an error stays
-- written. A mutex is held for a whole method, so a method is one step. The clock, the generator of
-- identifiers and the failures of the database are arguments (`Ambient`, `Surroundings`, `Faults`).
-- `AlertService` is modelled over the in-memory stores, and the SQLite stores beside them: that of the
-- audit log is compared with the in-memory one in Storage/AuditRefines, that of the alerts in
-- Storage/Agree. An SQL statement fails as `Faults` says, before it has an effect; a row that breaks
-- a constraint of the schema is refused; a transaction that is not committed is rolled back.
--
-- Parameters. Floating-point numbers, decimals, instants, SHA-256, the JSON serialiser and parser are
-- fields of `Platform`; what `serde` derives for the program's types is `Codec`; the laws of floats
-- that the score uses are `FloatLaws`. Unsigned numbers are natural numbers; the cursor of the mock
-- source has the bound of 64 bits, and `as u32` wraps. The loops run over a list, a text or the
-- digits of a number (whose count is bounded by the number itself), and need no fuel; the retry loop
-- of Ingestion/Horizon has one more than `max_retries` as its fuel, which is enough.
--
-- The library of tokens and that of passwords are the record `Credentials` of Api/Auth, the HTTP
-- client of the advisor the record `Transport` of Advisor/Client, the run of the `stellar` program an
-- argument of Anchor/Cli, the style sheet an argument of the pages. The loop of `run_source` never
-- ends; Pipeline/Batch runs as many rounds as it is given, and leaves out the sleep between them.
--
-- Not modelled: the process, the routing table and the opening of the database: input and output, or
-- calls of libraries around what is modelled. The log output of the handlers is left out.
pub mod Common
pub mod Platform
pub mod Domain
pub mod Rules
pub mod Codec
pub mod Audit
pub mod Alerts
pub mod Anchor
pub mod Storage
pub mod Advisor
pub mod Ingestion
pub mod Pipeline
pub mod Api
pub mod Toy
pub mod Tests
