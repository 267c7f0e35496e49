-- ===== src/Transactions.antt =====
-- sdk/src/tx/builder.ts: sending a transaction with retries, and following those that were sent.
pub mod Builder
pub mod Tracker
pub mod Replacement
pub mod Cache
pub mod Batches
pub mod ContractCalls
pub mod Flows
