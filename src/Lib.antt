-- ===== src/Lib.antt =====
-- The TypeScript SDK of SSDC (sdk/src): the client by which an autonomous agent pays, funds escrows,
-- settles disputes, bridges and redeems, the client of the ssUSD stablecoin, the client for encrypted
-- transactions, the flows of transactions, and the utilities that they stand on.
--
-- The parts, and where they are modelled:
-- - Math: sdk/src/stablecoin/v2/math.ts. The spending budget (`computeAvailableSpendAssets`), the
--   headroom of the collateral (`computeConservativeSponsoredHeadroomAssets`) and the projected NAV.
-- - Errors: sdk/src/errors.ts, and `AgentError` of sdk/src/stablecoin/v2/AgentClient.ts.
-- - Effects: what an `async` method is here: an action takes a state to a result or a thrown error,
--   and to the next state. `throw`, `catch` and the sequence of steps are its operations.
-- - Retry: sdk/src/utils/retry.ts. `withRetry` is a loop on the attempts left.
-- - Polling: the loops that ask again until a deadline, `pollUntil` of sdk/src/utils/retry.ts and
--   `watchTransaction` of sdk/src/tx/builder.ts; `waitForStatus` of encryption.ts uses the same loop.
-- - Validation: sdk/src/utils/validation.ts.
-- - Gas: sdk/src/utils/gas.ts.
-- - Agent: sdk/src/stablecoin/v2/AgentClient.ts, with the types of types.ts beside it (Agent/Types)
--   and sdk/src/utils/events.ts (Agent/Events). Agent/Status has the queries and the guards
--   `assertSystemReady` and `assertSpendAllowed`; Agent/Funding deposits, payments, redemptions;
--   Agent/Request the payment requests; Agent/Escrow escrows and settlements; Agent/Bridge the
--   transfers to another chain; Agent/Protocol the acceptance of a request. A definition has the name
--   of the method in snake case.
-- - Transactions: sdk/src/tx/builder.ts. `TransactionBuilder.execute` is a loop on the retries left,
--   `TransactionTracker` a state with the tracked transactions and the events that were emitted.
--   Below it: Cache (the `ContractCache` of sdk/src/tx/gas.ts as the list of its entries), Batches
--   (`processBatched`), ContractCalls (estimates and simulations of a call), and Flows
--   (sdk/src/tx/flows.ts), which executes the builder's transactions one after another.
-- - Stablecoin: sdk/src/stablecoin/StablecoinClient.ts, with the operations in Operations and the
--   reading methods in Queries.
-- - Encryption: sdk/src/encryption.ts, with the fallback cipher in Cipher and the clients in Clients.
-- - Config: sdk/src/config.ts, the global configuration as a state and the known networks.
-- - Formatting: sdk/src/utils/formatting.ts, texts of amounts and the parser of amounts.
-- - Registry: sdk/src/contracts/registry.ts, proofs in a batch and the ids of batches.
-- - Health: sdk/src/contracts/health.ts, the check of all contracts with the summaries that it reads from
--   the files beside it.
-- - Listings: the functions of timelock.ts, forced-inclusion.ts and paymaster.ts beside it that sort a list
--   by what a contract answers for it.
-- - Tests: contracts that answer, and the theorems at concrete inputs.
--
-- The clients call contracts through ethers. They are the parameters `Contracts` of Agent/Chain and
-- of Stablecoin/Chain and `Protocol` of Encryption/Chain: one action for each view, which may fail
-- and may move the environment, and two for sending a transaction and waiting for it. The world has
-- the environment and the list of the transactions that the client has asked to send, the last one
-- first; what the client sends, in which order and after which guards, is read from that list. `Promise.all` reads in sequence. `debugLog` and the
-- texts for a reader (details and suggestions of errors) are left out.
--
-- A `bigint` from an unsigned field of a contract is ℕ, and one that a caller chooses is an integer.
-- Times are whole seconds or milliseconds. Of a multiplier the code only uses
-- `Math.ceil(multiplier * 10000)`, and of `Math.random()` the numerator over 2 ^ 53; no other float
-- is rounded here.
--
-- Loops are structural: over the logs of a receipt, the milestones left (required less completed),
-- the transactions to poll, and the attempts left, which are `maxAttempts` of `withRetry` and
-- `maxRetries` after the first of `execute`. The digits of a number are computed on one more round
-- than its value, and it has no more digits than that.
--
-- The polling loops run on fuel: a round lasts at least the interval, so the timeout divided by the
-- interval, and two, is enough where the interval is positive. `processBatched` has one round more
-- than there are items, which is enough for every positive batch size.
--
-- Not modelled: the contracts themselves (Solidity, Anchor) and the Rust services; in sdk/src the
-- other wrappers under contracts, and the texts of floats and dates in formatting.ts;
-- `withTimeout` of retry.ts, which is a race of two promises, and the timer of
-- `TransactionTracker.waitForConfirmation`.
pub mod Prelude
pub mod Math
pub mod Errors
pub mod Effects
pub mod Retry
pub mod Polling
pub mod Validation
pub mod Gas
pub mod Agent
pub mod Transactions
pub mod Stablecoin
pub mod Encryption
pub mod Config
pub mod Formatting
pub mod Registry
pub mod Health
pub mod Listings
pub mod Tests
