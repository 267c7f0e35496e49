-- ===== src/Encryption.antt =====
-- sdk/src/encryption.ts: transactions that are submitted encrypted. `Cipher` has the encryption, `Chain`
-- what the clients work on, `Clients` the clients of the key registry and of the mempool, and the client
-- above both.
pub mod Cipher
pub mod Chain
pub mod Clients
pub mod Recovery
pub mod Submission
pub mod Waiting
