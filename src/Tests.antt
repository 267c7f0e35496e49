-- ===== src/Tests.antt =====
-- The theorems at concrete inputs: a client with an agent, a merchant and contracts that answer.
mod Fixture
mod Numbers
mod Payments
mod Escrows
mod Registries
mod Sending
mod Services
mod Tokens
mod Mempool
mod Sequences
