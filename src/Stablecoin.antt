-- ===== src/Stablecoin.antt =====
-- sdk/src/stablecoin: the client of the ssUSD stablecoin (V1). `Chain` has what the client works on,
-- `Operations` what changes the state of the contracts, `Queries` what reads it.
pub mod Chain
pub mod Operations
pub mod Queries
pub mod Steps
pub mod Traces
pub mod Redemptions
pub mod Wrapping
pub mod Throws
pub mod Settled
