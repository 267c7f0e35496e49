-- ===== src/Agent.antt =====
-- sdk/src/stablecoin/v2/AgentClient.ts: the client by which an agent pays, escrows, bridges and
-- redeems on the SSDC V2 contracts, with the types of sdk/src/stablecoin/v2/types.ts.
mod Types
mod Chain
pub mod Events
pub mod Quiet
pub mod Status
pub mod Funding
pub mod Request
pub mod Escrow
pub mod Bridge
pub mod Protocol
unfoldable pub use Types.*
unfoldable pub use Chain.*
