-- ===== src/Retry.antt =====
-- sdk/src/utils/retry.ts: retrying with exponential backoff, and polling. The clock, the timer and
-- `Math.random` are the parameter `Runtime`; `Math.random()` is `k / 2 ^ 53` for a natural number `k`.
-- The backoff multiplier and the delays are natural numbers, and the product is exact.
mod Defs
pub mod Delay
pub mod Attempts
unfoldable pub use Defs.*
