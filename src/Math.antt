-- ===== src/Math.antt =====
-- sdk/src/stablecoin/v2/math.ts: the preflight arithmetic of an agent's spending budget and of the
-- projected NAV. Amounts, limits and the NAV come from unsigned contract fields (`uint256`) and are
-- ℕ; the NAV's rate is an `int256` and is an integer. `bigint` arithmetic does not overflow.
mod Headroom
mod Spend
mod Nav
unfoldable pub use Headroom.*
unfoldable pub use Spend.*
unfoldable pub use Nav.*
