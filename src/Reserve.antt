-- ===== src/Reserve.antt =====
-- test-suites/helpers/utils/calculations.ts: the state of a reserve that is expected after each
-- action of the pool.
pub mod Liquidity
pub mod Bridge
pub mod Borrow
pub mod Repay
pub mod Swap
pub mod Consistent
pub mod Totals
pub mod Supply
