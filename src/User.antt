-- ===== src/User.antt =====
-- test-suites/helpers/utils/calculations.ts: the position of a user in a reserve that is expected
-- after each action of the pool.
pub mod Supply
pub mod Debt
pub mod Values
pub mod Outcomes
pub mod DebtOutcomes
pub mod Positions
pub mod Conserved
