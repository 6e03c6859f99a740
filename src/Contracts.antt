-- ===== src/Contracts.antt =====
-- The Solidity libraries against which the TypeScript calculations are held: a call that reverts
-- is `none`.
pub mod Yul
pub mod Words
pub mod WadRayMath
pub mod PercentageMath
pub mod Agreement
pub mod MathUtils
pub mod Accrual
pub mod RateStrategy
pub mod StrategyAgreement
