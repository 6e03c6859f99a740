-- ===== src/Tests.antt =====
-- The theorems at concrete inputs, and the data that they share.
mod Data
mod Actions
mod Events
mod Withdrawal
mod World
mod Math
mod Interest
mod Rates
mod Reserves
mod Users
mod Setup
