-- ===== src/Pair.antt =====
-- The pair contract: contracts/pair/src/lib.rs and the modules beside it.
pub mod State
pub mod Mint
pub mod Burn
pub mod Swap
pub mod Single
pub mod Flash
pub mod Admin
pub mod Calls
pub mod Guards
pub mod Governance
pub mod Deposit
pub mod Redeemed
pub mod Withdrawal
pub mod Staging
pub mod Loan
pub mod FeeQuote
pub mod Setup
pub mod SeedGain
pub mod Drained
pub mod Run
pub mod SingleRun
pub mod DoubleCount
pub mod KCheck
pub mod Quoted
pub mod Tracking
pub mod Executes
pub mod FeeCap
pub mod Reserves
pub mod Product
mod Tests
