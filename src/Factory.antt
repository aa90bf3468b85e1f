-- ===== src/Factory.antt =====
-- The factory (contracts/factory/src): the registry and the governance of the pairs.
mod Tests
pub mod Registry
pub mod Views
pub mod Paging
pub mod Derived
pub mod FeeRules
pub mod State
pub mod Governance
pub mod Upgrade
pub mod Fees
pub mod Pairs
pub mod Calls
pub mod Quorum
pub mod Effects
pub mod Timelock
pub mod Untouched
