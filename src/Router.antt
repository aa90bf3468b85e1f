-- ===== src/Router.antt =====
-- The router (contracts/router/src): quotes and swaps along paths, deposits, and committed swaps.
pub mod State
pub mod Paths
pub mod BestPath
pub mod Swaps
pub mod Commits
pub mod Admin
pub mod Liquidity
pub mod Covers
pub mod Hops
pub mod Minimums
pub mod Guards
pub mod ExactOut
pub mod ExactIn
pub mod Optimal
pub mod Order
pub mod Candidates
pub mod BestRoute
pub mod HubLoops
pub mod BestLoops
pub mod Calls
pub mod Effects
pub mod Steps
pub mod History
pub mod Slots
pub mod Runs
pub mod Bounded
pub mod Reveals
pub mod Nonces
pub mod Governed
mod Tests
pub mod Binding
pub mod Expired
pub mod RoundTrip
