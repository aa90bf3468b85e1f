-- ===== src/Pair/Drained.antt =====
-- A pool whose last liquidity has been withdrawn (`Pair::mint` and `Pair::burn` of
-- contracts/pair/src/lib.rs).
use coralswap_core.Pair.Burn
use coralswap_core.Pair.Mint
use coralswap_core.Env.{Env}
use coralswap_core.LpToken.{LpToken}
