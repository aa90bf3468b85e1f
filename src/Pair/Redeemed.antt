-- ===== src/Pair/Redeemed.antt =====
-- The parts of a burn: what it redeems, what it pays, and what it strikes from the staged LP
-- (contracts/pair/src/lib.rs).
use coralswap_core.LpToken
use coralswap_core.Prelude.{arith, false, if◌then◌else◌, true, ◌&&◌, ◌==◌, ◌≡◌}
use coralswap_core.Balances.{IsNodup, read}
use coralswap_core.Balances.Laws.{read-write}
use coralswap_core.Env.{Address, Env}
use coralswap_core.Int.{leb_ℤ, ltb_ℤ, pos, ℤ, ◌-ℤ◌}
use coralswap_core.Int.Laws.{checked_sub_lem, not_ltb_ℤ}
use coralswap_core.LpToken.{LpToken}
use coralswap_core.Math.{burn_amounts, minimum_liquidity}
use coralswap_core.Outcome.{>>=-then, ok}
use coralswap_core.Pair.Burn.{burn_payout, clear_pending, is_dust_left, redeemable}
use coralswap_core.Pair.State.{PairStorage, Store, minimum_reserve}

-- The LP that a burn redeems: exactly what the caller has staged, or, for a caller who has staged
-- nothing, the LP that the pair holds beyond the locked seed and what everybody else has staged.
pub redeemable_lem :
    (held pending total : ℤ) {l : ℤ}
    → redeemable held pending total ≡ ok l
    → l ≡ (if ltb_ℤ (pos 0) pending then pending else held -ℤ minimum_liquidity -ℤ total)
unfolding redeemable
redeemable_lem held pending total h = ground (
  arith,
  checked_sub_lem held minimum_liquidity,
  checked_sub_lem (held -ℤ minimum_liquidity) total,
)

pub burn_payout_lem :
    (state : PairStorage) (l s : ℤ) {p : ℤ × ℤ × ℤ × ℤ}
    → burn_payout state l s ≡ ok p
    → (burn_amounts l state.reserve_a state.reserve_b s ≡ ok (p.0, p.1))
      × (leb_ℤ minimum_reserve p.0 ≡ true)
      × (leb_ℤ minimum_reserve p.1 ≡ true)
      × (p.2 ≡ state.reserve_a -ℤ p.0)
      × (p.3 ≡ state.reserve_b -ℤ p.1)
      × (is_dust_left p.2 ≡ false)
      × (is_dust_left p.3 ≡ false)
unfolding burn_payout
burn_payout_lem state l s h =
    >>=-then (burn_amounts l state.reserve_a state.reserve_b s) _ h λ amounts g0 h0.
      let sub_a = checked_sub_lem state.reserve_a amounts.0 in
      let sub_b = checked_sub_lem state.reserve_b amounts.1 in
      let kept_a = not_ltb_ℤ amounts.0 minimum_reserve in
      let kept_b = not_ltb_ℤ amounts.1 minimum_reserve in
      (
        ground arith,
        ground (arith, kept_a),
        ground (arith, kept_b),
        ground (arith, sub_a),
        ground (arith, sub_b),
        ground arith,
        ground arith,
      )

pub burn-supply :
    (env : Env) (from : Address) (amount : ℤ) (t : LpToken) {t' : LpToken}
    → LpToken.burn env from amount t ≡ ok t'
    → t'.total_supply ≡ t.total_supply -ℤ amount
unfolding LpToken.burn LpToken.burn_internal
burn-supply env from amount t h = ground (arith, checked_sub_lem t.total_supply amount)

-- A burn clears what its caller has staged, also from the total, and leaves alone what others have.
pub clear_pending_lem :
    (to : Address) (store : Store) {store' : Store}
    → IsNodup store.pending_lp
    → clear_pending to (read to store.pending_lp) store.pending_lp_total store ≡ ok store'
    → let pending = read to store.pending_lp in
      ((a : Address)
        → read a store'.pending_lp
          ≡ (if ltb_ℤ (pos 0) pending && a == to then pos 0 else read a store.pending_lp))
      × (store'.pending_lp_total ≡ (
          if ltb_ℤ (pos 0) pending
          then store.pending_lp_total -ℤ pending
          else store.pending_lp_total))
unfolding clear_pending
clear_pending_lem to store n h = (
  λ a. ground (arith, read-write to a (pos 0) store.pending_lp n),
  ground (arith, checked_sub_lem store.pending_lp_total (read to store.pending_lp)),
)
