-- ===== src/Pair/Burn.antt =====
-- `Pair::deposit_lp` and `Pair::burn`: the withdrawal of both tokens.
use coralswap_core.LpToken
use coralswap_core.Prelude.{Bool, if◌then◌else◌, ◌&&◌, ◌==◌, ◌||◌}
use coralswap_core.Balances.{read, write}
use coralswap_core.Env.{Address, Env, invoke}
use coralswap_core.Errors.{PairError}
use coralswap_core.Int.{checked_add, checked_mul, checked_sub, eq_ℤ, leb_ℤ, ltb_ℤ, pos, ℤ}
use coralswap_core.LpToken.{LpToken}
use coralswap_core.Math.{burn_amounts, minimum_liquidity}
use coralswap_core.Outcome.{Outcome, ok, ok_or, raise_if, require, unwrap, ◌>>=◌, ◌>>◌}
use coralswap_core.Pair.State.{
  PairStorage, Store, TokenClient, World, acquire, ensure_lp_token_not_paused, get_pair_state,
  minimum_reserve, nested, release, set_pair_state,
}

module _ {T : Type 0} where
  unfoldable pub deposit_lp : Env → Address → ℤ → World T → Outcome PairError (World T)
  deposit_lp env from amount w0 = do
    require (env.authorized from)
    w ← acquire w0
    state ← get_pair_state w
    ensure_lp_token_not_paused w
    raise_if (leb_ℤ amount (pos 0) || from == env.contract) PairError.invalid_input
    lp' ← nested (LpToken.transfer (invoke env state.lp_token) from env.contract amount w.lp)
    pending ← ok_or (checked_add (read from w.store.pending_lp) amount) PairError.overflow
    total ← ok_or (checked_add w.store.pending_lp_total amount) PairError.overflow
    let store' = record w.store {
      pending_lp = write from pending w.store.pending_lp;
      pending_lp_total = total;
    }
    ok (release (record w { store = store'; lp = lp' }))

-- The LP that a burn redeems: what the caller has staged, or else what nobody has staged, less the
-- locked seed.
unfoldable pub redeemable : ℤ → ℤ → ℤ → Outcome PairError ℤ
redeemable lp_balance pending pending_total =
    let unattributed = do
      above_seed ←
          ok_or (checked_sub lp_balance minimum_liquidity) PairError.insufficient_liquidity_burned
      ok_or (checked_sub above_seed pending_total) PairError.insufficient_liquidity_burned
    in if ltb_ℤ (pos 0) pending then ok pending else unattributed

-- A side that is left with something must be left with the minimum reserve.
abbrev pub is_dust_left : ℤ → Bool
is_dust_left reserve = ltb_ℤ (pos 0) reserve && ltb_ℤ reserve minimum_reserve

-- The amounts that a burn of `burn_lp` pays, with the checks on them and on what is left.
unfoldable pub burn_payout : PairStorage → ℤ → ℤ → Outcome PairError (ℤ × ℤ × ℤ × ℤ)
burn_payout state burn_lp burnable_supply = do
  (amount_a, amount_b) ← burn_amounts burn_lp state.reserve_a state.reserve_b burnable_supply
  raise_if (leb_ℤ amount_a (pos 0) || leb_ℤ amount_b (pos 0))
      PairError.insufficient_liquidity_burned
  raise_if (ltb_ℤ amount_a minimum_reserve || ltb_ℤ amount_b minimum_reserve) PairError.dust_amount
  after_a ← ok_or (checked_sub state.reserve_a amount_a) PairError.overflow
  after_b ← ok_or (checked_sub state.reserve_b amount_b) PairError.overflow
  raise_if (is_dust_left after_a || is_dust_left after_b) PairError.dust_amount
  ok (amount_a, amount_b, after_a, after_b)

-- A burn of staged LP clears what the caller had staged.
unfoldable pub clear_pending : Address → ℤ → ℤ → Store → Outcome PairError Store
clear_pending to pending pending_total store =
    let cleared = do
      total ← unwrap (checked_sub pending_total pending)
      ok (record store { pending_lp = write to (pos 0) store.pending_lp; pending_lp_total = total })
    in if ltb_ℤ (pos 0) pending then cleared else ok store

module _ {T : Type 0} (tokens : TokenClient T) where
  unfoldable pub burn : Env → Address → World T → Outcome PairError (World T × ℤ × ℤ)
  burn env to w0 = do
    require (env.authorized to)
    w ← acquire w0
    state ← get_pair_state w
    ensure_lp_token_not_paused w
    let lp_balance = LpToken.balance w.lp env.contract
    let total_supply = w.lp.total_supply
    raise_if (eq_ℤ total_supply (pos 0)) PairError.insufficient_liquidity_burned
    burnable_supply ← ok_or (checked_sub total_supply minimum_liquidity) PairError.overflow
    raise_if (eq_ℤ burnable_supply (pos 0)) PairError.insufficient_liquidity_burned
    let pending = read to w.store.pending_lp
    let pending_total = w.store.pending_lp_total
    burn_lp ← redeemable lp_balance pending pending_total
    raise_if (leb_ℤ burn_lp (pos 0)) PairError.insufficient_liquidity_burned
    (amount_a, amount_b, after_a, after_b) ← burn_payout state burn_lp burnable_supply
    lp' ← nested (LpToken.burn (invoke env state.lp_token) env.contract burn_lp w.lp)
    store' ← clear_pending to pending pending_total w.store
    t1 ← unwrap (tokens.transfer state.token_a env.contract to amount_a w.ledger)
    t2 ← unwrap (tokens.transfer state.token_b env.contract to amount_b t1)
    k ← ok_or (checked_mul after_a after_b) PairError.overflow
    let state' = record state {
      reserve_a = after_a;
      reserve_b = after_b;
      k_last = k;
      block_timestamp_last = env.timestamp;
    }
    let w' = record w { store = store'; lp = lp'; ledger = t2 }
    ok (release (set_pair_state state' w'), amount_a, amount_b)
