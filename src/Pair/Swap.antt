-- ===== src/Pair/Swap.antt =====
-- `Pair::swap` and its body `swap_inner`, in the parts that the body has.
use coralswap_core.Prelude.{Option, if◌then◌else◌, ltb, min, none, some, ℕ, ◌&&◌, ◌||◌}
use coralswap_core.Env.{Address, Env}
use coralswap_core.Errors.{PairError}
use coralswap_core.Fee.{FeeState, compute_fee_bps, decay_stale_ema, scale, update_volatility}
use coralswap_core.Int.{
  checked_div, checked_mul, checked_sub, leb_ℤ, ltb_ℤ, max_ℤ, pos, quot, saturating_add,
  saturating_mul, ℤ,
}
use coralswap_core.LpToken.{balance, is_some}
use coralswap_core.Outcome.{Outcome, err, ok, ok_or, raise_if, trap, unwrap, ◌>>=◌, ◌>>◌}
use coralswap_core.Pair.State.{
  FactoryView, PairStorage, Store, TokenClient, World, acquire, ensure_not_frozen, get_fee_state,
  get_pair_state, minimum_reserve, release,
}

-- Both outputs are below the reserves, and leave the minimum reserve on each side.
unfoldable pub check_outputs : PairStorage → ℤ → ℤ → Outcome PairError (Unit {0})
check_outputs state amount_a_out amount_b_out = do
  raise_if (leb_ℤ state.reserve_a amount_a_out || leb_ℤ state.reserve_b amount_b_out)
      PairError.insufficient_liquidity
  reserve_a_left ← ok_or (checked_sub state.reserve_a amount_a_out) PairError.overflow
  reserve_b_left ← ok_or (checked_sub state.reserve_b amount_b_out) PairError.overflow
  raise_if (ltb_ℤ reserve_a_left minimum_reserve || ltb_ℤ reserve_b_left minimum_reserve)
      PairError.dust_amount

-- The factory's override, unless it is absent or zero.
unfoldable pub effective_fee : Option ℕ → ℕ → ℕ
effective_fee none dynamic_fee_bps = dynamic_fee_bps
effective_fee (some override_bps) dynamic_fee_bps =
    if ltb 0 override_bps then override_bps else dynamic_fee_bps

-- `(balance - (reserve - amount_out)).max(0)`, where the subtractions trap when they overflow.
unfoldable pub amount_in : ℤ → ℤ → ℤ → Outcome PairError ℤ
amount_in balance reserve amount_out = do
  left ← unwrap (checked_sub reserve amount_out)
  excess ← unwrap (checked_sub balance left)
  ok (max_ℤ excess (pos 0))

-- `balance * 10_000 - amount_in * fee`; the second product traps when it overflows.
unfoldable pub adjusted : ℤ → ℤ → ℕ → Outcome PairError ℤ
adjusted balance amount fee_bps = do
  scaled ← ok_or (checked_mul balance (pos 10_000)) PairError.overflow
  fee ← unwrap (checked_mul amount (pos fee_bps))
  ok_or (checked_sub scaled fee) PairError.overflow

unfoldable pub check_k : PairStorage → ℤ → ℤ → ℤ → ℤ → ℕ → Outcome PairError (Unit {0})
check_k state balance_a balance_b amount_a_in amount_b_in fee_bps = do
  balance_a_adj ← adjusted balance_a amount_a_in fee_bps
  balance_b_adj ← adjusted balance_b amount_b_in fee_bps
  k ← ok_or (checked_mul state.reserve_a state.reserve_b) PairError.overflow
  k_before ← ok_or (checked_mul k (pos 100_000_000)) PairError.overflow
  k_after ← ok_or (checked_mul balance_a_adj balance_b_adj) PairError.overflow
  raise_if (ltb_ℤ k_after k_before) PairError.invalid_k

-- The protocol's share, in basis points of the fee; a failing call to the factory is a share of 0.
unfoldable pub protocol_share : Option ℕ → ℕ
protocol_share none = 0
protocol_share (some bps) = min bps 10_000

-- The protocol's part of the fee on an input.
unfoldable pub protocol_fee : FactoryView → ℤ → ℕ → ℤ
unfolding saturating_mul quot protocol_share
protocol_fee view amount fee_bps =
    let share = protocol_share view.fee_bps in
    if is_some view.fee_to && ltb 0 share && ltb_ℤ (pos 0) amount
    then quot (saturating_mul (saturating_mul amount (pos fee_bps)) (pos share)) (pos 100_000_000)
    else pos 0

-- The totals that `get_protocol_fee_balance` reports.
unfoldable pub record_protocol_fee : ℤ → ℤ → Store → Store
unfolding saturating_add
record_protocol_fee fee_a fee_b store =
    if ltb_ℤ (pos 0) fee_a || ltb_ℤ (pos 0) fee_b
    then record store {
      protocol_fee_a = saturating_add store.protocol_fee_a fee_a;
      protocol_fee_b = saturating_add store.protocol_fee_b fee_b;
    }
    else store

-- `b * SCALE / a`, or 0 where that overflows.
unfoldable pub price : ℤ → ℤ → ℤ
unfolding checked_mul checked_div
price reserve_a reserve_b = elim (checked_mul reserve_b scale) [
  | none ↦ pos 0
  | some v ↦ elim (checked_div v reserve_a) [ none ↦ pos 0 | some p ↦ p ]
]

-- `let _ = update_volatility(...)`: an error changes nothing.
abbrev pub ignore_error : FeeState → Outcome PairError FeeState → Outcome PairError FeeState
ignore_error fs (ok fs') = ok fs'
ignore_error fs (err e) = ok fs
ignore_error fs trap = trap

unfoldable pub track_volatility :
    Env → PairStorage → ℤ → ℤ → ℤ → FeeState → Outcome PairError FeeState
unfolding saturating_add
track_volatility env before reserve_a reserve_b trade_size fs =
    let tracked = do
      let price_before = price before.reserve_a before.reserve_b
      let price_after = price reserve_a reserve_b
      price_delta_abs ← unwrap (
          if ltb_ℤ price_before price_after
          then checked_sub price_after price_before
          else checked_sub price_before price_after)
      ignore_error fs
          (update_volatility env fs price_delta_abs trade_size (saturating_add reserve_a reserve_b))
    in if ltb_ℤ (pos 0) before.reserve_a
        && ltb_ℤ (pos 0) before.reserve_b
        && ltb_ℤ (pos 0) reserve_a
        && ltb_ℤ (pos 0) reserve_b
      then tracked
      else ok fs

-- The pair's state after a swap: what the tokens hold, less what the protocol has received.
unfoldable pub settle_reserves : ℕ → PairStorage → ℤ → ℤ → ℤ → ℤ → Outcome PairError PairStorage
settle_reserves timestamp state balance_a balance_b fee_a fee_b = do
  reserve_a ← ok_or (checked_sub balance_a fee_a) PairError.overflow
  reserve_b ← ok_or (checked_sub balance_b fee_b) PairError.overflow
  k ← ok_or (checked_mul reserve_a reserve_b) PairError.overflow
  ok (record state {
    reserve_a = reserve_a;
    reserve_b = reserve_b;
    k_last = k;
    block_timestamp_last = timestamp;
  })

-- The fee rate of a swap: the volatility decays first.
unfoldable pub swap_fee : Env → FactoryView → FeeState → Outcome PairError (FeeState × ℕ)
swap_fee env view fee_state = do
  decayed ← decay_stale_ema env fee_state
  dynamic_fee_bps ← compute_fee_bps decayed
  ok (decayed, effective_fee view.fee_override dynamic_fee_bps)

module _ {T : Type 0} (tokens : TokenClient T) where
  -- A transfer out of the pair, where there is something to transfer.
  unfoldable pub pay : Env → Address → Address → ℤ → T → Outcome PairError T
  pay env token to amount t =
      if ltb_ℤ (pos 0) amount then unwrap (tokens.transfer token env.contract to amount t) else ok t

  -- The transfers of the protocol's fees.
  unfoldable pub forward_fees : Env → FactoryView → PairStorage → ℤ → ℤ → T → Outcome PairError T
  forward_fees env view state fee_a fee_b t = elim view.fee_to [
    | none ↦ ok t
    | some fee_to ↦ do
      t' ← pay env state.token_a fee_to fee_a t
      pay env state.token_b fee_to fee_b t'
  ]

  unfoldable pub swap_inner :
      Env → FactoryView → ℤ → ℤ → Address → World T → Outcome PairError (World T)
  swap_inner env view amount_a_out amount_b_out to w = do
    raise_if (leb_ℤ amount_a_out (pos 0) && leb_ℤ amount_b_out (pos 0))
        PairError.insufficient_output_amount
    state ← get_pair_state w
    fee_state ← get_fee_state w
    check_outputs state amount_a_out amount_b_out
    (decayed, fee_bps) ← swap_fee env view fee_state
    t1 ← pay env state.token_a to amount_a_out w.ledger
    t2 ← pay env state.token_b to amount_b_out t1
    let balance_a = tokens.balance t2 state.token_a env.contract
    let balance_b = tokens.balance t2 state.token_b env.contract
    amount_a_in ← amount_in balance_a state.reserve_a amount_a_out
    amount_b_in ← amount_in balance_b state.reserve_b amount_b_out
    raise_if (leb_ℤ amount_a_in (pos 0) && leb_ℤ amount_b_in (pos 0))
        PairError.insufficient_input_amount
    check_k state balance_a balance_b amount_a_in amount_b_in fee_bps
    let fee_a = protocol_fee view amount_a_in fee_bps
    let fee_b = protocol_fee view amount_b_in fee_bps
    t3 ← forward_fees env view state fee_a fee_b t2
    state' ← settle_reserves env.timestamp state balance_a balance_b fee_a fee_b
    fee_state' ←
        track_volatility env state state'.reserve_a state'.reserve_b (max_ℤ amount_a_in amount_b_in)
          decayed
    let store' = record (record_protocol_fee fee_a fee_b w.store) {
      pair_state = some state';
      fee_state = some fee_state';
    }
    ok (record w { store = store'; ledger = t3 })

  unfoldable pub swap : Env → FactoryView → ℤ → ℤ → Address → World T → Outcome PairError (World T)
  swap env view amount_a_out amount_b_out to w0 = do
    w ← acquire w0
    ensure_not_frozen w
    w' ← swap_inner env view amount_a_out amount_b_out to w
    ok (release w')
