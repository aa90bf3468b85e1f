-- ===== src/Pair/Executes.antt =====
-- A swap for its quote goes through (`Pair::swap` of contracts/pair/src/lib.rs).
use coralswap_core.Prelude.{
  ap, arith, false, le_refl, leb, ltb, mul_mono, none, refl, some, subst, sym, true, ℕ, ◌*◌, ◌+◌,
  ◌-◌, ◌<◌, ◌||◌, ◌∙◌, ◌≡◌, ◌≤◌,
}
use coralswap_core.Env.{Address, Env}
use coralswap_core.Fee.{FeeState}
use coralswap_core.Int.{checked_sub, pos, two_127, ℤ}
use coralswap_core.Outcome.{ok}
use coralswap_core.Pair.Quoted.{checked_mul_fits, quote_is_largest_accepted, quoted_largest}
use coralswap_core.Pair.State.{FactoryView, PairStorage, TokenClient, World, acquire}
use coralswap_core.Pair.Swap.{
  amount_in, check_outputs, forward_fees, pay, protocol_fee, record_protocol_fee, settle_reserves,
  swap, swap_fee, swap_inner,
}
use coralswap_core.Pair.Tracking.{checked_sub_fits, track_volatility-ok}
use coralswap_core.Quote.{quote_output_amount}

-- A pair that can trade: it has reserves `r` and `s`, is neither locked nor frozen, and charges `fee`.
pub record IsTrading {T : Type 0} (env : Env) (view : FactoryView) (w : World T)
    (state : PairStorage) (r s fee : ℕ) : Type 0 where
  pub unlocked : w.store.locked ≡ false
  pub thawed : w.store.frozen ≡ false
  pub state_read : w.store.pair_state ≡ some state
  pub first_reserve : state.reserve_a ≡ pos r
  pub second_reserve : state.reserve_b ≡ pos s
  pub fees : FeeState
  pub fees_read : w.store.fee_state ≡ some fees
  pub decayed : FeeState
  pub charged : swap_fee env view fees ≡ ok (decayed, fee)
  pub no_protocol_fee : view.fee_to ≡ none

-- The ledger after the payout of `p`, with an input of `x` received before.
pub record IsFunded {T : Type 0} (tokens : TokenClient T) (env : Env) (to : Address)
    (state : PairStorage) (x r s p : ℕ) (t t' : T) : Type 0 where
  pub paid_out : tokens.transfer state.token_b env.contract to (pos p) t ≡ some t'
  pub first_balance : tokens.balance t' state.token_a env.contract ≡ pos (r + x)
  pub second_balance : tokens.balance t' state.token_b env.contract ≡ pos (s - p)

nothing_less : (a : ℕ) → a < two_127 → checked_sub (pos a) (pos 0) ≡ some (pos a)
nothing_less a h =
    let same : a - 0 ≡ a = omega arith in
    checked_sub_fits a 0 (omega arith) h ∙ ap (λ n. some (pos n)) same

check_outputs-ok :
    (state : PairStorage) (r s p : ℕ)
    → state.reserve_a ≡ pos r
    → state.reserve_b ≡ pos s
    → 1_000 ≤ r
    → p + 1_000 ≤ s
    → r < two_127
    → s < two_127
    → check_outputs state (pos 0) (pos p) ≡ ok tt
unfolding check_outputs
check_outputs-ok state r s p ea eb lr lp fr fs =
    let low : (leb r 0 || leb s p) ≡ false = ground arith in
    let dust : (ltb r 1_000 || ltb (s - p) 1_000) ≡ false = ground arith in
    rw (ea, eb, low, nothing_less r fr, checked_sub_fits s p (omega arith) fs, dust) refl

settle_reserves-ok :
    (timestamp : ℕ) (state : PairStorage) (a b : ℕ)
    → a < two_127
    → b < two_127
    → a * b < two_127
    → settle_reserves timestamp state (pos a) (pos b) (pos 0) (pos 0)
      ≡ ok (record state {
        reserve_a = pos a;
        reserve_b = pos b;
        k_last = pos (a * b);
        block_timestamp_last = timestamp;
      })
unfolding settle_reserves
settle_reserves-ok timestamp state a b fa fb fk =
    rw (nothing_less a fa, nothing_less b fb, checked_mul_fits a b fk) refl

no_protocol_fee-eq :
    (view : FactoryView) (amount : ℤ) (fee : ℕ)
    → view.fee_to ≡ none
    → protocol_fee view amount fee ≡ pos 0
unfolding protocol_fee
no_protocol_fee-eq view amount fee h = (rw h refl)

module _ {T : Type 0} (tokens : TokenClient T) where
  -- Where a pair is neither locked nor frozen, has reserves and a fee state, and the factory takes no
  -- protocol fee; where the ledger has received an input `x` of the first token, pays out the quote
  -- `p` of it, and shows the balances that follow; and where the reserves keep 1_000 on each side and
  -- the scaled product fits into `i128`: the swap for the quote ends with a value. It leaves the
  -- reserves at r + x and s - p, and the ledger as the payout left it.
  pub quoted_swap_succeeds :
      (env : Env) (view : FactoryView) (to : Address) (w : World T) (state : PairStorage)
      (x r s p fee : ℕ) (t : T)
      → IsTrading env view w state r s fee
      → IsFunded tokens env to state x r s p w.ledger t
      → quote_output_amount (pos x) (pos r) (pos s) fee ≡ ok (pos p)
      → 1_000 ≤ r
      → p + 1_000 ≤ s
      → (r + x) * 10_000 * (s * 10_000) < two_127
      → (w' : World T) × (swap tokens env view (pos 0) (pos p) to w ≡ ok w')
        × (state' : PairStorage) × (w'.store.pair_state ≡ some state')
        × (state'.reserve_a ≡ pos (r + x))
        × (state'.reserve_b ≡ pos (s - p))
        × (w'.ledger ≡ t)
  unfolding swap swap_inner acquire pay forward_fees record_protocol_fee
  quoted_swap_succeeds env view to w state x r s p fee t trading funded quoted lr lp no_wrap =
      let (q, eq, px, pr, ps, pf, keep, most, pq) = quoted_largest x r s fee quoted in
      let (fees', tracked) =
        track_volatility-ok env state r s (r + x) (s - p) (pos x) trading.decayed
          trading.first_reserve trading.second_reserve in
      let (in_a, in_b, k) =
        quote_is_largest_accepted state x r s p fee trading.first_reserve trading.second_reserve
          no_wrap quoted (omega arith) in
      let wide_le = mul_mono ((r + x) * 10_000) _ 1 (s * 10_000) (le_refl _) (omega arith) in
      let tall_le = mul_mono 1 ((r + x) * 10_000) (s * 10_000) _ (omega arith) (le_refl _) in
      let area_le =
        mul_mono (r + x) ((r + x) * 10_000) (s - p) (s * 10_000) (omega arith) (omega arith) in
      let first_in =
        subst (λ v. amount_in (pos (r + x)) v (pos 0) ≡ ok (pos x)) (sym trading.first_reserve)
          in_a in
      let second_in =
        subst (λ v. amount_in (pos (s - p)) v (pos p) ≡ ok (pos 0)) (sym trading.second_reserve)
          in_b in
      let outputs =
        check_outputs-ok state r s p trading.first_reserve trading.second_reserve lr lp
          (omega arith) (omega arith) in
      let new_reserves =
        settle_reserves-ok env.timestamp state (r + x) (s - p) (omega arith) (omega arith)
          (omega arith) in
      let some_out : leb p 0 ≡ false = ground arith in
      let pays : ltb 0 p ≡ true = ground arith in
      let some_in : leb x 0 ≡ false = ground arith in
      let accepted = k.1 (ground arith) in
      let free_a = no_protocol_fee-eq view (pos x) fee trading.no_protocol_fee in
      let free_b = no_protocol_fee-eq view (pos 0) fee trading.no_protocol_fee in
      let state' : PairStorage = record state {
        reserve_a = pos (r + x);
        reserve_b = pos (s - p);
        k_last = pos ((r + x) * (s - p));
        block_timestamp_last = env.timestamp;
      } in
      let w' : World T = record w {
        store = record w.store { pair_state = some state'; fee_state = some fees'; locked = false };
        ledger = t;
      } in
      (
        w',
        (rw
            (
              trading.unlocked, trading.thawed, some_out, trading.state_read, trading.fees_read,
              outputs, trading.charged, pays, funded.paid_out, funded.first_balance,
              funded.second_balance, first_in, second_in, some_in, accepted, free_a, free_b,
              trading.no_protocol_fee, new_reserves, tracked,
            )
            refl),
        state',
        refl,
        refl,
        refl,
        refl,
      )
