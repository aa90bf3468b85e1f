-- ===== src/Pair/Loan.antt =====
-- What a flash loan charges and what it leaves (contracts/pair/src/flash_loan.rs).
use coralswap_core.Prelude.{
  Option, arith, if◌then◌else◌, ltb, max, some, true, ℕ, ◌*◌, ◌/◌, ◌==◌, ◌≡◌,
}
use coralswap_core.Env.{Address, Env}
use coralswap_core.Errors.{PairError}
use coralswap_core.Int.{leb_ℤ, ltb_ℤ, pos, two_127, ℤ, ◌*ℤ◌, ◌+ℤ◌}
use coralswap_core.LpToken.{LpToken, balance}
use coralswap_core.Outcome.{err, ok}
use coralswap_core.Pair.Flash.{FlashCall, compute_flash_fee, flash_fee, pool_fee_bps}
use coralswap_core.Pair.State.{PairStorage, TokenClient, World}
use coralswap_core.Pair.Swap.{pay}

-- The fee of a positive loan: a rate above 100% is refused, a pool without a fee lends free, and any
-- other pool charges the larger of its rate and 5 basis points, rounded down, but at least 1; only a
-- loan whose product with the rate does not fit fails.
pub compute_flash_fee_lem :
    (amount rate : ℕ)
    → compute_flash_fee (pos amount) rate ≡ (
        if ltb 10_000 rate
        then err PairError.flash_loan_fee_too_high
        else if rate == 0
        then ok (pos 0)
        else if ltb (amount * max rate 5) two_127
        then ok (pos (max (amount * max rate 5 / 10_000) 1))
        else err PairError.fee_overflow)
unfolding compute_flash_fee
compute_flash_fee_lem amount rate = ground arith

module _ {T : Type 0} (tokens : TokenClient T)
    (on_flash_loan : FlashCall → LpToken × T → Option (LpToken × T)) where
  -- The loan of `a` and `b` has been given back with these fees, on reserves whose product was `pre_k`.
  pub record Repaid (env : Env) (receiver : Address) (a b : ℤ) (state : PairStorage) (pre_k : ℤ)
      (w w' : World T) (fee_a fee_b : ℤ) : Type 0 where
    pub fee_a_due : flash_fee a (pool_fee_bps w.store.fee_state) ≡ ok fee_a
    pub fee_b_due : flash_fee b (pool_fee_bps w.store.fee_state) ≡ ok fee_b
    pub reserves :
        w'.store.pair_state
        ≡ some (record state {
          reserve_a = tokens.balance w'.ledger state.token_a env.contract;
          reserve_b = tokens.balance w'.ledger state.token_b env.contract;
          k_last =
              tokens.balance w'.ledger state.token_a env.contract
              *ℤ tokens.balance w'.ledger state.token_b env.contract;
        })
    pub a_back :
        ltb_ℤ (pos 0) a ≡ true
        → leb_ℤ (state.reserve_a +ℤ fee_a) (tokens.balance w'.ledger state.token_a env.contract)
          ≡ true
    pub b_back :
        ltb_ℤ (pos 0) b ≡ true
        → leb_ℤ (state.reserve_b +ℤ fee_b) (tokens.balance w'.ledger state.token_b env.contract)
          ≡ true
    pub product_kept :
        leb_ℤ pre_k (
          tokens.balance w'.ledger state.token_a env.contract
          *ℤ tokens.balance w'.ledger state.token_b env.contract)
        ≡ true
    pub lent_a : T
    pub pays_a : pay tokens env state.token_a receiver a w.ledger ≡ ok lent_a
    pub lent_b : T
    pub pays_b : pay tokens env state.token_b receiver b lent_a ≡ ok lent_b
    pub called :
        on_flash_loan
          (record {
            initiator = env.contract;
            call_token_a = state.token_a;
            call_token_b = state.token_b;
            call_amount_a = a;
            call_amount_b = b;
            call_fee_a = fee_a;
            call_fee_b = fee_b;
          })
          (w.lp, lent_b)
        ≡ some (w'.lp, w'.ledger)
