-- ===== src/Pair/Flash.antt =====
-- The flash loan (flash_loan.rs and `Pair::flash_loan`).
use coralswap_core.Prelude.{Option, if◌then◌else◌, ltb, max, none, some, ℕ, ◌&&◌, ◌==◌, ◌||◌}
use coralswap_core.Env.{Address, Env}
use coralswap_core.Errors.{PairError}
use coralswap_core.Factory.FeeRules.{current_fee_bps}
use coralswap_core.Fee.{FeeState}
use coralswap_core.Int.{checked_add, checked_mul, eq_ℤ, ltb_ℤ, max_ℤ, pos, quot, ℤ}
use coralswap_core.LpToken.{LpToken}
use coralswap_core.Outcome.{Outcome, err, ok, ok_or, raise_if, ◌>>=◌, ◌>>◌}
use coralswap_core.Pair.State.{
  PairStorage, TokenClient, World, acquire, ensure_not_frozen, get_pair_state, release,
  set_pair_state,
}
use coralswap_core.Pair.Swap.{pay}

abbrev pub flash_fee_floor_bps : ℕ
flash_fee_floor_bps = 5

abbrev pub max_payload_size : ℕ
max_payload_size = 256

unfoldable pub compute_flash_fee : ℤ → ℕ → Outcome PairError ℤ
unfolding checked_mul quot
compute_flash_fee amount current_fee_bps =
    let charged = do
      product ←
          ok_or (checked_mul amount (pos (max current_fee_bps flash_fee_floor_bps)))
            PairError.fee_overflow
      ok (max_ℤ (quot product (pos 10_000)) (pos 1))
    in if ltb 10_000 current_fee_bps
      then err PairError.flash_loan_fee_too_high
      else if current_fee_bps == 0
      then ok (pos 0)
      else charged

abbrev pub pool_fee_bps : Option FeeState → ℕ
pool_fee_bps none = flash_fee_floor_bps
pool_fee_bps (some fs) = fs.baseline_fee_bps

-- The fee of one side.
abbrev pub flash_fee : ℤ → ℕ → Outcome PairError ℤ
flash_fee amount fee_bps =
    if ltb_ℤ (pos 0) amount then compute_flash_fee amount fee_bps else ok (pos 0)

-- A borrowed side has to come back with its fee.
unfoldable pub check_repaid : ℤ → ℤ → ℤ → ℤ → Outcome PairError (Unit {0})
check_repaid amount reserve fee new_balance =
    let repaid = do
      required ← ok_or (checked_add reserve fee) PairError.overflow
      raise_if (ltb_ℤ new_balance required) PairError.flash_loan_not_repaid
    in if ltb_ℤ (pos 0) amount then repaid else ok tt

-- The update of the reserves, and the check of the invariant.
unfoldable pub settle_flash_loan : PairStorage → ℤ → ℤ → ℤ → Outcome PairError PairStorage
settle_flash_loan state pre_k new_balance_a new_balance_b = do
  post_k ← ok_or (checked_mul new_balance_a new_balance_b) PairError.overflow
  raise_if (ltb_ℤ post_k pre_k) PairError.invalid_k
  ok (record state { reserve_a = new_balance_a; reserve_b = new_balance_b; k_last = post_k })

-- What the pair passes to `on_flash_loan`, less the payload that it does not read.
pub record FlashCall : Type 0 where
  pub initiator : Address
  pub call_token_a : Address
  pub call_token_b : Address
  pub call_amount_a : ℤ
  pub call_amount_b : ℤ
  pub call_fee_a : ℤ
  pub call_fee_b : ℤ

-- `on_flash_loan` is the receiver's contract: what it does to the LP token and to the pool tokens, or
-- `none` when it fails. While it runs the pair is locked, so of the pair's calls it can complete only
-- those without the lock.
module _ {T : Type 0} (tokens : TokenClient T)
    (on_flash_loan : FlashCall → LpToken × T → Option (LpToken × T)) where
  -- The loan between the lock and its release.
  unfoldable pub lend :
      Env → Address → ℤ → ℤ → PairStorage → ℤ → World T → Outcome PairError (World T)
  lend env receiver amount_a amount_b state pre_k w = do
    let fee_bps = pool_fee_bps w.store.fee_state
    fee_a ← flash_fee amount_a fee_bps
    fee_b ← flash_fee amount_b fee_bps
    t1 ← pay tokens env state.token_a receiver amount_a w.ledger
    t2 ← pay tokens env state.token_b receiver amount_b t1
    (lp', t3) ←
        ok_or
          (on_flash_loan
            (record {
              initiator = env.contract;
              call_token_a = state.token_a;
              call_token_b = state.token_b;
              call_amount_a = amount_a;
              call_amount_b = amount_b;
              call_fee_a = fee_a;
              call_fee_b = fee_b;
            })
            (w.lp, t2))
          PairError.flash_callback_failed
    let new_balance_a = tokens.balance t3 state.token_a env.contract
    let new_balance_b = tokens.balance t3 state.token_b env.contract
    check_repaid amount_a state.reserve_a fee_a new_balance_a
    check_repaid amount_b state.reserve_b fee_b new_balance_b
    state' ← settle_flash_loan state pre_k new_balance_a new_balance_b
    ok (record (set_pair_state state' w) { lp = lp'; ledger = t3 })

  unfoldable pub execute_flash_loan :
      Env → Address → ℤ → ℤ → ℕ → World T → Outcome PairError (World T)
  execute_flash_loan env receiver amount_a amount_b data_len w0 = do
    raise_if (ltb max_payload_size data_len) PairError.flash_payload_too_large
    raise_if (ltb_ℤ amount_a (pos 0) || ltb_ℤ amount_b (pos 0)) PairError.insufficient_input_amount
    state ← get_pair_state w0
    let loan = do
      raise_if (ltb_ℤ state.reserve_a amount_a || ltb_ℤ state.reserve_b amount_b)
          PairError.insufficient_liquidity
      pre_k ← ok_or (checked_mul state.reserve_a state.reserve_b) PairError.overflow
      w ← acquire w0
      w' ← lend env receiver amount_a amount_b state pre_k w
      ok (release w')
    if eq_ℤ amount_a (pos 0) && eq_ℤ amount_b (pos 0) then ok w0 else loan

  unfoldable pub flash_loan : Env → Address → ℤ → ℤ → ℕ → World T → Outcome PairError (World T)
  flash_loan env receiver amount_a amount_b data_len w = do
    ensure_not_frozen w
    execute_flash_loan env receiver amount_a amount_b data_len w
