-- ===== src/Router/Liquidity.antt =====
-- Deposits and withdrawals through the router (contracts/router/src/lib.rs).
use coralswap_core.Prelude.{Bool, Option, if◌then◌else◌, not, ℕ, ◌==◌, ◌||◌}
use coralswap_core.Env.{Address, Env}
use coralswap_core.Errors.{RouterError}
use coralswap_core.Int.{leb_ℤ, ltb_ℤ, pos, ℤ}
use coralswap_core.Outcome.{Outcome, ok, ok_or, raise_if, require, unwrap, ◌>>=◌, ◌>>◌}
use coralswap_core.Router.Paths.{compute_optimal_amounts, get_pair_address, sort_tokens}
use coralswap_core.Router.State.{Network, RouterWorld}
use coralswap_core.Router.Swaps.{check_deadline}

-- The values of two tokens in canonical order, or back in the caller's.
abbrev pub in_order : {A : Type 0} → Bool → A → A → A × A
in_order swapped x y = if swapped then (y, x) else (x, y)

module _ {W : Type 0} (n : Network W) where
  unfoldable pub add_liquidity :
      Env
      → Address
      → Address
      → ℤ
      → ℤ
      → ℤ
      → ℤ
      → Address
      → ℕ
      → Option ℕ
      → RouterWorld W
      → Outcome RouterError (ℤ × ℤ × ℤ × RouterWorld W)
  unfolding check_deadline sort_tokens get_pair_address compute_optimal_amounts
  add_liquidity env token_a token_b amount_a_desired amount_b_desired amount_a_min amount_b_min to
        deadline deadline_ledger w =
      do
        check_deadline env deadline deadline_ledger
        raise_if (leb_ℤ amount_a_desired (pos 0) || leb_ℤ amount_b_desired (pos 0))
            RouterError.zero_amount
        raise_if (token_a == token_b) RouterError.identical_tokens
        (token_0, token_1) ← sort_tokens token_a token_b
        let swapped = not (token_0 == token_a)
        let desired = in_order swapped amount_a_desired amount_b_desired
        let mins = in_order swapped amount_a_min amount_b_min
        factory ← ok_or w.store.factory RouterError.pair_not_found
        pair ← get_pair_address n factory w.network token_0 token_1
        (reserve_0, reserve_1) ← unwrap (n.get_reserves pair w.network)
        (amount_0, amount_1) ←
            compute_optimal_amounts desired.0 desired.1 mins.0 mins.1 reserve_0 reserve_1
        require (env.authorized to)
        w_1 ← unwrap (n.token_transfer env token_0 to pair amount_0 w.network)
        w_2 ← unwrap (n.token_transfer env token_1 to pair amount_1 w_1)
        (liquidity, w_3) ← unwrap (n.mint env pair to w_2)
        let amounts = in_order swapped amount_0 amount_1
        ok (amounts.0, amounts.1, liquidity, record w { network = w_3 })

  unfoldable pub remove_liquidity :
      Env
      → Address
      → Address
      → ℤ
      → ℤ
      → ℤ
      → Address
      → ℕ
      → Option ℕ
      → RouterWorld W
      → Outcome RouterError (ℤ × ℤ × RouterWorld W)
  unfolding check_deadline sort_tokens get_pair_address
  remove_liquidity env token_a token_b liquidity amount_a_min amount_b_min to deadline
        deadline_ledger w =
      do
        check_deadline env deadline deadline_ledger
        raise_if (leb_ℤ liquidity (pos 0)) RouterError.zero_amount
        raise_if (token_a == token_b) RouterError.identical_tokens
        (token_0, token_1) ← sort_tokens token_a token_b
        let swapped = not (token_0 == token_a)
        let mins = in_order swapped amount_a_min amount_b_min
        factory ← ok_or w.store.factory RouterError.pair_not_found
        pair ← get_pair_address n factory w.network token_0 token_1
        require (env.authorized to)
        w_1 ← unwrap (n.deposit_lp env pair to liquidity w.network)
        (amount_0, amount_1, w_2) ← unwrap (n.burn env pair to w_1)
        raise_if (ltb_ℤ amount_0 mins.0 || ltb_ℤ amount_1 mins.1)
            RouterError.insufficient_output_amount
        let amounts = in_order swapped amount_0 amount_1
        ok (amounts.0, amounts.1, record w { network = w_2 })
