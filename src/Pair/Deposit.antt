-- ===== src/Pair/Deposit.antt =====
-- What `Pair::mint` records (contracts/pair/src/lib.rs).
use coralswap_core.LpToken
use coralswap_core.Pair.Mint
use coralswap_core.Prelude.{arith, false, if◌then◌else◌, some, true, ◌≡◌}
use coralswap_core.Env.{Address, Env, invoke}
use coralswap_core.Int.{eq_ℤ, leb_ℤ, pos, ℤ, ◌*ℤ◌, ◌+ℤ◌, ◌-ℤ◌}
use coralswap_core.Int.Laws.{checked_add_lem, checked_mul_lem, checked_sub_lem, int_laws, not_ltb_ℤ}
use coralswap_core.LpToken.{LpToken}
use coralswap_core.Math.{minimum_liquidity}
use coralswap_core.Outcome.{ok}
use coralswap_core.Pair.Mint.{mint_liquidity}
use coralswap_core.Pair.State.{
  PairStorage, TokenClient, World, acquire, min_liquidity_for_user, minimum_reserve,
}

mint-supply :
    (env : Env) (to : Address) (amount : ℤ) (t : LpToken) {t' : LpToken}
    → LpToken.mint env to amount t ≡ ok t'
    → t'.total_supply ≡ t.total_supply +ℤ amount
unfolding LpToken.mint
mint-supply env to amount t h = ground (arith, checked_add_lem t.total_supply amount)

-- What a deposit adds to the supply besides its liquidity: the first one locks the seed.
abbrev pub seed_of : ℤ → ℤ
seed_of supply = if eq_ℤ supply (pos 0) then minimum_liquidity else pos 0

mint_liquidity-supply :
    (env : Env) (state : PairStorage) (a b : ℤ) (lp : LpToken) {r : ℤ × LpToken}
    → mint_liquidity env state a b lp ≡ ok r
    → r.1.total_supply ≡ lp.total_supply +ℤ seed_of lp.total_supply
unfolding mint_liquidity LpToken.mint
mint_liquidity-supply env state a b lp {r} h =
    grind (int_laws, checked_add_lem lp.total_supply minimum_liquidity)

module _ {T : Type 0} (tokens : TokenClient T) where
  -- A deposit that succeeds was authorized by its receiver on a pair that is neither frozen nor
  -- paused. It records the balances that the tokens report as the reserves, both at least 1_000 above
  -- the old ones, and their product as `k_last`; the liquidity is at least 1_000 and the supply grows
  -- by it, and by the locked seed if it was zero. It moves no pool token.
  pub mint_effect :
      (env : Env) (to : Address) (w : World T) (state : PairStorage) {r : World T × ℤ}
      → w.store.pair_state ≡ some state
      → Mint.mint tokens env to w ≡ ok r
      → (env.authorized to ≡ true)
        × (w.store.frozen ≡ false)
        × (w.store.lp_token_paused ≡ false)
        × (let bal_a = tokens.balance w.ledger state.token_a env.contract in
            let bal_b = tokens.balance w.ledger state.token_b env.contract in
            (r.0.store.pair_state
              ≡ some (record state {
                reserve_a = bal_a;
                reserve_b = bal_b;
                k_last = bal_a *ℤ bal_b;
                block_timestamp_last = env.timestamp;
              }))
            × (leb_ℤ minimum_reserve (bal_a -ℤ state.reserve_a) ≡ true)
            × (leb_ℤ minimum_reserve (bal_b -ℤ state.reserve_b) ≡ true))
        × (leb_ℤ min_liquidity_for_user r.1 ≡ true)
        × (r.0.lp.total_supply ≡ w.lp.total_supply +ℤ seed_of w.lp.total_supply +ℤ r.1)
        × (r.0.ledger ≡ w.ledger)
  unfolding Mint.mint acquire
  mint_effect env to w state {r} es h =
      let bal_a = tokens.balance w.ledger state.token_a env.contract in
      let bal_b = tokens.balance w.ledger state.token_b env.contract in
      let in_a = bal_a -ℤ state.reserve_a in
      let in_b = bal_b -ℤ state.reserve_b in
      let sub_a = checked_sub_lem bal_a state.reserve_a in
      let sub_b = checked_sub_lem bal_b state.reserve_b in
      let kept_a = not_ltb_ℤ in_a minimum_reserve in
      let kept_b = not_ltb_ℤ in_b minimum_reserve in
      (
        ground arith,
        ground arith,
        ground arith,
        (
          ground (arith, sub_a, sub_b, checked_mul_lem bal_a bal_b),
          ground (arith, sub_a, kept_a),
          ground (arith, sub_b, kept_b),
        ),
        ground (arith, λ (x : ℤ). not_ltb_ℤ x min_liquidity_for_user),
        grind (
          arith,
          sub_a,
          sub_b,
          λ (q : ℤ × LpToken). mint_liquidity-supply env state in_a in_b w.lp {r = q},
          λ (x : ℤ) (t t' : LpToken). mint-supply (invoke env state.lp_token) to x t {t' = t'},
        ),
        ground arith,
      )
