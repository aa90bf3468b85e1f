-- ===== src/Pair/SeedGain.antt =====
-- Who gets the reserves of the locked seed (`Pair::burn` of contracts/pair/src/lib.rs).
use coralswap_core.Pair.Burn
use coralswap_core.Prelude.{arith, ltb, some, true, ℕ, ◌*◌, ◌+◌, ◌-◌, ◌<◌, ◌≡◌, ◌≤◌}
use coralswap_core.Balances.{IsNodup, read}
use coralswap_core.Env.{Address, Env}
use coralswap_core.Int.{pos, ℤ, ◌-ℤ◌}
use coralswap_core.Math.{burn_amounts, minimum_liquidity, subsequent_liquidity}
use coralswap_core.Math.Liquidity.{seed_gain}
use coralswap_core.Outcome.{ok}
use coralswap_core.Pair.State.{PairStorage, TokenClient, World}
use coralswap_core.Pair.Withdrawal.{burn_effect}
use coralswap_core.Quote.Output.{paid}

-- The supply that a burn divides by.
burnable : (s : ℕ) → 1_000 ≤ s → pos s -ℤ minimum_liquidity ≡ pos (s - 1_000)
unfolding ◌-ℤ◌
burnable s h = ground arith

module _ {T : Type 0} (tokens : TokenClient T) where
  -- What a caller who has staged `l` is paid, on reserves and a supply that are natural numbers.
  pub staged_payout :
      (env : Env) (to : Address) (w : World T) (state : PairStorage) (x y s l : ℕ)
      {r : World T × ℤ × ℤ}
      → w.store.pair_state ≡ some state
      → state.reserve_a ≡ pos x
      → state.reserve_b ≡ pos y
      → w.lp.total_supply ≡ pos s
      → read to w.store.pending_lp ≡ pos l
      → IsNodup w.store.pending_lp
      → 0 < l
      → 1_000 ≤ s
      → Burn.burn tokens env to w ≡ ok r
      → burn_amounts (pos l) (pos x) (pos y) (pos (s - 1_000)) ≡ ok (r.1, r.2)
  staged_payout env to w state x y s l {r} es ex ey esup estaged n hl hs h =
      let (_, _, (paid, _), _, _, _, _, _, _, _) = burn_effect tokens env to w state es n h in
      let some_staged : ltb 0 l ≡ true = ground arith in
      rw (estaged, some_staged, ex, ey, esup, burnable s hs) at paid

  -- A pair has reserves and a supply to which a deposit of `a` and `b` in the exact proportion of the
  -- pool has just added, and the depositor has staged the liquidity `l` of that deposit, while the
  -- supply is at most 1_000 * (amount + 1) for both amounts. A burn by the depositor that succeeds pays
  -- strictly more than the deposit on both sides: it divides by the supply less the locked seed, so
  -- that the reserves of the seed go to whoever burns.
  pub withdrawal_outpays_deposit :
      (env : Env) (to : Address) (w : World T) (state : PairStorage) (a b ra rb s l : ℕ)
      {r : World T × ℤ × ℤ}
      → w.store.pair_state ≡ some state
      → state.reserve_a ≡ pos (ra + a)
      → state.reserve_b ≡ pos (rb + b)
      → w.lp.total_supply ≡ pos (s + l)
      → read to w.store.pending_lp ≡ pos l
      → IsNodup w.store.pending_lp
      → 0 < l
      → 1_000 < s + l
      → l * ra ≡ a * s
      → l * rb ≡ b * s
      → s + l ≤ 1_000 * (a + 1)
      → s + l ≤ 1_000 * (b + 1)
      → subsequent_liquidity (pos a) (pos b) (pos ra) (pos rb) (pos s) ≡ ok (pos l)
      → Burn.burn tokens env to w ≡ ok r
      → (pa : ℕ) × (pb : ℕ) × (r.1 ≡ pos pa) × (r.2 ≡ pos pb) × (a < pa) × (b < pb)
  withdrawal_outpays_deposit env to w state a b ra rb s l {r} es ex ey esup estaged n hl hs ea eb la
        lb made h =
      let paid =
        staged_payout env to w state (ra + a) (rb + b) (s + l) l es ex ey esup estaged n hl
          (omega arith) h in
      let (pa, pb, e, more_a, more_b) = seed_gain a b ra rb s l hs ea eb la lb made paid in
      (pa, pb, cc, cc, more_a, more_b)
