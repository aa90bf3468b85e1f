-- ===== src/Pair/Withdrawal.antt =====
-- What `Pair::burn` pays and what it leaves (contracts/pair/src/lib.rs).
use coralswap_core.LpToken
use coralswap_core.Pair.Burn
use coralswap_core.Prelude.{
  ap, arith, false, if◌then◌else◌, some, subst, sym, true, ◌&&◌, ◌==◌, ◌≡◌,
}
use coralswap_core.Balances.{IsNodup, read}
use coralswap_core.Env.{Address, Env, invoke}
use coralswap_core.Errors.{PairError}
use coralswap_core.Int.{checked_mul, checked_sub, eq_ℤ, leb_ℤ, ltb_ℤ, pos, ℤ, ◌*ℤ◌, ◌-ℤ◌}
use coralswap_core.Int.Laws.{checked_mul-eq-some, checked_sub-eq-some}
use coralswap_core.LpToken.{LpToken}
use coralswap_core.Math.{burn_amounts, minimum_liquidity}
use coralswap_core.Outcome.{
  >>=-then, ok, ok_or, ok_or-eq-ok, raise_if, raise_if-eq-ok, require, unwrap, unwrap-eq-ok,
}
use coralswap_core.Pair.Burn.{burn_payout, clear_pending, is_dust_left, redeemable}
use coralswap_core.Pair.Redeemed.{burn-supply, burn_payout_lem, clear_pending_lem, redeemable_lem}
use coralswap_core.Pair.Run.{acquire-eq-ok, nested-eq-ok}
use coralswap_core.Pair.State.{
  PairStorage, TokenClient, World, acquire, ensure_lp_token_not_paused, get_pair_state,
  minimum_reserve, nested,
}

module _ {T : Type 0} (tokens : TokenClient T) where
  -- A withdrawal that succeeds was authorized by its caller while the LP token was not paused. It
  -- redeems what the caller has staged, or else what nobody has; the amounts are at least 1_000 on
  -- both sides, in the proportion of the redeemed LP to the supply less the locked seed. The ledger
  -- is that after their transfers out of the pair to the caller. The reserves fall by exactly these
  -- amounts, each to zero or to at least 1_000, `k_last` is their product, and the supply falls by
  -- the redeemed LP. Redeemed staged LP is struck from the caller's entry, which becomes zero, and
  -- from the total; what the others have staged stays. No address is listed twice among the entries.
  pub burn_effect :
      (env : Env) (to : Address) (w : World T) (state : PairStorage) {r : World T × ℤ × ℤ}
      → w.store.pair_state ≡ some state
      → IsNodup w.store.pending_lp
      → Burn.burn tokens env to w ≡ ok r
      → (env.authorized to ≡ true)
        × (w.store.lp_token_paused ≡ false)
        × (let pending = read to w.store.pending_lp in
            let l =
              if ltb_ℤ (pos 0) pending
              then pending
              else LpToken.balance w.lp env.contract
                -ℤ minimum_liquidity
                -ℤ w.store.pending_lp_total in
            (burn_amounts l state.reserve_a state.reserve_b (w.lp.total_supply -ℤ minimum_liquidity)
              ≡ ok (r.1, r.2))
            × (r.0.lp.total_supply ≡ w.lp.total_supply -ℤ l))
        × (leb_ℤ minimum_reserve r.1 ≡ true)
        × (leb_ℤ minimum_reserve r.2 ≡ true)
        × (r.0.store.pair_state
            ≡ some (record state {
              reserve_a = state.reserve_a -ℤ r.1;
              reserve_b = state.reserve_b -ℤ r.2;
              k_last = (state.reserve_a -ℤ r.1) *ℤ (state.reserve_b -ℤ r.2);
              block_timestamp_last = env.timestamp;
            }))
        × (is_dust_left (state.reserve_a -ℤ r.1) ≡ false)
        × (is_dust_left (state.reserve_b -ℤ r.2) ≡ false)
        × (let pending = read to w.store.pending_lp in
            ((a : Address)
              → read a r.0.store.pending_lp
                ≡ (if ltb_ℤ (pos 0) pending && a == to then pos 0 else read a w.store.pending_lp))
            × (r.0.store.pending_lp_total ≡ (
                if ltb_ℤ (pos 0) pending
                then w.store.pending_lp_total -ℤ pending
                else w.store.pending_lp_total)))
        × ((t : T) × (tokens.transfer state.token_a env.contract to r.1 w.ledger ≡ some t)
            × (tokens.transfer state.token_b env.contract to r.2 t ≡ some r.0.ledger))
  unfolding Burn.burn
  burn_effect env to w state {r} es n h = >>=-then (require (env.authorized to)) _ h λ u0 g0 h0.
      >>=-then (acquire w) _ h0 λ w1 g1 h1. >>=-then (get_pair_state w1) _ h1 λ st g2 h2.
        >>=-then (ensure_lp_token_not_paused w1) _ h2 λ u3 g3 h3.
          >>=-then
            (raise_if (eq_ℤ w1.lp.total_supply (pos 0)) PairError.insufficient_liquidity_burned) _
            h3
            λ u4 g4 h4.
              >>=-then (ok_or (checked_sub w1.lp.total_supply minimum_liquidity) PairError.overflow)
                _ h4
                λ supply g5 h5.
                  >>=-then (raise_if (eq_ℤ supply (pos 0)) PairError.insufficient_liquidity_burned)
                    _ h5
                    λ u6 g6 h6.
                      >>=-then
                        (redeemable (LpToken.balance w1.lp env.contract)
                          (read to w1.store.pending_lp) w1.store.pending_lp_total)
                        _ h6
                        λ l g7 h7.
                          >>=-then
                            (raise_if (leb_ℤ l (pos 0)) PairError.insufficient_liquidity_burned) _
                            h7
                            λ u8 g8 h8. >>=-then (burn_payout st l supply) _ h8 λ p g9 h9.
                              >>=-then
                                (nested
                                  (LpToken.burn (invoke env st.lp_token) env.contract l w1.lp))
                                _ h9
                                λ lp' g10 h10.
                                  >>=-then
                                    (clear_pending to (read to w1.store.pending_lp)
                                      w1.store.pending_lp_total w1.store)
                                    _ h10
                                    λ s g11 h11.
                                      >>=-then
                                        (unwrap (
                                          tokens.transfer st.token_a env.contract to p.0 w1.ledger))
                                        _ h11
                                        λ t1 g12 h12.
                                          >>=-then
                                            (unwrap
                                              (tokens.transfer st.token_b env.contract to p.1 t1))
                                            _ h12
                                            λ t2 g13 h13.
                                              >>=-then
                                                (ok_or (checked_mul p.2 p.3) PairError.overflow) _
                                                h13
                                                λ k g14 h14.
                                                  let (taken, _) = acquire-eq-ok w g1 in
                                                  let same_pair =
                                                    ap (λ (x : World T). x.store.pair_state)
                                                      taken in
                                                  let same_hint =
                                                    ap (λ (x : World T). x.store.lp_token_paused)
                                                      taken in
                                                  let same_lp = ap (λ (x : World T). x.lp) taken in
                                                  let same_pending =
                                                    ap (λ (x : World T). x.store.pending_lp)
                                                      taken in
                                                  let same_ledger =
                                                    ap (λ (x : World T). x.ledger) taken in
                                                  let at_1 = unwrap-eq-ok _ g12 in
                                                  let at_2 = unwrap-eq-ok _ g13 in
                                                  let same_total =
                                                    ap (λ (x : World T). x.store.pending_lp_total)
                                                      taken in
                                                  let read_pair =
                                                    ok_or-eq-ok w1.store.pair_state
                                                      PairError.not_initialized g2 in
                                                  let st_eq : st ≡ state = cc in
                                                  let not_paused =
                                                    raise_if-eq-ok w1.store.lp_token_paused
                                                      PairError.lp_token_paused g3 in
                                                  let e_supply =
                                                    checked_sub-eq-some _ minimum_liquidity
                                                      (ok_or-eq-ok _ PairError.overflow g5) in
                                                  let e_l =
                                                    redeemable_lem
                                                      (LpToken.balance w1.lp env.contract)
                                                      (read to w1.store.pending_lp)
                                                      w1.store.pending_lp_total g7 in
                                                  let (
                                                    paid_eq, low_a, low_b, left_a, left_b, dust_a,
                                                    dust_b,
                                                  ) =
                                                    burn_payout_lem st l supply g9 in
                                                  let burnt =
                                                    burn-supply (invoke env st.lp_token)
                                                      env.contract l w1.lp (nested-eq-ok _ g10) in
                                                  let (others, total) =
                                                    clear_pending_lem to w1.store
                                                      (subst IsNodup (sym same_pending) n) g11 in
                                                  let product =
                                                    checked_mul-eq-some _ _
                                                      (ok_or-eq-ok _ PairError.overflow g14) in
                                                  (
                                                    ground arith,
                                                    cc,
                                                    (cc, cc),
                                                    cc,
                                                    cc,
                                                    cc,
                                                    cc,
                                                    cc,
                                                    (
                                                      λ a. let kept = others a in cc,
                                                      let e = total in cc,
                                                    ),
                                                    (t1, cc, cc),
                                                  )
