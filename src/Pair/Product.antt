-- ===== src/Pair/Product.antt =====
-- The product of the reserves over a swap (`Pair::swap` of contracts/pair/src/lib.rs).
use coralswap_core.Prelude.{
  ap, arith, false, inl, inr, mul_mono, or-false, some, sym, true, ℕ, ◌&&◌, ◌*◌, ◌<◌, ◌||◌, ◌∙◌,
  ◌≡◌, ◌≤◌, ◌⊎◌,
}
use coralswap_core.Env.{Address, Env}
use coralswap_core.Errors.{PairError}
use coralswap_core.Fee.{FeeState}
use coralswap_core.Fee.Volatility.{capped}
use coralswap_core.Int.{checked_sub, leb_ℤ, ltb_ℤ, negsuc, pos, ℤ, ◌-ℤ◌}
use coralswap_core.Int.Laws.{checked_sub-eq-some}
use coralswap_core.LpToken.{balance}
use coralswap_core.Outcome.{>>=-then, ok, ok_or, ok_or-eq-ok, raise_if, raise_if-eq-ok}
use coralswap_core.Pair.FeeCap.{IsFeeCapped, swap_fee-le}
use coralswap_core.Pair.KCheck.{amount_in-le, amount_in-nonneg, check_k-neg-left, check_k-neg-right}
use coralswap_core.Pair.Reserves.{HasReserves, reserves_kept}
use coralswap_core.Pair.Run.{SwapRun, acquire-eq-ok, swap_inner-run}
use coralswap_core.Pair.State.{
  FactoryView, PairStorage, TokenClient, World, acquire, ensure_not_frozen, minimum_reserve,
}
use coralswap_core.Pair.Swap.{
  check_k, check_outputs, protocol_fee, settle_reserves, swap, swap_inner,
}

above_floor : (z : ℤ) → ltb_ℤ z minimum_reserve ≡ false → leb_ℤ (pos 0) z ≡ true
above_floor (pos n) h = ground arith
above_floor (negsuc n) h = cc

outputs_left :
    (state : PairStorage) (a b : ℤ)
    → check_outputs state a b ≡ ok tt
    → (leb_ℤ (pos 0) (state.reserve_a -ℤ a) ≡ true) × (leb_ℤ (pos 0) (state.reserve_b -ℤ b) ≡ true)
unfolding check_outputs
outputs_left state a b h =
    >>=-then
      (raise_if (leb_ℤ state.reserve_a a || leb_ℤ state.reserve_b b)
        PairError.insufficient_liquidity)
      _ h
      λ u g0 h0. >>=-then (ok_or (checked_sub state.reserve_a a) PairError.overflow) _ h0 λ x g1 h1.
        >>=-then (ok_or (checked_sub state.reserve_b b) PairError.overflow) _ h1 λ y g2 h2.
          let (low_a, low_b) =
            or-false (ltb_ℤ x minimum_reserve) (ltb_ℤ y minimum_reserve)
              (raise_if-eq-ok _ PairError.dust_amount h2) in
          let ex = checked_sub-eq-some state.reserve_a a (ok_or-eq-ok _ PairError.overflow g1) in
          let ey = checked_sub-eq-some state.reserve_b b (ok_or-eq-ok _ PairError.overflow g2) in
          (rw (sym ex) (above_floor x low_a), rw (sym ey) (above_floor y low_b))

-- A balance that covers its input, or a negative balance without input.
abbrev Side : ℤ → ℕ → Type 0
Side balance i = (b : ℕ) × (((balance ≡ pos b) × (i ≤ b)) ⊎ ((balance ≡ negsuc b) × (i ≡ 0)))

product_of_sides :
    (timestamp : ℕ) (view : FactoryView) (state : PairStorage) (balance_a balance_b in_a in_b : ℤ)
    (ia ib fee ra rb : ℕ) {state' : PairStorage}
    → HasReserves state ra rb
    → 0 < ra * rb
    → fee ≤ 10_000
    → in_a ≡ pos ia
    → in_b ≡ pos ib
    → Side balance_a ia
    → Side balance_b ib
    → (leb_ℤ in_a (pos 0) && leb_ℤ in_b (pos 0)) ≡ false
    → check_k state balance_a balance_b in_a in_b fee ≡ ok tt
    → settle_reserves timestamp state balance_a balance_b
        (protocol_fee view in_a fee)
        (protocol_fee view in_b fee)
      ≡ ok state'
    → (na nb : ℕ) × HasReserves state' na nb × (state'.k_last ≡ pos (na * nb)) × (ra * rb ≤ na * nb)
product_of_sides t view state x y u v ia ib fee ra rb {state'} r some_k lf eu ev (ba, inl (pa, la))
      (bb, inl (pb, lb)) n h s =
    let h' : check_k state (pos ba) (pos bb) (pos ia) (pos ib) fee ≡ ok tt = cc in
    let s' : settle_reserves t state (pos ba) (pos bb) (protocol_fee view (pos ia) fee)
          (protocol_fee view (pos ib) fee)
        ≡ ok state' =
      cc in
    reserves_kept t view state ba bb ia ib fee ra rb r la lb lf h' s'
product_of_sides t view state x y u v ia ib fee ra rb r some_k lf eu ev (ba, inl (pa, la))
      (bb, inr (pb, zb)) n h s =
    let h' : check_k state (pos ba) (negsuc bb) (pos ia) (pos 0) fee ≡ ok tt = cc in
    absurd (
      check_k-neg-right state ba bb ia fee ra rb r.reserve_a_eq r.reserve_b_eq some_k
        (mul_mono ia ba fee 10_000 la lf) h')
product_of_sides t view state x y u v ia ib fee ra rb r some_k lf eu ev (ba, inr (pa, za))
      (bb, inl (pb, lb)) n h s =
    let h' : check_k state (negsuc ba) (pos bb) (pos 0) (pos ib) fee ≡ ok tt = cc in
    absurd (
      check_k-neg-left state ba bb ib fee ra rb r.reserve_a_eq r.reserve_b_eq some_k
        (mul_mono ib bb fee 10_000 lb lf) h')
product_of_sides t view state x y u v ia ib fee ra rb r some_k lf eu ev (ba, inr (pa, za))
      (bb, inr (pb, zb)) n h s =
    ground arith

module _ {T : Type 0} (tokens : TokenClient T) where
  run_product :
      (env : Env) (view : FactoryView) (amount_a_out amount_b_out : ℤ) (w w' : World T)
      (run : SwapRun tokens env view amount_a_out amount_b_out w w') (ra rb : ℕ)
      → HasReserves run.state ra rb
      → 0 < ra * rb
      → run.fee_bps ≤ 10_000
      → (na nb : ℕ) × HasReserves run.state' na nb
        × (run.state'.k_last ≡ pos (na * nb))
        × (ra * rb ≤ na * nb)
  run_product env view a b w w' run ra rb r some_k lf =
      let (left_a, left_b) = outputs_left run.state a b run.outputs_checked in
      let balance_a = tokens.balance run.paid_out run.state.token_a env.contract in
      let balance_b = tokens.balance run.paid_out run.state.token_b env.contract in
      let (ia, eia) = amount_in-nonneg balance_a run.state.reserve_a a run.a_in in
      let (ib, eib) = amount_in-nonneg balance_b run.state.reserve_b b run.b_in in
      product_of_sides env.timestamp view run.state balance_a balance_b run.amount_a_in
        run.amount_b_in ia ib run.fee_bps ra rb r some_k lf eia eib
        (amount_in-le balance_a run.state.reserve_a a left_a (run.a_in ∙ ap ok eia))
        (amount_in-le balance_b run.state.reserve_b b left_b (run.b_in ∙ ap ok eib)) run.some_in
        run.k_checked run.settled

  -- A swap that succeeds on positive reserves, at a fee of at most 100%, never lowers the product of
  -- the reserves, the protocol's part of the fee included; both reserves stay non-negative and
  -- `k_last` is their product.
  pub swap_keeps_product :
      (env : Env) (view : FactoryView) (amount_a_out amount_b_out : ℤ) (to : Address) (w : World T)
      {w' : World T} (state : PairStorage) (fees : FeeState) (ra rb : ℕ)
      → w.store.pair_state ≡ some state
      → w.store.fee_state ≡ some fees
      → HasReserves state ra rb
      → 0 < ra * rb
      → IsFeeCapped view fees
      → swap tokens env view amount_a_out amount_b_out to w ≡ ok w'
      → (state' : PairStorage) × (na nb : ℕ) × (w'.store.pair_state ≡ some state')
        × HasReserves state' na nb
        × (state'.k_last ≡ pos (na * nb))
        × (ra * rb ≤ na * nb)
  unfolding swap acquire
  swap_keeps_product env view a b to w {w'} state fees ra rb es ef r some_k capped h =
      >>=-then (acquire w) _ h λ w1 g0 h0. >>=-then (ensure_not_frozen w1) _ h0 λ u g1 h1.
        >>=-then (swap_inner tokens env view a b to w1) _ h1 λ w2 g2 h2.
          let (taken, _) = acquire-eq-ok w g0 in
          let same_pair = ap (λ (x : World T). x.store.pair_state) taken in
          let same_fees = ap (λ (x : World T). x.store.fee_state) taken in
          let run_of = swap_inner-run tokens env view a b to w1 g2 in
          let e_state : run_of.state ≡ state = let e = run_of.state_read in cc in
          let e_fees : run_of.fees ≡ fees = let e = run_of.fees_read in cc in
          let r' : HasReserves run_of.state ra rb = rw e_state r in
          let (na, nb, r2, k2, le2) =
            run_product env view a b w1 w2 run_of ra rb r' some_k
              (swap_fee-le env view run_of.fees (rw e_fees capped) run_of.fee_found) in
          (run_of.state', na, nb, cc, r2, k2, le2)
