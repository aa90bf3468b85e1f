-- ===== src/Pair/Run.antt =====
-- What a swap that succeeds has computed, step by step (`swap_inner` of contracts/pair/src/lib.rs).
use coralswap_core.Prelude.{ap, false, some, true, ℕ, ◌&&◌, ◌∙◌, ◌≡◌}
use coralswap_core.Env.{Address, Env}
use coralswap_core.Errors.{PairError}
use coralswap_core.Fee.{FeeState}
use coralswap_core.Int.{leb_ℤ, pos, ℤ}
use coralswap_core.Outcome.{>>=-then, Outcome, err, ok, ok_or-eq-ok, raise_if, raise_if-eq-ok, trap}
use coralswap_core.Pair.State.{
  FactoryView, PairStorage, TokenClient, World, acquire, get_fee_state, get_pair_state, nested,
  set_locked,
}
use coralswap_core.Pair.Swap.{
  amount_in, check_k, check_outputs, forward_fees, pay, protocol_fee, settle_reserves, swap_fee,
  swap_inner, track_volatility,
}

pub nested-eq-ok : {E F A : Type 0} (m : Outcome E A) {a : A} → nested {F = F} m ≡ ok a → m ≡ ok a
nested-eq-ok (ok b) h = cc
nested-eq-ok (err e) h = cc
nested-eq-ok trap h = cc

pub acquire-eq-ok :
    {T : Type 0} (w : World T) {w' : World T}
    → acquire w ≡ ok w'
    → (w' ≡ set_locked true w) × (w.store.locked ≡ false)
unfolding acquire
acquire-eq-ok w h =
    >>=-then (raise_if w.store.locked PairError.locked) _ h
      λ u g0 h0. (cc, raise_if-eq-ok w.store.locked PairError.locked g0)

module _ {T : Type 0} (tokens : TokenClient T) where
  -- The intermediate values of `swap_inner`, and the checks that they have passed.
  pub record SwapRun (env : Env) (view : FactoryView) (amount_a_out amount_b_out : ℤ)
      (w w' : World T) : Type 0 where
    pub state : PairStorage
    pub state' : PairStorage
    pub fees : FeeState
    pub decayed : FeeState
    pub fee_bps : ℕ
    pub paid_out : T
    pub amount_a_in : ℤ
    pub amount_b_in : ℤ
    pub state_read : w.store.pair_state ≡ some state
    pub fees_read : w.store.fee_state ≡ some fees
    pub outputs_checked : check_outputs state amount_a_out amount_b_out ≡ ok tt
    pub fee_found : swap_fee env view fees ≡ ok (decayed, fee_bps)
    pub a_in :
        amount_in (tokens.balance paid_out state.token_a env.contract) state.reserve_a amount_a_out
        ≡ ok amount_a_in
    pub b_in :
        amount_in (tokens.balance paid_out state.token_b env.contract) state.reserve_b amount_b_out
        ≡ ok amount_b_in
    pub some_in : (leb_ℤ amount_a_in (pos 0) && leb_ℤ amount_b_in (pos 0)) ≡ false
    pub k_checked :
        check_k state
          (tokens.balance paid_out state.token_a env.contract)
          (tokens.balance paid_out state.token_b env.contract)
          amount_a_in
          amount_b_in
          fee_bps
        ≡ ok tt
    pub settled :
        settle_reserves env.timestamp state
          (tokens.balance paid_out state.token_a env.contract)
          (tokens.balance paid_out state.token_b env.contract)
          (protocol_fee view amount_a_in fee_bps)
          (protocol_fee view amount_b_in fee_bps)
        ≡ ok state'
    pub forwarded :
        forward_fees tokens env view state
          (protocol_fee view amount_a_in fee_bps)
          (protocol_fee view amount_b_in fee_bps)
          paid_out
        ≡ ok w'.ledger
    pub stored : w'.store.pair_state ≡ some state'

  pub swap_inner-run :
      (env : Env) (view : FactoryView) (amount_a_out amount_b_out : ℤ) (to : Address) (w : World T)
      {w' : World T}
      → swap_inner tokens env view amount_a_out amount_b_out to w ≡ ok w'
      → SwapRun env view amount_a_out amount_b_out w w'
  unfolding swap_inner
  swap_inner-run env view a b to w {w'} h =
      >>=-then (raise_if (leb_ℤ a (pos 0) && leb_ℤ b (pos 0)) PairError.insufficient_output_amount)
        _ h
        λ u0 g0 h0. >>=-then (get_pair_state w) _ h0 λ state g1 h1.
          >>=-then (get_fee_state w) _ h1 λ fees g2 h2.
            >>=-then (check_outputs state a b) _ h2 λ u3 g3 h3.
              >>=-then (swap_fee env view fees) _ h3 λ found g4 h4.
                >>=-then (pay tokens env state.token_a to a w.ledger) _ h4 λ t1 g5 h5.
                  >>=-then (pay tokens env state.token_b to b t1) _ h5 λ t2 g6 h6.
                    >>=-then (amount_in _ state.reserve_a a) _ h6 λ in_a g7 h7.
                      >>=-then (amount_in _ state.reserve_b b) _ h7 λ in_b g8 h8.
                        >>=-then
                          (raise_if (leb_ℤ in_a (pos 0) && leb_ℤ in_b (pos 0))
                            PairError.insufficient_input_amount)
                          _ h8
                          λ u9 g9 h9.
                            >>=-then (check_k state _ _ in_a in_b found.1) _ h9 λ u10 g10 h10.
                              >>=-then (forward_fees tokens env view state _ _ t2) _ h10
                                λ t3 g11 h11.
                                  >>=-then (settle_reserves env.timestamp state _ _ _ _) _ h11
                                    λ state' g12 h12.
                                      >>=-then (track_volatility env state _ _ _ found.0) _ h12
                                        λ fees' g13 h13. record {
                                          state = state;
                                          state' = state';
                                          fees = fees;
                                          decayed = found.0;
                                          fee_bps = found.1;
                                          paid_out = t2;
                                          amount_a_in = in_a;
                                          amount_b_in = in_b;
                                          state_read =
                                              ok_or-eq-ok w.store.pair_state
                                                PairError.not_initialized g1;
                                          fees_read =
                                              ok_or-eq-ok w.store.fee_state
                                                PairError.not_initialized g2;
                                          outputs_checked = g3;
                                          fee_found = g4;
                                          a_in = g7;
                                          b_in = g8;
                                          some_in =
                                              raise_if-eq-ok _ PairError.insufficient_input_amount
                                                g9;
                                          k_checked = g10;
                                          forwarded = g11 ∙ ap ok cc;
                                          settled = g12;
                                          stored = cc;
                                        }
