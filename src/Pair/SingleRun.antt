-- ===== src/Pair/SingleRun.antt =====
-- What a single-sided deposit that succeeds has done (`mint_with_one_token` of
-- contracts/pair/src/lib.rs).
use coralswap_core.Prelude.{Bool, false, if◌then◌else◌, not, or-false, subst, true, ◌==◌, ◌||◌, ◌≡◌}
use coralswap_core.Env.{Address, Env}
use coralswap_core.Errors.{PairError}
use coralswap_core.Fee.{compute_fee_bps}
use coralswap_core.Int.{checked_sub, leb_ℤ, pos, ℤ}
use coralswap_core.Math.{compute_swap_in_for_single_side, get_amount_out}
use coralswap_core.Outcome.{>>=-then, ok, ok_or, raise_if, raise_if-eq-ok, require, unwrap}
use coralswap_core.Pair.Run.{acquire-eq-ok}
use coralswap_core.Pair.Single.{is_pool_token, issue_lp, mint_with_one_token}
use coralswap_core.Pair.State.{
  FactoryView, TokenClient, World, acquire, ensure_lp_token_not_paused, ensure_not_frozen,
  get_fee_state, get_pair_state, release, set_locked,
}
use coralswap_core.Pair.Swap.{swap_inner}

module _ {T : Type 0} (tokens : TokenClient T) where
  -- It has pulled the amount in, swapped a part of it, and issued LP for two positive deposits.
  pub record SingleRun (env : Env) (view : FactoryView) (to : Address) (min_lp_out : ℤ)
      (w : World T) (r : World T × ℤ) : Type 0 where
    pub pulled : T
    pub out_a : ℤ
    pub out_b : ℤ
    pub deposit_a : ℤ
    pub deposit_b : ℤ
    pub swapped : World T
    pub issued : World T × ℤ
    pub was_unlocked : w.store.locked ≡ false
    pub positive_a : leb_ℤ deposit_a (pos 0) ≡ false
    pub positive_b : leb_ℤ deposit_b (pos 0) ≡ false
    pub swap_done :
        swap_inner tokens env view out_a out_b env.contract
          (record (set_locked true w) { ledger = pulled })
        ≡ ok swapped
    pub issue_done : issue_lp tokens env to deposit_a deposit_b min_lp_out swapped ≡ ok issued
    pub result : r ≡ (release issued.0, issued.1)

  choose-positive :
      (c : Bool) (x y : ℤ)
      → leb_ℤ x (pos 0) ≡ false
      → leb_ℤ y (pos 0) ≡ false
      → leb_ℤ (if c then x else y) (pos 0) ≡ false
  choose-positive true x y h k = h
  choose-positive false x y h k = k

  pub mint_with_one_token-run :
      (env : Env) (view : FactoryView) (to token_in : Address) (amount min_lp_out : ℤ) (w : World T)
      {r : World T × ℤ}
      → mint_with_one_token tokens env view to token_in amount min_lp_out w ≡ ok r
      → SingleRun env view to min_lp_out w r
  unfolding mint_with_one_token
  mint_with_one_token-run env view to token_in amount min_lp_out w {r} h =
      >>=-then (require (env.authorized to)) _ h λ u0 g0 h0. >>=-then (acquire w) _ h0 λ w1 g1 h1.
        >>=-then (ensure_not_frozen w1) _ h1 λ u2 g2 h2.
          >>=-then (get_pair_state w1) _ h2 λ st g3 h3.
            >>=-then (get_fee_state w1) _ h3 λ fees g4 h4.
              >>=-then (ensure_lp_token_not_paused w1) _ h4 λ u5 g5 h5.
                >>=-then
                  (raise_if (leb_ℤ amount (pos 0) || leb_ℤ min_lp_out (pos 0))
                    PairError.invalid_input)
                  _ h5
                  λ u6 g6 h6.
                    >>=-then (raise_if (not (is_pool_token st token_in)) PairError.invalid_input) _
                      h6
                      λ u7 g7 h7.
                        let in_is_a = token_in == st.token_a in
                        let reserve_in = if in_is_a then st.reserve_a else st.reserve_b in
                        let reserve_out = if in_is_a then st.reserve_b else st.reserve_a in
                        >>=-then
                          (raise_if (leb_ℤ reserve_in (pos 0) || leb_ℤ reserve_out (pos 0))
                            PairError.insufficient_liquidity)
                          _ h7
                          λ u8 g8 h8. >>=-then (compute_fee_bps fees) _ h8 λ fee_bps g9 h9.
                            >>=-then (compute_swap_in_for_single_side reserve_in amount fee_bps) _
                              h9
                              λ swap_in g10 h10.
                                >>=-then
                                  (raise_if (leb_ℤ swap_in (pos 0) || leb_ℤ amount swap_in)
                                    PairError.invalid_input)
                                  _ h10
                                  λ u11 g11 h11.
                                    >>=-then
                                      (unwrap
                                        (tokens.transfer token_in to env.contract amount w1.ledger))
                                      _ h11
                                      λ t g12 h12.
                                        >>=-then
                                          (get_amount_out swap_in reserve_in reserve_out fee_bps) _
                                          h12
                                          λ swap_out g13 h13.
                                            >>=-then
                                              (raise_if (leb_ℤ swap_out (pos 0))
                                                PairError.insufficient_liquidity)
                                              _ h13
                                              λ u14 g14 h14.
                                                >>=-then
                                                  (ok_or (checked_sub amount swap_in)
                                                    PairError.overflow)
                                                  _ h14
                                                  λ deposit_in g15 h15.
                                                    >>=-then
                                                      (raise_if
                                                        (leb_ℤ deposit_in (pos 0)
                                                          || leb_ℤ swap_out (pos 0))
                                                        PairError.insufficient_liquidity_minted)
                                                      _ h15
                                                      λ u16 g16 h16.
                                                        let out_a =
                                                          if in_is_a then pos 0 else swap_out in
                                                        let out_b =
                                                          if in_is_a then swap_out else pos 0 in
                                                        let deposit_a =
                                                          if in_is_a
                                                          then deposit_in
                                                          else swap_out in
                                                        let deposit_b =
                                                          if in_is_a
                                                          then swap_out
                                                          else deposit_in in
                                                        >>=-then
                                                          (swap_inner tokens env view out_a out_b
                                                            env.contract (record w1 { ledger = t }))
                                                          _ h16
                                                          λ w2 g17 h17.
                                                            >>=-then
                                                            (issue_lp tokens env to deposit_a
                                                            deposit_b min_lp_out w2)
                                                            _ h17
                                                            λ q g18 h18.
                                                            let (taken, unlocked) =
                                                            acquire-eq-ok w g1 in
                                                            let (some_in, some_out) = or-false _ _ (
                                                            raise_if-eq-ok _
                                                            PairError.insufficient_liquidity_minted
                                                            g16) in
                                                            record {
                                                            pulled = t;
                                                            out_a = out_a;
                                                            out_b = out_b;
                                                            deposit_a = deposit_a;
                                                            deposit_b = deposit_b;
                                                            swapped = w2;
                                                            issued = q;
                                                            was_unlocked = unlocked;
                                                            positive_a =
                                                            choose-positive in_is_a deposit_in
                                                            swap_out some_in some_out;
                                                            positive_b =
                                                            choose-positive in_is_a swap_out
                                                            deposit_in some_out some_in;
                                                            swap_done =
                                                            subst
                                                            (λ (x : World T).
                                                            swap_inner tokens env view out_a out_b
                                                            env.contract (record x { ledger = t })
                                                            ≡ ok w2)
                                                            taken g17;
                                                            issue_done = g18;
                                                            result = cc;
                                                            }
