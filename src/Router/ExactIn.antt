-- ===== src/Router/ExactIn.antt =====
-- What a swap of an exact input does (contracts/router/src/lib.rs).
use coralswap_core.Prelude.{
  List, Option, ap, false, length, min, some, subst, sym, true, ℕ, ◌∙◌, ◌≡◌, ◌≤◌,
}
use coralswap_core.Env.{Address, Env}
use coralswap_core.Errors.{RouterError}
use coralswap_core.Int.{leb_ℤ, ltb_ℤ, pos, ℤ}
use coralswap_core.Int.Laws.{not_ltb_ℤ}
use coralswap_core.Outcome.{
  >>=-then, ok, ok-injective, ok_or, ok_or-eq-ok, raise_if, raise_if-eq-ok, require, require-eq-ok,
}
use coralswap_core.Router.Guards.{IsInTime, check_deadline-eq-ok, check_hops-eq-ok}
use coralswap_core.Router.Paths.{get_path_amounts_out, get_path_minimums}
use coralswap_core.Router.State.{Network, RouterWorld}
use coralswap_core.Router.Swaps.{
  check_deadline, check_hops, last_or, reach, run_exact_in, swap_exact_tokens_multi_hop,
}

-- What a swap of an exact input that ends with `r` has checked and done.
pub record IsExactIn {W : Type 0} (n : Network W) (env : Env) (path : List Address) (amount min : ℤ)
    (to : Address) (deadline : ℕ) (limit : Option ℕ) (w : RouterWorld W) (r : ℤ × RouterWorld W)
    : Type 0 where
  pub in_time : IsInTime env deadline limit
  pub authorized : env.authorized to ≡ true
  pub some_amount : leb_ℤ amount (pos 0) ≡ false
  pub hops : (2 ≤ length path) × (length path ≤ 4)
  pub factory : Address
  pub at_factory : w.store.factory ≡ some factory
  pub amounts : List ℤ
  pub quoted : get_path_amounts_out n factory w.network path amount ≡ ok amounts
  pub out : r.0 ≡ last_or (pos 0) amounts
  pub at_least : leb_ℤ min r.0 ≡ true
  pub executed : run_exact_in n factory env to path amount amounts w.network ≡ ok r.1.network
  pub same_store : r.1.store ≡ w.store

module _ {W : Type 0} (n : Network W) where
  -- A swap of an exact input that succeeds is in time, authorized by the payer, along 2 to 4 tokens,
  -- and of a positive input. It returns the last of the amounts that are quoted along the path on
  -- the state before the swap, which is at least the minimum; the hops are executed with these
  -- amounts, and the router's storage stays.
  pub swap_pays_quote :
      (env : Env) (path : List Address) (amount min : ℤ) (to : Address) (deadline : ℕ)
      (limit : Option ℕ) (w : RouterWorld W) {r : ℤ × RouterWorld W}
      → swap_exact_tokens_multi_hop n env path amount min to deadline limit w ≡ ok r
      → IsExactIn n env path amount min to deadline limit w r
  unfolding swap_exact_tokens_multi_hop
  swap_pays_quote env path amount min to deadline limit w {r} h =
      >>=-then (check_deadline env deadline limit) _ h λ u0 e0 h0.
        >>=-then (raise_if (leb_ℤ amount (pos 0)) RouterError.zero_amount) _ h0 λ u1 e1 h1.
          >>=-then (check_hops path) _ h1 λ u2 e2 h2.
            >>=-then (ok_or w.store.factory RouterError.pair_not_found) _ h2 λ f e3 h3.
              >>=-then (get_path_amounts_out n f w.network path amount) _ h3 λ amounts e4 h4.
                let out = last_or (pos 0) amounts in
                >>=-then (raise_if (ltb_ℤ out min) RouterError.insufficient_output_amount) _ h4
                  λ u5 e5 h5. >>=-then (get_path_minimums n f w.network path min) _ h5 λ mins e6 h6.
                    >>=-then (reach amounts mins) _ h6 λ u7 e7 h7.
                      >>=-then (require (env.authorized to)) _ h7 λ u8 e8 h8.
                        >>=-then (run_exact_in n f env to path amount amounts w.network) _ h8
                          λ network e9 h9.
                            let done = ok-injective h9 in
                            let is_out : out ≡ r.0 = ap (λ (p : ℤ × RouterWorld W). p.0) done in
                            record {
                              in_time = check_deadline-eq-ok env deadline limit e0;
                              authorized = require-eq-ok _ e8;
                              some_amount = raise_if-eq-ok _ RouterError.zero_amount e1;
                              hops = check_hops-eq-ok path e2;
                              factory = f;
                              at_factory = ok_or-eq-ok _ RouterError.pair_not_found e3;
                              amounts = amounts;
                              quoted = e4;
                              out = sym is_out;
                              at_least =
                                  subst (λ x. leb_ℤ min x ≡ true) is_out
                                    (not_ltb_ℤ out min
                                      (raise_if-eq-ok _ RouterError.insufficient_output_amount e5));
                              executed = e9 ∙ ap (λ (p : ℤ × RouterWorld W). ok p.1.network) done;
                              same_store = ap (λ (p : ℤ × RouterWorld W). p.1.store) (sym done);
                            }
