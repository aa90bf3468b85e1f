-- ===== src/Router/Governed.antt =====
-- Who moves the balances of the router.
use coralswap_core.Router.Admin
use coralswap_core.Prelude.{List, [], ap, false, refl, some, subst, sym, true, ◌∙◌, ◌∷◌, ◌≡◌}
use coralswap_core.Env.{Address, Env}
use coralswap_core.Errors.{RouterError}
use coralswap_core.Host.{Crypto}
use coralswap_core.Int.{leb_ℤ, pos, ℤ}
use coralswap_core.Outcome.{
  >>=-then, ok, ok-injective, ok_or, ok_or-eq-ok, raise_if, raise_if-eq-ok, require-eq-ok, unwrap,
  unwrap-eq-ok,
}
use coralswap_core.Router.Admin.{authorize_governance, sweep}
use coralswap_core.Router.Calls.{RouterCall, router_run}
use coralswap_core.Router.State.{Network, RouterWorld}

-- What a sweep that ends with `r` has checked and done.
pub record IsSweep {W : Type 0} (n : Network W) (env : Env) (token recipient : Address)
    (w : RouterWorld W) (r : ℤ × RouterWorld W) : Type 0 where
  pub factory : Address
  pub at_factory : w.store.factory ≡ some factory
  pub governance : Address
  pub is_governance : n.fee_to_setter factory w.network ≡ some governance
  pub authorized : env.authorized governance ≡ true
  pub whole : r.0 ≡ n.token_balance token env.contract w.network
  pub some_amount : leb_ℤ r.0 (pos 0) ≡ false
  pub moved : n.token_transfer env token env.contract recipient r.0 w.network ≡ some r.1.network
  pub same_store : r.1.store ≡ w.store

module _ {W : Type 0} (n : Network W) where
  -- A sweep that succeeds is authorized by the fee setter of the factory in store, and pays the whole
  -- balance of the router, which is positive, to the recipient.
  pub sweep_is_governed :
      (env : Env) (token recipient : Address) (w : RouterWorld W) {r : ℤ × RouterWorld W}
      → sweep n env token recipient w ≡ ok r
      → IsSweep n env token recipient w r
  unfolding sweep
  sweep_is_governed env token recipient w {r} h =
      let amount = n.token_balance token env.contract w.network in
      >>=-then (authorize_governance n env w) _ h λ u e h0.
        >>=-then (raise_if (leb_ℤ amount (pos 0)) RouterError.zero_amount) _ h0 λ u1 e1 h1.
          >>=-then (unwrap (n.token_transfer env token env.contract recipient amount w.network)) _
            h1
            λ v e2 h2. >>=-then (ok_or w.store.factory RouterError.pair_not_found) _ e λ f k0 g0.
              >>=-then (ok_or (n.fee_to_setter f w.network) RouterError.internal_error) _ g0
                λ s k1 g1.
                  let done = ok-injective h2 in
                  let is_amount : amount ≡ r.0 = ap (λ (p : ℤ × RouterWorld W). p.0) done in
                  let paid =
                    unwrap-eq-ok _ e2 ∙ ap (λ (p : ℤ × RouterWorld W). some p.1.network) done in
                  record {
                    factory = f;
                    at_factory = ok_or-eq-ok _ RouterError.pair_not_found k0;
                    governance = s;
                    is_governance = ok_or-eq-ok _ RouterError.internal_error k1;
                    authorized = require-eq-ok _ g1;
                    whole = sym is_amount;
                    some_amount =
                        subst (λ x. leb_ℤ x (pos 0) ≡ false) is_amount
                          (raise_if-eq-ok _ RouterError.zero_amount e1);
                    moved =
                        subst
                          (λ x.
                            n.token_transfer env token env.contract recipient x w.network
                            ≡ some r.1.network)
                          is_amount paid;
                    same_store = ap (λ (p : ℤ × RouterWorld W). p.1.store) (sym done);
                  }

  -- Whoever answers for a contract that names them its fee setter can take the balance of the router
  -- for any token: `initialize`, which asks for no authorization and can be repeated, makes that
  -- contract the factory, and a sweep that the setter authorizes then pays the balance out.
  pub initialize_takes_over :
      (crypto : Crypto) (env env' : Env) (factory setter token recipient : Address)
      (hubs : List Address) (w : RouterWorld W) {v : W}
      → n.fee_to_setter factory w.network ≡ some setter
      → env'.authorized setter ≡ true
      → leb_ℤ (n.token_balance token env'.contract w.network) (pos 0) ≡ false
      → n.token_transfer env' token env'.contract recipient
          (n.token_balance token env'.contract w.network)
          w.network
        ≡ some v
      → (router_run crypto n
          ((env', RouterCall.sweep token recipient)
            ∷ (env, RouterCall.initialize factory hubs)
            ∷ [])
          w).network
        ≡ v
  unfolding router_run sweep Admin.initialize
  initialize_takes_over crypto env env' factory setter token recipient hubs w h a b k =
      rw (h, a, b, k) refl
