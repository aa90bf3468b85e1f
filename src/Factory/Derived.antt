-- ===== src/Factory/Derived.antt =====
-- The address that `get_pair_address` derives is the one that `create_pair` deploys.
use coralswap_core.Prelude.{
  Bool, Bool-cases, ap, arith, false, if◌then◌else◌, inl, inr, ltb, some, sym, true, ℕ, ◌==◌, ◌∙◌,
  ◌≡◌,
}
use coralswap_core.Env.{Address, Env}
use coralswap_core.Errors.{FactoryError}
use coralswap_core.Factory.Pairs.{create_pair, create_sorted, register}
use coralswap_core.Factory.Registry.{create_pair_registers}
use coralswap_core.Factory.State.{Deployed, FactoryWorld, get_factory_storage, is_some}
use coralswap_core.Factory.Views.{get_pair_address}
use coralswap_core.Outcome.{
  >>=-then, ok, ok-injective, ok_or, raise_if, raise_if-eq-ok, unwrap, unwrap-eq-ok,
}

-- The host's rule: the address of a contract depends on the salt alone, for one deployer.
abbrev pub IsDerived : {W : Type 0} → Deployed W → (ℕ → Address) → Type 0
IsDerived {W} d deployed_address =
    (hash salt : ℕ) (v : W) (r : Address × W)
    → d.deploy hash salt v ≡ some r
    → r.0 ≡ deployed_address salt

module _ {W : Type 0} (d : Deployed W) (deployed_address : ℕ → Address) where
  create_sorted-derived :
      (env : Env) (token_0 token_1 : Address) (w : FactoryWorld W) {v : Address × FactoryWorld W}
      → IsDerived d deployed_address
      → create_sorted d env token_0 token_1 w ≡ ok v
      → v.0 ≡ deployed_address (d.pair_salt token_0 token_1)
  create_sorted-derived env token_0 token_1 w {v} derived h =
      >>=-then (raise_if (is_some (w.store.pair token_0 token_1)) FactoryError.pair_exists) _ h
        λ _ e0 h0. >>=-then (get_factory_storage w.store) _ h0 λ f e1 h1.
          >>=-then (raise_if f.paused FactoryError.protocol_paused) _ h1 λ _ e2 h2.
            >>=-then (unwrap (d.deploy f.pair_wasm_hash (d.pair_salt token_0 token_1) w.others)) _
              h2
              λ p e3 h3.
                >>=-then (unwrap (d.deploy f.lp_token_wasm_hash (d.lp_salt p.0) p.1)) _ h3
                  λ l e4 h4.
                    >>=-then
                      (ok_or (d.initialize_lp_token l.0 p.0 token_0 token_1 l.1)
                        FactoryError.not_initialized)
                      _ h4
                      λ o e5 h5.
                        >>=-then
                          (ok_or (d.initialize_pair p.0 env.contract token_0 token_1 l.0 o)
                            FactoryError.not_initialized)
                          _ h5
                          λ q e6 h6.
                            >>=-then (register token_0 token_1 p.0 l.0 f w.store) _ h6 λ s' e7 h7.
                              ap (λ (t : Address × FactoryWorld W). t.0) (sym (ok-injective h7))
                              ∙ derived f.pair_wasm_hash (d.pair_salt token_0 token_1) w.others p
                                  (unwrap-eq-ok _ e3)

  -- Where the host derives addresses from salts, the address that `get_pair_address` gives for two
  -- tokens, in either order, is that of the pair that a successful `create_pair` for them deploys and
  -- registers.
  pub derived_address_is_created :
      (env : Env) (token_a token_b : Address) (w : FactoryWorld W) {pair : Address}
      {w' : FactoryWorld W}
      → IsDerived d deployed_address
      → create_pair d env token_a token_b w ≡ ok (pair, w')
      → (get_pair_address d deployed_address token_a token_b ≡ ok pair)
        × (get_pair_address d deployed_address token_b token_a ≡ ok pair)
        × (w'.store.pair token_a token_b ≡ some pair)
  unfolding create_pair get_pair_address
  derived_address_is_created env token_a token_b w {pair} {w'} derived h =
      >>=-then (raise_if (token_a == token_b) FactoryError.identical_tokens) _ h λ u e h0.
        let (differ, absent, f, at_f, active, at_g, registered) =
          create_pair_registers d env token_a token_b w h in
        let ab = raise_if-eq-ok _ FactoryError.identical_tokens e in
        let ba : (token_b == token_a) ≡ false = ground arith in
        let forward = create_sorted d env token_a token_b w in
        let backward = create_sorted d env token_b token_a w in
        elim (Bool-cases (ltb token_a token_b)) [
          | inl less ↦
              let more_b : ltb token_b token_a ≡ false = ground arith in
              let done : forward ≡ ok (pair, w') =
                ap (λ (c : Bool). if c then forward else backward) (sym less) ∙ h0 in
              let address =
                ap (λ a. ok a) (sym (create_sorted-derived env token_a token_b w derived done)) in
              ((rw (ab, less) address), (rw (ba, more_b) address), registered.forward)
          | inr not_less ↦
              let less_b : ltb token_b token_a ≡ true = ground arith in
              let done : backward ≡ ok (pair, w') =
                ap (λ (c : Bool). if c then forward else backward) (sym not_less) ∙ h0 in
              let address =
                ap (λ a. ok a) (sym (create_sorted-derived env token_b token_a w derived done)) in
              ((rw (ab, not_less) address), (rw (ba, less_b) address), registered.forward)
        ]
