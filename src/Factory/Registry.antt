-- ===== src/Factory/Registry.antt =====
-- What `create_pair` registers.
use coralswap_core.Prelude.{
  Bool, Bool-cases, [], ap, arith, false, if◌then◌else◌, inl, inr, length, ltb, none, refl, some,
  subst, sym, true, ◌&&◌, ◌++◌, ◌+◌, ◌==◌, ◌∙◌, ◌∷◌, ◌≡◌,
}
use coralswap_core.Env.{Address, Env}
use coralswap_core.Errors.{FactoryError}
use coralswap_core.Factory.Pairs.{create_pair, create_sorted, register}
use coralswap_core.Factory.State.{
  Deployed, FactoryStorage, FactoryStore, FactoryWorld, add_u32, get_factory_storage, is_pair,
  is_some,
}
use coralswap_core.Outcome.{
  >>=-then, ok, ok-injective, ok_or, ok_or-eq-ok, raise_if, raise_if-eq-ok, unwrap, unwrap-eq-ok,
}

-- The entries of a new pair in the registry.
pub record IsRegistered (token_0 token_1 pair : Address) (s s' : FactoryStore) : Type 0 where
  pub forward : s'.pair token_0 token_1 ≡ some pair
  pub backward : s'.pair token_1 token_0 ≡ some pair
  pub others_kept :
      (a b : Address)
      → ((a == token_0) && (b == token_1)) ≡ false
      → ((a == token_1) && (b == token_0)) ≡ false
      → s'.pair a b ≡ s.pair a b
  pub appended : s'.pair_list ≡ s.pair_list ++ pair ∷ []
  pub counted : s'.total_pairs ≡ length s'.pair_list
  pub recognised : is_pair s' pair ≡ true
  pub flags_kept : (p : Address) → (p == pair) ≡ false → s'.pair_flag p ≡ s.pair_flag p
  pub frozen_kept : (p : Address) → s'.pair_frozen p ≡ s.pair_frozen p
  pub overrides_kept : (p : Address) → s'.pair_fee_override p ≡ s.pair_fee_override p
  pub fees_kept : (t : Address) → s'.protocol_fee_balance t ≡ s.protocol_fee_balance t
  pub lp_tokens :
      (lp_token : Address) × ((t : Address)
        → s'.lp_token_flag t ≡ (if t == lp_token then true else s.lp_token_flag t))
  pub pending_kept : s'.pending_upgrade ≡ s.pending_upgrade
  pub code_kept : s'.wasm_hash ≡ s.wasm_hash

register-eq-ok :
    (token_0 token_1 pair lp_token : Address) (f : FactoryStorage) (s : FactoryStore)
    {s' : FactoryStore}
    → (token_0 == token_1) ≡ false
    → register token_0 token_1 pair lp_token f s ≡ ok s'
    → IsRegistered token_0 token_1 pair s s'
      × (s'.factory ≡ some (record f { pair_count = f.pair_count + 1 }))
unfolding register
register-eq-ok token_0 token_1 pair lp_token f s {s'} n h =
    >>=-then (unwrap (add_u32 f.pair_count 1)) _ h λ count e h0.
      let done = ok-injective h0 in
      let next = unwrap-eq-ok _ e in
      (
        subst (λ (t : FactoryStore). IsRegistered token_0 token_1 pair s t) done
            (record {
              forward = ground arith;
              backward = ground arith;
              others_kept = λ a b k l. ground arith;
              appended = refl;
              counted = refl;
              recognised = ground arith;
              flags_kept = λ p k. ground arith;
              frozen_kept = λ p. refl;
              overrides_kept = λ p. refl;
              fees_kept = λ t. refl;
              lp_tokens = (lp_token, λ t. ground arith);
              pending_kept = refl;
              code_kept = refl;
            }),
        (let more : count ≡ f.pair_count + 1 = ground arith in
            let stored = ap (λ (t : FactoryStore). t.factory) (sym done) in cc),
      )

IsRegistered-sym :
    (token_0 token_1 pair : Address) (s s' : FactoryStore)
    → IsRegistered token_0 token_1 pair s s'
    → IsRegistered token_1 token_0 pair s s'
IsRegistered-sym token_0 token_1 pair s s' r = record {
  forward = r.backward;
  backward = r.forward;
  others_kept = λ a b k l. r.others_kept a b l k;
  appended = r.appended;
  counted = r.counted;
  recognised = r.recognised;
  flags_kept = r.flags_kept;
  frozen_kept = r.frozen_kept;
  overrides_kept = r.overrides_kept;
  fees_kept = r.fees_kept;
  lp_tokens = r.lp_tokens;
  pending_kept = r.pending_kept;
  code_kept = r.code_kept;
}

module _ {W : Type 0} (d : Deployed W) where
  create_sorted-eq-ok :
      (env : Env) (token_0 token_1 : Address) (w : FactoryWorld W) {v : Address × FactoryWorld W}
      → (token_0 == token_1) ≡ false
      → create_sorted d env token_0 token_1 w ≡ ok v
      → (w.store.pair token_0 token_1 ≡ none)
        × (f : FactoryStorage) × (w.store.factory ≡ some f)
        × (f.paused ≡ false)
        × (v.1.store.factory ≡ some (record f { pair_count = f.pair_count + 1 }))
        × IsRegistered token_0 token_1 v.0 w.store v.1.store
  create_sorted-eq-ok env token_0 token_1 w {v} n h =
      >>=-then (raise_if (is_some (w.store.pair token_0 token_1)) FactoryError.pair_exists) _ h
        λ u0 e0 h0. >>=-then (get_factory_storage w.store) _ h0 λ f e1 h1.
          >>=-then (raise_if f.paused FactoryError.protocol_paused) _ h1 λ u2 e2 h2.
            >>=-then (unwrap (d.deploy f.pair_wasm_hash (d.pair_salt token_0 token_1) w.others)) _
              h2
              λ p e3 h3.
                >>=-then (unwrap (d.deploy f.lp_token_wasm_hash (d.lp_salt p.0) p.1)) _ h3
                  λ l e4 h4.
                    >>=-then
                      (ok_or (d.initialize_lp_token l.0 p.0 token_0 token_1 l.1)
                        FactoryError.not_initialized)
                      _ h4
                      λ o e5 h5.
                        >>=-then
                          (ok_or (d.initialize_pair p.0 env.contract token_0 token_1 l.0 o)
                            FactoryError.not_initialized)
                          _ h5
                          λ q e6 h6.
                            >>=-then (register token_0 token_1 p.0 l.0 f w.store) _ h6 λ s' e7 h7.
                              let (registered, at_g) =
                                register-eq-ok token_0 token_1 p.0 l.0 f w.store n e7 in
                              let absent = raise_if-eq-ok _ FactoryError.pair_exists e0 in
                              let at_f = ok_or-eq-ok _ FactoryError.not_initialized e1 in
                              let active = raise_if-eq-ok _ FactoryError.protocol_paused e2 in
                              subst
                                (λ (t : Address × FactoryWorld W).
                                  (w.store.pair token_0 token_1 ≡ none)
                                  × (f : FactoryStorage) × (w.store.factory ≡ some f)
                                  × (f.paused ≡ false)
                                  × (t.1.store.factory
                                      ≡ some (record f { pair_count = f.pair_count + 1 }))
                                  × IsRegistered token_0 token_1 t.0 w.store t.1.store)
                                (ok-injective h7) (ground arith, f, at_f, active, at_g, registered)

  -- A call that creates a pair is for two different tokens without one, on a factory that is
  -- initialized and not paused. It registers the pair under both orders of its tokens and at the end
  -- of the list, recognises it, flags one LP token, adds one to the count of pairs in the factory's
  -- storage, and sets the total to the length of the list. It leaves the other entries of the map of
  -- pairs, the flags of the other pairs and LP tokens, every freeze, override and fee balance, the
  -- pending upgrade and the code, and the rest of the factory's storage.
  pub create_pair_registers :
      (env : Env) (token_a token_b : Address) (w : FactoryWorld W) {pair : Address}
      {w' : FactoryWorld W}
      → create_pair d env token_a token_b w ≡ ok (pair, w')
      → ((token_a == token_b) ≡ false)
        × ((if ltb token_a token_b
              then w.store.pair token_a token_b
              else w.store.pair token_b token_a)
            ≡ none)
        × (f : FactoryStorage) × (w.store.factory ≡ some f)
        × (f.paused ≡ false)
        × (w'.store.factory ≡ some (record f { pair_count = f.pair_count + 1 }))
        × IsRegistered token_a token_b pair w.store w'.store
  unfolding create_pair
  create_pair_registers env token_a token_b w {pair} {w'} h =
      >>=-then (raise_if (token_a == token_b) FactoryError.identical_tokens) _ h λ u e h0.
        let differ = raise_if-eq-ok _ FactoryError.identical_tokens e in
        let forward = create_sorted d env token_a token_b w in
        let backward = create_sorted d env token_b token_a w in
        elim (Bool-cases (ltb token_a token_b)) [
          | inl less ↦
              let done : forward ≡ ok (pair, w') =
                ap (λ (c : Bool). if c then forward else backward) (sym less) ∙ h0 in
              let (absent, f, at_f, active, at_g, r) =
                create_sorted-eq-ok env token_a token_b w differ done in
              (differ, rw less absent, f, at_f, active, at_g, r)
          | inr not_less ↦
              let done : backward ≡ ok (pair, w') =
                ap (λ (c : Bool). if c then forward else backward) (sym not_less) ∙ h0 in
              let swapped : (token_b == token_a) ≡ false = ground arith in
              let (absent, f, at_f, active, at_g, r) =
                create_sorted-eq-ok env token_b token_a w swapped done in
              let both = IsRegistered-sym token_b token_a pair w.store w'.store r in
              (differ, rw not_less absent, f, at_f, active, at_g, both)
        ]
