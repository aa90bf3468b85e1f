-- ===== src/Router/Order.antt =====
-- A deposit does not depend on the order in which its tokens are named.
use coralswap_core.Prelude.{
  Bool, Option, ap, arith, dec_lt, false, ltb, refl, subst, sym, true, ℕ, ◌<◌, ◌==◌, ◌||◌, ◌∙◌, ◌≡◌,
}
use coralswap_core.Env.{Address, Env}
use coralswap_core.Errors.{RouterError}
use coralswap_core.Int.{leb_ℤ, pos, ℤ}
use coralswap_core.Outcome.{Outcome, err, ok, ok_or, raise_if, require, trap, unwrap, ◌>>=◌, ◌>>◌}
use coralswap_core.Router.Liquidity.{add_liquidity, in_order}
use coralswap_core.Router.Paths.{compute_optimal_amounts, get_pair_address, sort_tokens}
use coralswap_core.Router.State.{Network, RouterWorld}
use coralswap_core.Router.Swaps.{check_deadline}

-- The result of a deposit with the two tokens exchanged.
abbrev pub exchange :
    {W : Type 0}
    → Outcome RouterError (ℤ × ℤ × ℤ × RouterWorld W)
    → Outcome RouterError (ℤ × ℤ × ℤ × RouterWorld W)
exchange (ok r) = ok (r.1, r.0, r.2, r.3)
exchange (err e) = err e
exchange trap = trap

module _ {W : Type 0} where
  exchange->>= :
      {A : Type 0} (m : Outcome RouterError A)
      (f g : A → Outcome RouterError (ℤ × ℤ × ℤ × RouterWorld W))
      → ((u : A) → g u ≡ exchange (f u))
      → (m >>= g) ≡ exchange (m >>= f)
  exchange->>= (ok u) f g h = h u
  exchange->>= (err e) f g h = refl
  exchange->>= trap f g h = refl

  exchange->> :
      (m : Outcome RouterError (Unit {0})) (f g : Outcome RouterError (ℤ × ℤ × ℤ × RouterWorld W))
      → g ≡ exchange f
      → (m >> g) ≡ exchange (m >> f)
  exchange->> (ok u) f g h = h
  exchange->> (err e) f g h = refl
  exchange->> trap f g h = refl

  exchange_twice : (m : Outcome RouterError (ℤ × ℤ × ℤ × RouterWorld W)) → exchange (exchange m) ≡ m
  exchange_twice (ok r) = refl
  exchange_twice (err e) = refl
  exchange_twice trap = refl

or_comm : (p q : Bool) → (p || q) ≡ (q || p)
or_comm p q = ground arith

module _ {W : Type 0} (n : Network W) where
  -- What a deposit does from the lookup of the pair on, with the tokens sorted.
  abbrev sorted_deposit :
      Env
      → Bool
      → Address
      → Address
      → ℤ
      → ℤ
      → ℤ
      → ℤ
      → Address
      → RouterWorld W
      → Outcome RouterError (ℤ × ℤ × ℤ × RouterWorld W)
  sorted_deposit env swapped a b x y min_x min_y to w = do
    factory ← ok_or w.store.factory RouterError.pair_not_found
    pair ← get_pair_address n factory w.network a b
    q ← unwrap (n.get_reserves pair w.network)
    o ← compute_optimal_amounts x y min_x min_y q.0 q.1
    require (env.authorized to)
    w_1 ← unwrap (n.token_transfer env a to pair o.0 w.network)
    w_2 ← unwrap (n.token_transfer env b to pair o.1 w_1)
    minted ← unwrap (n.mint env pair to w_2)
    let amounts = in_order swapped o.0 o.1
    ok (amounts.0, amounts.1, minted.0, record w { network = minted.1 })

  sorted-eq :
      (env : Env) (a b : Address) (x y min_x min_y : ℤ) (to : Address) (deadline : ℕ)
      (limit : Option ℕ) (w : RouterWorld W)
      → a < b
      → add_liquidity n env a b x y min_x min_y to deadline limit w ≡ (
          check_deadline env deadline limit
          >> (raise_if (leb_ℤ x (pos 0) || leb_ℤ y (pos 0)) RouterError.zero_amount
              >> sorted_deposit env false a b x y min_x min_y to w))
  unfolding add_liquidity sort_tokens
  sorted-eq env a b x y min_x min_y to deadline limit w h =
      let ab : (a == b) ≡ false = ground arith in
      let lt : ltb a b ≡ true = ground arith in
      let aa : (a == a) ≡ true = ground arith in rw (ab, lt, aa) refl

  swapped-eq :
      (env : Env) (a b : Address) (x y min_x min_y : ℤ) (to : Address) (deadline : ℕ)
      (limit : Option ℕ) (w : RouterWorld W)
      → a < b
      → add_liquidity n env b a y x min_y min_x to deadline limit w ≡ (
          check_deadline env deadline limit
          >> (raise_if (leb_ℤ x (pos 0) || leb_ℤ y (pos 0)) RouterError.zero_amount
              >> sorted_deposit env true a b x y min_x min_y to w))
  unfolding add_liquidity sort_tokens
  swapped-eq env a b x y min_x min_y to deadline limit w h =
      let ba : (b == a) ≡ false = ground arith in
      let ab : (a == b) ≡ false = ground arith in
      let gt : ltb b a ≡ false = ground arith in
      rw (or_comm (leb_ℤ y (pos 0)) (leb_ℤ x (pos 0)), ba, gt, ab) refl

  swapped_deposit :
      (env : Env) (a b : Address) (x y min_x min_y : ℤ) (to : Address) (w : RouterWorld W)
      → sorted_deposit env true a b x y min_x min_y to w
        ≡ exchange (sorted_deposit env false a b x y min_x min_y to w)
  swapped_deposit env a b x y min_x min_y to w =
      exchange->>= (ok_or w.store.factory RouterError.pair_not_found) _ _ λ f.
        exchange->>= (get_pair_address n f w.network a b) _ _ λ pair.
          exchange->>= (unwrap (n.get_reserves pair w.network)) _ _ λ q.
            exchange->>= (compute_optimal_amounts x y min_x min_y q.0 q.1) _ _ λ o.
              exchange->>= (require (env.authorized to)) _ _ λ u.
                exchange->>= (unwrap (n.token_transfer env a to pair o.0 w.network)) _ _ λ w_1.
                  exchange->>= (unwrap (n.token_transfer env b to pair o.1 w_1)) _ _
                    λ w_2. exchange->>= (unwrap (n.mint env pair to w_2)) _ _ λ minted. refl

  in_order_exchange :
      (env : Env) (a b : Address) (x y min_x min_y : ℤ) (to : Address) (deadline : ℕ)
      (limit : Option ℕ) (w : RouterWorld W)
      → a < b
      → add_liquidity n env b a y x min_y min_x to deadline limit w
        ≡ exchange (add_liquidity n env a b x y min_x min_y to deadline limit w)
  in_order_exchange env a b x y min_x min_y to deadline limit w h =
      swapped-eq env a b x y min_x min_y to deadline limit w h
      ∙ (exchange->> (check_deadline env deadline limit) _ _ (
          exchange->> (raise_if (leb_ℤ x (pos 0) || leb_ℤ y (pos 0)) RouterError.zero_amount) _ _
            (swapped_deposit env a b x y min_x min_y to w)))
      ∙ ap exchange (sym (sorted-eq env a b x y min_x min_y to deadline limit w h))

  same-eq :
      (env : Env) (a : Address) (x y min_x min_y : ℤ) (to : Address) (deadline : ℕ)
      (limit : Option ℕ) (w : RouterWorld W)
      → add_liquidity n env a a x y min_x min_y to deadline limit w ≡ (
          check_deadline env deadline limit
          >> (raise_if (leb_ℤ x (pos 0) || leb_ℤ y (pos 0)) RouterError.zero_amount
              >> err RouterError.identical_tokens))
  unfolding add_liquidity sort_tokens
  same-eq env a x y min_x min_y to deadline limit w =
      let aa : (a == a) ≡ true = ground arith in rw aa refl

  same_exchange :
      (env : Env) (a : Address) (x y min_x min_y : ℤ) (to : Address) (deadline : ℕ)
      (limit : Option ℕ) (w : RouterWorld W)
      → add_liquidity n env a a y x min_y min_x to deadline limit w
        ≡ exchange (add_liquidity n env a a x y min_x min_y to deadline limit w)
  same_exchange env a x y min_x min_y to deadline limit w =
      let zero : Bool → Outcome RouterError (Unit {0}) = λ z. raise_if z RouterError.zero_amount in
      let stop : Outcome RouterError (ℤ × ℤ × ℤ × RouterWorld W) =
        err RouterError.identical_tokens in
      same-eq env a y x min_y min_x to deadline limit w
      ∙ ap (λ z. check_deadline env deadline limit >> (zero z >> stop))
          (or_comm (leb_ℤ y (pos 0)) (leb_ℤ x (pos 0)))
      ∙ (exchange->> (check_deadline env deadline limit) _ _
          (exchange->> (zero (leb_ℤ x (pos 0) || leb_ℤ y (pos 0))) stop stop refl))
      ∙ ap exchange (sym (same-eq env a x y min_x min_y to deadline limit w))

  -- A deposit that names its tokens in the other order, with their amounts, has the same result with
  -- the amounts exchanged: the same state, or the same error.
  pub add_liquidity_either_order :
      (env : Env) (a b : Address) (x y min_x min_y : ℤ) (to : Address) (deadline : ℕ)
      (limit : Option ℕ) (w : RouterWorld W)
      → add_liquidity n env b a y x min_y min_x to deadline limit w
        ≡ exchange (add_liquidity n env a b x y min_x min_y to deadline limit w)
  add_liquidity_either_order env a b x y min_x min_y to deadline limit w = elim (dec_lt a b) [
    | yes below ↦ in_order_exchange env a b x y min_x min_y to deadline limit w below
    | no not_below ↦ elim (dec_lt b a) [
      | yes above ↦
          sym (exchange_twice _)
          ∙ ap exchange (sym (in_order_exchange env b a y x min_y min_x to deadline limit w above))
      | no not_above ↦
          let same : a ≡ b = omega arith in
          subst
            (λ t.
              add_liquidity n env t a y x min_y min_x to deadline limit w
              ≡ exchange (add_liquidity n env a t x y min_x min_y to deadline limit w))
            same (same_exchange env a x y min_x min_y to deadline limit w)
    ]
  ]
