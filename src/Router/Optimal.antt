-- ===== src/Router/Optimal.antt =====
-- The amounts of a deposit that keep to the reserves (contracts/router/src/helpers.rs).
use coralswap_core.Prelude.{
  Bool-cases, ap, arith, div-mul-le, false, inl, inr, le_refl, le_trans, lt-div-mul, mul-lt_cancel,
  mul_mono, subst, sym, true, ℕ, ◌&&◌, ◌*◌, ◌+◌, ◌/◌, ◌<◌, ◌∙◌, ◌≡◌, ◌≤◌, ◌⊎◌,
}
use coralswap_core.Errors.{RouterError}
use coralswap_core.Int.{checked_div, checked_mul, eq_ℤ, fits, leb_ℤ, ltb_ℤ, pos, ℤ}
use coralswap_core.Int.Laws.{checked_div-pos, checked_mul-pos, not_ltb_ℤ}
use coralswap_core.Outcome.{
  >>=-then, ok, ok-injective, ok_or, ok_or-eq-ok, raise_if, raise_if-eq-ok, unwrap, unwrap-eq-ok,
}
use coralswap_core.Router.Paths.{compute_optimal_amounts}

-- `y` is the largest amount that is worth no more than `x`, at reserves `r` and `s`.
abbrev pub IsFair : ℕ → ℕ → ℕ → ℕ → Type 0
IsFair x y r s = (y * r ≤ x * s) × (x * s < (y + 1) * r)

-- A division of a product, as the source writes it.
share-eq-ok :
    (a s r : ℕ) {p q : ℤ}
    → ok_or (checked_mul (pos a) (pos s)) RouterError.insufficient_liquidity ≡ ok p
    → unwrap {E = RouterError} (checked_div p (pos r)) ≡ ok q
    → 0 < r
    → (q ≡ pos (a * s / r)) × IsFair a (a * s / r) r s
unfolding checked_mul checked_div
share-eq-ok a s r {p} {q} h k some_r =
    let (is_p, fits) = checked_mul-pos a s (ok_or-eq-ok _ RouterError.insufficient_liquidity h) in
    let k' = subst (λ v. unwrap {E = RouterError} (checked_div v (pos r)) ≡ ok q) is_p k in
    let (is_q, _) = checked_div-pos (a * s) r (unwrap-eq-ok _ k') in
    (is_q, (div-mul-le (a * s) r, lt-div-mul (a * s) r some_r))

fair_below : (x y r s : ℕ) {a : ℕ} → 0 < s → y < x * s / r → a * s ≤ y * r → a ≤ x
fair_below x y r s {a} some_s above fair =
    let one_more : (y + 1) * r ≤ x * s =
      le_trans (mul_mono (y + 1) (x * s / r) r r (omega arith) (le_refl r))
        (div-mul-le (x * s) r) in
    let small : a * s < (x + 1) * s = omega arith in omega (arith, mul-lt_cancel a (x + 1) s small)

-- The amounts of a deposit into a pair with positive reserves, if there are any, are at most the
-- desired ones, and one of them is the desired one. The other is the largest that is worth no more
-- at the reserves, and reaches its minimum.
pub compute_optimal_amounts_lem :
    (x y r s : ℕ) (min_a min_b : ℤ) {o : ℤ × ℤ}
    → 0 < r
    → 0 < s
    → compute_optimal_amounts (pos x) (pos y) min_a min_b (pos r) (pos s) ≡ ok o
    → ((b : ℕ) × (o ≡ (pos x, pos b)) × (b ≤ y) × IsFair x b r s × (leb_ℤ min_b (pos b) ≡ true))
      ⊎ ((a : ℕ) × (o ≡ (pos a, pos y)) × (a ≤ x) × IsFair y a s r × (leb_ℤ min_a (pos a) ≡ true))
unfolding compute_optimal_amounts
compute_optimal_amounts_lem x y r s min_a min_b {o} h k run =
    let filled : (eq_ℤ (pos r) (pos 0) && eq_ℤ (pos s) (pos 0)) ≡ false = ground arith in
    let run' = rw filled at run in
    >>=-then (ok_or (checked_mul (pos x) (pos s)) RouterError.insufficient_liquidity) _ run'
      λ p e h0. >>=-then (unwrap (checked_div p (pos r))) _ h0 λ b e1 h1.
        let (is_b, fair) = share-eq-ok x s r e e1 h in
        elim (Bool-cases (leb_ℤ b (pos y))) [
          | inl enough ↦
              let run_b = rw enough at h1 in
              >>=-then (raise_if (ltb_ℤ b min_b) RouterError.slippage_exceeded) _ run_b λ u e2 h2.
                let reaches =
                  not_ltb_ℤ b min_b (raise_if-eq-ok _ RouterError.slippage_exceeded e2) in
                inl (
                  x * s / r,
                  sym (ok-injective h2) ∙ ap (λ v. (pos x, v)) is_b,
                  ground arith,
                  fair,
                  subst (λ v. leb_ℤ min_b v ≡ true) is_b reaches,
                )
          | inr short ↦
              let run_a = rw short at h1 in
              >>=-then (ok_or (checked_mul (pos y) (pos r)) RouterError.insufficient_liquidity) _
                run_a
                λ p' e2 h2. >>=-then (unwrap (checked_div p' (pos s))) _ h2 λ a e3 h3.
                  >>=-then (raise_if (ltb_ℤ a min_a) RouterError.slippage_exceeded) _ h3 λ u e4 h4.
                    let (is_a, fair_a) = share-eq-ok y r s e2 e3 k in
                    let reaches =
                      not_ltb_ℤ a min_a (raise_if-eq-ok _ RouterError.slippage_exceeded e4) in
                    let above : y < x * s / r = ground arith in
                    inr (
                      y * r / s,
                      sym (ok-injective h4) ∙ ap (λ v. (v, pos y)) is_a,
                      fair_below x y r s k above fair_a.0,
                      fair_a,
                      subst (λ v. leb_ℤ min_a v ≡ true) is_a reaches,
                    )
        ]
