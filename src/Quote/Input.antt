-- ===== src/Quote/Input.antt =====
-- The exact-output quote `quote_input_amount`: the least input that buys the output.
use coralswap_core.Prelude.{
  ==_iff, Bool-cases, arith, div-mul-le, if◌then◌else◌, inl, inr, le-div_of_mul, le_refl, le_trans,
  mul-lt_cancel, mul_mono, mul_pos, refl, subst, sym, true, ℕ, ◌%◌, ◌*◌, ◌+◌, ◌-◌, ◌/◌, ◌<◌, ◌==◌,
  ◌↔◌, ◌≡◌, ◌≤◌,
}
use coralswap_core.Int.{leb_ℤ, ltb_ℤ, negsuc, pos, ℤ}
use coralswap_core.Outcome.{ok}
use coralswap_core.Quote.{quote_input_amount, quote_output_amount}
use coralswap_core.Quote.Output.{paid, quote_output-eq-ok}

abbrev pub ceil_div : ℕ → ℕ → ℕ
ceil_div n d = n / d + (if n % d == 0 then 0 else 1)

le-ceil_div-mul : (n d : ℕ) → 0 < d → n ≤ ceil_div n d * d
le-ceil_div-mul n d h = elim (Bool-cases (n % d == 0)) [
  | inl e ↦ rw e (omega (arith, (==_iff (n % d) 0).0 e))
  | inr e ↦ rw e (omega arith)
]

ceil_div-mul-lt : (n d : ℕ) → 0 < d → ceil_div n d * d < n + d
ceil_div-mul-lt n d h = elim (Bool-cases (n % d == 0)) [
  | inl e ↦ rw e (omega arith)
  | inr e ↦ rw e (ground arith)
]

-- The formula of the source over the naturals, with `g` for 10_000 - fee_bps.
abbrev pub charged : ℕ → ℕ → ℕ → ℕ → ℕ
charged y r s g = ceil_div (r * y * 10_000) ((s - y) * g)

pub quote_input-eq-ok :
    (a r s : ℤ) (fee : ℕ) {out : ℤ}
    → quote_input_amount a r s fee ≡ ok out
    → (x : ℕ) × (y : ℕ) × (z : ℕ) × (a ≡ pos x)
      × (r ≡ pos y)
      × (s ≡ pos z)
      × (0 < x)
      × (0 < y)
      × (x < z)
      × (fee < 10_000)
      × (out ≡ pos (charged x y z (10_000 - fee)))
unfolding quote_input_amount
quote_input-eq-ok (pos x) (pos y) (pos z) fee h = (
  x,
  y,
  z,
  refl,
  refl,
  refl,
  ground arith,
  ground arith,
  ground arith,
  ground arith,
  ground arith,
)
quote_input-eq-ok (negsuc x) r s fee h = cc
quote_input-eq-ok (pos x) (negsuc y) s fee h = ground arith
quote_input-eq-ok (pos x) (pos y) (negsuc z) fee h = ground arith

-- Buying `y` with input `x` is paying `r * y`, scaled, in units of the reserve that is left.
buys_iff_add :
    (x y r t g : ℕ) → (y * (r * 10_000 + x * g) ≤ x * g * (y + t)) ↔ (r * y * 10_000 ≤ x * (t * g))
buys_iff_add x y r t g = (λ h. omega arith, λ h. omega arith)

buys_iff :
    (x y r s g : ℕ)
    → y ≤ s
    → (y * (r * 10_000 + x * g) ≤ x * g * s) ↔ (r * y * 10_000 ≤ x * ((s - y) * g))
buys_iff x y r s g h =
    let e : s ≡ y + (s - y) = omega arith in
    subst (λ k. (y * (r * 10_000 + x * g) ≤ x * g * k) ↔ (r * y * 10_000 ≤ x * ((s - y) * g)))
      (sym e) (buys_iff_add x y r (s - y) g)

ceil_div-le_iff : (n d x : ℕ) → 0 < d → (ceil_div n d ≤ x) ↔ (n ≤ x * d)
ceil_div-le_iff n d x h = (
  λ k. le_trans (le-ceil_div-mul n d h) (mul_mono (ceil_div n d) x d d k (omega arith)),
  λ k. omega (arith, mul-lt_cancel (ceil_div n d) (x + 1) d (omega (arith, ceil_div-mul-lt n d h))),
)

-- Over the naturals: the input buys `y` exactly when it is at least the charge.
le-paid_iff : (x y r s g : ℕ) → 0 < r → 0 < g → y < s → (y ≤ paid x r s g) ↔ (charged y r s g ≤ x)
le-paid_iff x y r s g hr hg h =
    let room : 0 < (s - y) * g = mul_pos (s - y) g (omega arith) hg in
    let least = ceil_div-le_iff (r * y * 10_000) ((s - y) * g) x room in
    let buys = buys_iff x y r s g (omega arith) in
    (
      λ k. least.1 (
          buys.0 (
            le_trans (mul_mono y _ (r * 10_000 + x * g) _ k (le_refl _))
              (div-mul-le (x * g * s) (r * 10_000 + x * g)))),
      λ k. le-div_of_mul y (x * g * s) (r * 10_000 + x * g) (omega arith) (buys.1 (least.0 k)),
    )

charged_pos : (y r s g : ℕ) → 0 < y → 0 < r → 0 < g → y < s → 0 < charged y r s g
charged_pos y r s g hy hr hg h =
    let room : 0 < (s - y) * g = mul_pos (s - y) g (omega arith) hg in
    let price : 0 < r * y = mul_pos r y hr hy in
    let bound = le-ceil_div-mul (r * y * 10_000) ((s - y) * g) room in
    mul-lt_cancel 0 (charged y r s g) ((s - y) * g) (omega arith)

-- The exact-output quote is the least input: an input whose exact-input quote succeeds buys at least
-- the wanted amount exactly when it is at least the quoted input, and the quoted input is positive.
pub quote_input_least :
    (wanted r s : ℤ) (fee : ℕ) {charge : ℤ}
    → quote_input_amount wanted r s fee ≡ ok charge
    → (b : ℤ) {out : ℤ} → quote_output_amount b r s fee ≡ ok out
    → ((leb_ℤ wanted out ≡ true) ↔ (leb_ℤ charge b ≡ true)) × (ltb_ℤ (pos 0) charge ≡ true)
quote_input_least wanted r s fee h b k =
    let (y, r1, s1, ew, er, es, py, pr, ys, pf, ec) = quote_input-eq-ok wanted r s fee h in
    let (x, r2, s2, eb, er', es', px, pr', ps', pf', eo, pp) = quote_output-eq-ok b r s fee k in
    ground (
      arith,
      le-paid_iff x y r1 s1 (10_000 - fee) pr (omega arith) ys,
      charged_pos y r1 s1 (10_000 - fee) py pr (omega arith) ys,
    )
