-- ===== src/Quote/Output.antt =====
-- The exact-input quote `quote_output_amount`: what it pays, and when it fails.
use coralswap_core.Prelude.{
  arith, div-mul-le, if◌then◌else◌, le-div_of_mul, le_refl, mul-lt_cancel, mul_mono, refl, subst,
  sym, ℕ, ◌*◌, ◌+◌, ◌-◌, ◌/◌, ◌<◌, ◌==◌, ◌↔◌, ◌≡◌, ◌≤◌,
}
use coralswap_core.Int.{negsuc, pos, two_127, ℤ}
use coralswap_core.Outcome.{err, ok}
use coralswap_core.Quote.{QuoteError, quote_output_amount}

-- The formula of the source over the naturals, with `g` for 10_000 - fee_bps.
abbrev pub paid : ℕ → ℕ → ℕ → ℕ → ℕ
paid x r s g = x * g * s / (r * 10_000 + x * g)

pub quote_output-eq-ok :
    (a r s : ℤ) (fee : ℕ) {out : ℤ}
    → quote_output_amount a r s fee ≡ ok out
    → (x : ℕ) × (y : ℕ) × (z : ℕ) × (a ≡ pos x)
      × (r ≡ pos y)
      × (s ≡ pos z)
      × (0 < x)
      × (0 < y)
      × (0 < z)
      × (fee < 10_000)
      × (out ≡ pos (paid x y z (10_000 - fee)))
      × (0 < paid x y z (10_000 - fee))
unfolding quote_output_amount
quote_output-eq-ok (pos x) (pos y) (pos z) fee h = (
  x,
  y,
  z,
  refl,
  refl,
  refl,
  ground arith,
  ground arith,
  ground arith,
  ground arith,
  ground arith,
  ground arith,
)
quote_output-eq-ok (negsuc x) r s fee h = cc
quote_output-eq-ok (pos x) (negsuc y) s fee h = ground arith
quote_output-eq-ok (pos x) (pos y) (negsuc z) fee h = ground arith

-- Paying `y` out of `y + t` at the price `w / (R + w)` or less is keeping the product `R * (y + t)`.
keeps_iff : (w R y t : ℕ) → (y * (R + w) ≤ w * (y + t)) ↔ (R * (y + t) ≤ (R + w) * t)
keeps_iff w R y t = (λ h. omega arith, λ h. omega arith)

keeps_iff_sub : (w R y s : ℕ) → y ≤ s → (y * (R + w) ≤ w * s) ↔ (R * s ≤ (R + w) * (s - y))
keeps_iff_sub w R y s h =
    let e : s ≡ y + (s - y) = omega arith in
    subst (λ k. (y * (R + w) ≤ w * k) ↔ (R * k ≤ (R + w) * (s - y))) (sym e)
      (keeps_iff w R y (s - y))

below_reserve : (w R s y : ℕ) → 0 < R → 0 < s → y * (R + w) ≤ w * s → y < s
below_reserve w R s y hR hs h = mul-lt_cancel y s (R + w) (grind arith)

-- A successful quote is of positive amounts, pays out less than the reserve, and pays the largest
-- amount that keeps the fee-adjusted product of the reserves from falling: with the factor
-- g = 10_000 - fee_bps, the product (reserve_in * 10_000 + amount_in * g) * (reserve_out - paid) is
-- at least reserve_in * 10_000 * reserve_out, and every payout that keeps it so is no larger.
pub quote_output_largest :
    (a r s : ℤ) (fee : ℕ) {out : ℤ}
    → quote_output_amount a r s fee ≡ ok out
    → (x : ℕ) × (y : ℕ) × (z : ℕ) × (p : ℕ) × (a ≡ pos x)
      × (r ≡ pos y)
      × (s ≡ pos z)
      × (out ≡ pos p)
      × (0 < p)
      × (p < z)
      × (y * 10_000 * z ≤ (y * 10_000 + x * (10_000 - fee)) * (z - p))
      × ((q : ℕ) → q ≤ z → y * 10_000 * z ≤ (y * 10_000 + x * (10_000 - fee)) * (z - q) → q ≤ p)
quote_output_largest a r s fee h =
    let (x, y, z, ea, er, es, px, py, pz, pf, eo, pp) = quote_output-eq-ok a r s fee h in
    let w = x * (10_000 - fee) in
    let p = paid x y z (10_000 - fee) in
    let bought : p * (y * 10_000 + w) ≤ w * z = div-mul-le (w * z) (y * 10_000 + w) in
    let below : p < z = below_reserve w (y * 10_000) z p (omega arith) pz bought in
    (
      x,
      y,
      z,
      p,
      ea,
      er,
      es,
      eo,
      pp,
      below,
      (keeps_iff_sub w (y * 10_000) p z (omega arith)).0 bought,
      λ q hq k.
          le-div_of_mul q (w * z) (y * 10_000 + w) (omega arith)
            ((keeps_iff_sub w (y * 10_000) q z hq).1 k),
    )

-- On positive amounts with a fee below 100%, and while the two sums of the formula stay within
-- `i128`, the quote ends: with the formula's value, or with `dust` when that value is zero.
pub quote_output_lem :
    (x y z fee : ℕ)
    → 0 < x
    → 0 < y
    → 0 < z
    → fee < 10_000
    → x * (10_000 - fee) * z < two_127
    → y * 10_000 + x * (10_000 - fee) < two_127
    → quote_output_amount (pos x) (pos y) (pos z) fee ≡ (
        if paid x y z (10_000 - fee) == 0
        then err QuoteError.dust
        else ok (pos (paid x y z (10_000 - fee))))
unfolding quote_output_amount
quote_output_lem x y z fee hx hy hz hf hn hd =
    let narrow : x * (10_000 - fee) < two_127 =
      omega (arith, mul_mono (x * (10_000 - fee)) (x * (10_000 - fee)) 1 z (le_refl _) hz) in
    ground arith
