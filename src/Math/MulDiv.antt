-- ===== src/Math/MulDiv.antt =====
-- `mul_div` multiplies at full width and truncates towards zero.
use coralswap_core.Prelude.{
  Bool, arith, false, if◌then◌else◌, mul_mono, none, some, suc, true, ℕ, ◌*◌, ◌/◌, ◌<◌, ◌^◌, ◌≡◌,
  ◌≤◌,
}
use coralswap_core.Int.{checked, eq_ℤ, fits, neg_ℕ, negsuc, pos, quot, ℤ, ◌*ℤ◌}
use coralswap_core.Math.{mul_div, signed_quotient}
use coralswap_core.U256.{u256_mul}

abbrev signed : Bool → ℕ → ℤ
signed true q = neg_ℕ q
signed false q = pos q

signed_quotient_lem : (s : Bool) (q : ℕ) → signed_quotient s q ≡ checked (signed s q)
signed_quotient_lem true q = ground arith
signed_quotient_lem false q = ground arith

quot-neg_ℕ-pos : (n d : ℕ) → 0 < d → quot (neg_ℕ n) (pos d) ≡ neg_ℕ (n / d)
unfolding quot
quot-neg_ℕ-pos n d h = ground arith

quot-neg_ℕ-negsuc : (n d : ℕ) → quot (neg_ℕ n) (negsuc d) ≡ pos (n / suc d)
unfolding quot
quot-neg_ℕ-negsuc n d = ground arith

product_bound : (a b : ℕ) → a ≤ 2 ^ 127 → b ≤ 2 ^ 127 → u256_mul a b ≡ some (a * b)
unfolding u256_mul
product_bound a b h k = let m = mul_mono a (2 ^ 127) b (2 ^ 127) h k in ground arith

-- On `i128` arguments `mul_div` is the exact product divided with truncation towards zero, and
-- `none` exactly where the divisor is zero or that quotient is no `i128`: no intermediate product
-- overflows.
pub mul_div_lem :
    (a b d : ℤ)
    → fits a ≡ true
    → fits b ≡ true
    → mul_div a b d ≡ (if eq_ℤ d (pos 0) then none else checked (quot (a *ℤ b) d))
unfolding mul_div ◌*ℤ◌ quot
mul_div_lem (pos a) (pos b) (pos d) ha hb =
    ground (arith, product_bound a b, signed_quotient_lem false (a * b / d))
mul_div_lem (pos a) (pos b) (negsuc d) ha hb =
    ground (arith, product_bound a b, signed_quotient_lem true (a * b / suc d))
mul_div_lem (pos a) (negsuc b) (pos d) ha hb = ground (
  arith,
  product_bound a (suc b),
  signed_quotient_lem true (a * suc b / d),
  quot-neg_ℕ-pos (a * suc b) d,
)
mul_div_lem (pos a) (negsuc b) (negsuc d) ha hb = ground (
  arith,
  product_bound a (suc b),
  signed_quotient_lem false (a * suc b / suc d),
  quot-neg_ℕ-negsuc (a * suc b) d,
)
mul_div_lem (negsuc a) (pos b) (pos d) ha hb = ground (
  arith,
  product_bound (suc a) b,
  signed_quotient_lem true (suc a * b / d),
  quot-neg_ℕ-pos (suc a * b) d,
)
mul_div_lem (negsuc a) (pos b) (negsuc d) ha hb = ground (
  arith,
  product_bound (suc a) b,
  signed_quotient_lem false (suc a * b / suc d),
  quot-neg_ℕ-negsuc (suc a * b) d,
)
mul_div_lem (negsuc a) (negsuc b) (pos d) ha hb =
    ground (arith, product_bound (suc a) (suc b), signed_quotient_lem false (suc a * suc b / d))
mul_div_lem (negsuc a) (negsuc b) (negsuc d) ha hb =
    ground (arith, product_bound (suc a) (suc b), signed_quotient_lem true (suc a * suc b / suc d))
