-- ===== src/Math/Split.antt =====
-- The swap part of a single-sided deposit is the rounded-down root of its quadratic equation.
use coralswap_core.Prelude.{
  ap, arith, div-mul-le, lt-div-mul, mul-le_cancel, mul-lt_cancel, mul_mono, refl, subst, suc, zero,
  ℕ, ◌*◌, ◌+◌, ◌-◌, ◌/◌, ◌<◌, ◌^◌, ◌≡◌, ◌≤◌,
}
use coralswap_core.Int.{negsuc, pos, ℤ}
use coralswap_core.Math.{compute_swap_in_for_single_side, discriminant, sqrt_u256, swap_in_amount}
use coralswap_core.Math.Sqrt.{IsRoot, newton_start-IsRoot}
use coralswap_core.Outcome.{>>=-eq-ok, ok}

abbrev pub disc_of : ℕ → ℕ → ℕ → ℕ
disc_of r s f = r * (r * ((10_000 + f) * (10_000 + f)) + 4 * f * s * 10_000)

discriminant-eq-ok :
    (r s f : ℕ) {d : ℕ × ℕ}
    → discriminant r s f ≡ ok d
    → (d ≡ (disc_of r s f, 10_000 + f)) × (disc_of r s f < 2 ^ 256)
unfolding discriminant
discriminant-eq-ok r s f h = ground arith

sqrt_u256-eq-ok : (v : ℕ) {E : Type 0} {r : ℕ} → sqrt_u256 {E = E} v ≡ ok r → IsRoot v r
unfolding sqrt_u256
sqrt_u256-eq-ok zero h = ground arith
sqrt_u256-eq-ok (suc n) {r = r} h =
    let (r', e, p) = newton_start-IsRoot (suc n) (omega arith) in
    let same : r' ≡ r = ground arith in subst (IsRoot (suc n)) same p

-- Completing the square, below and above.
complete_below :
    (f q b c : ℕ)
    → 0 < f
    → (2 * f * q + b) * (2 * f * q + b) ≤ b * b + 4 * f * c
    → f * (q * q) + b * q ≤ c
complete_below f q b c h k =
    mul-le_cancel (f * (q * q) + b * q) c (4 * f) (omega arith) (omega arith)

complete_above :
    (f q b c : ℕ) → b * b + 4 * f * c < (2 * f * q + b) * (2 * f * q + b) → c < f * (q * q) + b * q
complete_above f q b c k = mul-lt_cancel c (f * (q * q) + b * q) (4 * f) (omega arith)

split_root :
    (r s f root : ℕ)
    → 0 < f
    → IsRoot (disc_of r s f) root
    → r * (10_000 + f) ≤ root
    → let q = (root - r * (10_000 + f)) / (2 * f) in
      (f * (q * q) + r * (10_000 + f) * q ≤ 10_000 * r * s)
      × (10_000 * r * s < f * ((q + 1) * (q + 1)) + r * (10_000 + f) * (q + 1))
split_root r s f root hf (low, high) h =
    let b = r * (10_000 + f) in
    let q = (root - b) / (2 * f) in
    let under : q * (2 * f) ≤ root - b = div-mul-le (root - b) (2 * f) in
    let over : root - b < (q + 1) * (2 * f) = lt-div-mul (root - b) (2 * f) (omega arith) in
    let below = mul_mono (2 * f * q + b) root (2 * f * q + b) root (omega arith) (omega arith) in
    let above =
      mul_mono (root + 1) (2 * f * (q + 1) + b) (root + 1) (2 * f * (q + 1) + b) (omega arith)
        (omega arith) in
    (
      complete_below f q b (10_000 * r * s) hf (omega arith),
      complete_above f (q + 1) b (10_000 * r * s) (omega arith),
    )

pub swap_in_amount-eq-ok :
    (r s f : ℕ) {q : ℤ}
    → swap_in_amount r s f ≡ ok q
    → (n : ℕ) × (0 < f)
      × (q ≡ pos n)
      × (f * (n * n) + r * (10_000 + f) * n ≤ 10_000 * r * s)
      × (10_000 * r * s < f * ((n + 1) * (n + 1)) + r * (10_000 + f) * (n + 1))
unfolding swap_in_amount
swap_in_amount-eq-ok r s f h =
    let (d, ed, k) = >>=-eq-ok (discriminant r s f) _ h in
    let (root, er, j) = >>=-eq-ok (sqrt_u256 d.0) _ k in
    let (same, _) = discriminant-eq-ok r s f ed in
    let is_root : IsRoot d.0 root = sqrt_u256-eq-ok d.0 er in
    let hf : 0 < f = ground arith in
    let bounds =
      split_root r s f root hf (subst (λ k. IsRoot k root) (ap (λ (e : ℕ × ℕ). e.0) same) is_root)
        (ground arith) in
    ((root - r * (10_000 + f)) / (2 * f), hf, ground arith, bounds.0, bounds.1)

-- The swap part of a single-sided deposit is the rounded-down positive root of
-- f * x^2 + reserve_in * (10_000 + f) * x = 10_000 * reserve_in * amount, for f = 10_000 - fee_bps:
-- at the result the left side is at most the right, and one unit more exceeds it. Both arguments
-- are positive and the fee is below 100%, and the result is at most the amount.
pub swap_in_root :
    (a s : ℤ) (fee : ℕ) {q : ℤ}
    → compute_swap_in_for_single_side a s fee ≡ ok q
    → (r : ℕ) × (n : ℕ) × (x : ℕ) × (a ≡ pos r)
      × (s ≡ pos n)
      × (q ≡ pos x)
      × (0 < r)
      × (0 < n)
      × (fee < 10_000)
      × (let f = 10_000 - fee in
          (f * (x * x) + r * (10_000 + f) * x ≤ 10_000 * r * n)
          × (10_000 * r * n < f * ((x + 1) * (x + 1)) + r * (10_000 + f) * (x + 1)))
      × (x ≤ n)
unfolding compute_swap_in_for_single_side
swap_in_root (pos r) (pos n) fee {q} h =
    let inner : swap_in_amount r n (10_000 - fee) ≡ ok q = ground arith in
    let hr : 0 < r = ground arith in
    let hn : 0 < n = ground arith in
    let (x, hf, e, low, high) = swap_in_amount-eq-ok r n (10_000 - fee) inner in
    (
      r,
      n,
      x,
      refl,
      refl,
      e,
      hr,
      hn,
      omega arith,
      (low, high),
      mul-le_cancel x n (10_000 * r) (omega arith) (omega arith),
    )
swap_in_root (pos r) (negsuc n) fee h = ground arith
swap_in_root (negsuc r) s fee h = cc
