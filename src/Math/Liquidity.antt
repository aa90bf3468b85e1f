-- ===== src/Math/Liquidity.antt =====
-- The liquidity formulas on the amounts of a running pool: who gains by rounding.
use coralswap_core.Prelude.{
  arith, dec_le, div-mul-le, if◌then◌else◌, le-div_of_mul, le_refl, le_trans, ltb, mul-le_cancel,
  mul_mono, mul_sub, ℕ, ◌&&◌, ◌*◌, ◌+◌, ◌-◌, ◌/◌, ◌<◌, ◌≡◌, ◌≤◌,
}
use coralswap_core.Errors.{PairError}
use coralswap_core.Int.{min_ℤ, pos, two_127, ℤ}
use coralswap_core.Math.{burn_amounts, mul_then_div, subsequent_liquidity}
use coralswap_core.Outcome.{err, ok}

pub mul_then_div-pos :
    (a b c : ℕ) {q : ℤ}
    → mul_then_div (pos a) (pos b) (pos c) ≡ ok q
    → (0 < c) × (q ≡ pos (a * b / c))
unfolding mul_then_div
mul_then_div-pos a b c h = ground arith

-- The same as an equation on every branch.
pub mul_then_div_lem :
    (a b c : ℕ)
    → mul_then_div (pos a) (pos b) (pos c)
      ≡ (if ltb (a * b) two_127 && ltb 0 c then ok (pos (a * b / c)) else err PairError.overflow)
unfolding mul_then_div
mul_then_div_lem a b c = ground arith

pub subsequent-eq-ok :
    (a b ra rb s : ℕ) {l : ℤ}
    → subsequent_liquidity (pos a) (pos b) (pos ra) (pos rb) (pos s) ≡ ok l
    → (0 < ra) × (0 < rb) × (l ≡ min_ℤ (pos (a * s / ra)) (pos (b * s / rb)))
unfolding subsequent_liquidity
subsequent-eq-ok a b ra rb s h = ground arith

-- The liquidity of a later deposit is the largest that is worth no more than either deposit: with
-- `s` shares outstanding, `l * reserve_a ≤ amount_a * s` and `l * reserve_b ≤ amount_b * s`, and
-- every liquidity for which both hold is at most `l`.
pub subsequent_liquidity_largest :
    (a b ra rb s : ℕ) {l : ℤ}
    → subsequent_liquidity (pos a) (pos b) (pos ra) (pos rb) (pos s) ≡ ok l
    → (k : ℕ) × (l ≡ pos k)
      × (k * ra ≤ a * s)
      × (k * rb ≤ b * s)
      × ((j : ℕ) → j * ra ≤ a * s → j * rb ≤ b * s → j ≤ k)
subsequent_liquidity_largest a b ra rb s h =
    let (pa, pb, e) = subsequent-eq-ok a b ra rb s h in
    let qa = a * s / ra in
    let qb = b * s / rb in
    let la : qa * ra ≤ a * s = div-mul-le (a * s) ra in
    let lb : qb * rb ≤ b * s = div-mul-le (b * s) rb in
    elim (dec_le qa qb) [
      | yes h ↦ (
        qa,
        ground arith,
        la,
        le_trans (mul_mono qa qb rb rb h (le_refl rb)) lb,
        λ j ja jb. le-div_of_mul j (a * s) ra pa ja,
      )
      | no h ↦ (
        qb,
        ground arith,
        le_trans (mul_mono qb qa ra ra (omega arith) (le_refl ra)) la,
        lb,
        λ j ja jb. le-div_of_mul j (b * s) rb pb jb,
      )
    ]

pub burn-eq-ok :
    (l ra rb s : ℕ) {p : ℤ × ℤ}
    → burn_amounts (pos l) (pos ra) (pos rb) (pos s) ≡ ok p
    → (0 < s) × (p ≡ (pos (l * ra / s), pos (l * rb / s)))
unfolding burn_amounts
burn-eq-ok l ra rb s h = ground arith

-- One side of a withdrawal of `l` of `s` shares.
share_fair :
    (l r s : ℕ)
    → 0 < s
    → l ≤ s
    → (l * r / s ≤ r) × (r * (s - l) ≤ (r - l * r / s) * s) × (l ≡ s → l * r / s ≡ r)
share_fair l r s hs h =
    let p = l * r / s in
    let paid_le : p * s ≤ l * r = div-mul-le (l * r) s in
    let share = mul_mono l s r r h (le_refl r) in
    let bounded : p ≤ r = mul-le_cancel p r s hs (omega arith) in
    (
      bounded,
      omega (arith, mul_sub r s l h, mul_sub s r p bounded),
      λ e. omega (arith, le-div_of_mul r (l * r) s hs (rw e (omega arith)), bounded),
    )

-- A withdrawal of at most all shares pays each side no more than its reserve, leaves the remaining
-- shares worth no less than before, and pays both reserves whole when it withdraws every share.
pub burn_amounts_fair :
    (l ra rb s : ℕ) {p : ℤ × ℤ}
    → burn_amounts (pos l) (pos ra) (pos rb) (pos s) ≡ ok p
    → l ≤ s
    → (pa : ℕ) × (pb : ℕ) × (p ≡ (pos pa, pos pb))
      × (pa ≤ ra)
      × (pb ≤ rb)
      × (ra * (s - l) ≤ (ra - pa) * s)
      × (rb * (s - l) ≤ (rb - pb) * s)
      × (l ≡ s → (pa ≡ ra) × (pb ≡ rb))
burn_amounts_fair l ra rb s h k =
    let (hs, e) = burn-eq-ok l ra rb s h in
    let fa = share_fair l ra s hs k in
    let fb = share_fair l rb s hs k in
    (l * ra / s, l * rb / s, e, fa.0, fb.0, fa.1, fb.1, λ q. (fa.2 q, fb.2 q))

-- One side of a deposit of `a` that is withdrawn at once.
round_trip_side : (a r s l : ℕ) → 0 < s + l → l * r ≤ a * s → l * (r + a) / (s + l) ≤ a
round_trip_side a r s l hs h =
    let paid_le = div-mul-le (l * (r + a)) (s + l) in
    mul-le_cancel (l * (r + a) / (s + l)) a (s + l) hs (omega arith)

-- A deposit withdrawn at once, against the full supply, returns no more than was deposited.
pub mint_burn_no_gain :
    (a b ra rb s l : ℕ) {p : ℤ × ℤ}
    → subsequent_liquidity (pos a) (pos b) (pos ra) (pos rb) (pos s) ≡ ok (pos l)
    → burn_amounts (pos l) (pos (ra + a)) (pos (rb + b)) (pos (s + l)) ≡ ok p
    → (pa : ℕ) × (pb : ℕ) × (p ≡ (pos pa, pos pb)) × (pa ≤ a) × (pb ≤ b)
mint_burn_no_gain a b ra rb s l h k =
    let (j, e, ka, kb, _) = subsequent_liquidity_largest a b ra rb s h in
    let (hs, ep) = burn-eq-ok l (ra + a) (rb + b) (s + l) k in
    let same : l ≡ j = cc in
    (
      l * (ra + a) / (s + l),
      l * (rb + b) / (s + l),
      ep,
      round_trip_side a ra s l hs (rw same ka),
      round_trip_side b rb s l hs (rw same kb),
    )

seed_gain_side :
    (a r s l : ℕ)
    → 1_000 < s + l
    → l * r ≡ a * s
    → s + l ≤ 1_000 * (a + 1)
    → a < l * (r + a) / (s + l - 1_000)
seed_gain_side a r s l hs e h =
    let k =
      le-div_of_mul (a + 1) (l * (r + a)) (s + l - 1_000) (omega arith)
        (omega (arith, mul_sub (a + 1) (s + l) 1_000 (omega arith))) in
    omega arith

-- Against a supply that is 1_000 smaller a deposit in the exact proportion of the pool, withdrawn at
-- once, returns strictly more than was deposited on both sides, whenever the supply afterwards is at
-- most 1_000 * (amount + 1) for both amounts.
pub seed_gain :
    (a b ra rb s l : ℕ) {p : ℤ × ℤ}
    → 1_000 < s + l
    → l * ra ≡ a * s
    → l * rb ≡ b * s
    → s + l ≤ 1_000 * (a + 1)
    → s + l ≤ 1_000 * (b + 1)
    → subsequent_liquidity (pos a) (pos b) (pos ra) (pos rb) (pos s) ≡ ok (pos l)
    → burn_amounts (pos l) (pos (ra + a)) (pos (rb + b)) (pos (s + l - 1_000)) ≡ ok p
    → (pa : ℕ) × (pb : ℕ) × (p ≡ (pos pa, pos pb)) × (a < pa) × (b < pb)
seed_gain a b ra rb s l hs ea eb ha hb h k =
    let (_, ep) = burn-eq-ok l (ra + a) (rb + b) (s + l - 1_000) k in
    (
      l * (ra + a) / (s + l - 1_000),
      l * (rb + b) / (s + l - 1_000),
      ep,
      seed_gain_side a ra s l hs ea ha,
      seed_gain_side b rb s l hs eb hb,
    )
