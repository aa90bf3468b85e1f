-- ===== src/Pair/Quoted.antt =====
-- The quote of an exact input (contracts/shared/src/lib.rs) against the check of the invariant in a
-- swap (contracts/pair/src/lib.rs).
use coralswap_core.Prelude.{
  arith, false, le_refl, le_trans, ltb, mul_mono, refl, some, subst, true, ℕ, ◌*◌, ◌+◌, ◌-◌, ◌<◌,
  ◌↔◌, ◌≡◌, ◌≤◌,
}
use coralswap_core.Int.{checked_mul, checked_sub, fits, leb_ℤ, pos, two_127, ℤ}
use coralswap_core.Outcome.{ok}
use coralswap_core.Pair.KCheck.{check_k-pos}
use coralswap_core.Pair.State.{PairStorage}
use coralswap_core.Pair.Swap.{adjusted, amount_in, check_k}
use coralswap_core.Quote.{quote_output_amount}
use coralswap_core.Quote.Output.{quote_output-eq-ok, quote_output_largest}

adjusted_fits :
    (b i fee : ℕ)
    → i * fee ≤ b * 10_000
    → b * 10_000 < two_127
    → adjusted (pos b) (pos i) fee ≡ ok (pos (b * 10_000 - i * fee))
unfolding adjusted checked_mul checked_sub
adjusted_fits b i fee le fits = ground arith

pub checked_mul_fits :
    (a b : ℕ) → a * b < two_127 → checked_mul (pos a) (pos b) ≡ some (pos (a * b))
unfolding checked_mul
checked_mul_fits a b h = ground arith

-- Where nothing overflows, the check passes whenever the adjusted product is large enough.
check_k-passes :
    (state : PairStorage) (ba bb ia fee ra rb : ℕ)
    → state.reserve_a ≡ pos ra
    → state.reserve_b ≡ pos rb
    → ia * fee ≤ ba * 10_000
    → ba * 10_000 < two_127
    → bb * 10_000 < two_127
    → ba * 10_000 * (bb * 10_000) < two_127
    → ra * rb * 100_000_000 ≤ (ba * 10_000 - ia * fee) * (bb * 10_000)
    → check_k state (pos ba) (pos bb) (pos ia) (pos 0) fee ≡ ok tt
unfolding check_k
check_k-passes state ba bb ia fee ra rb ea eb le fa fb fp kept =
    let a = adjusted_fits ba ia fee le fa in
    let b = adjusted_fits bb 0 fee (omega arith) fb in
    let shrink : (ba * 10_000 - ia * fee) * (bb * 10_000) ≤ ba * 10_000 * (bb * 10_000) =
      mul_mono (ba * 10_000 - ia * fee) (ba * 10_000) (bb * 10_000) (bb * 10_000) (omega arith)
        (le_refl _) in
    let same : bb * 10_000 - 0 * fee ≡ bb * 10_000 = omega arith in
    let k = checked_mul_fits ra rb (omega arith) in
    let before = checked_mul_fits (ra * rb) 100_000_000 (omega arith) in
    let after = checked_mul_fits (ba * 10_000 - ia * fee) (bb * 10_000) (omega arith) in
    let above : ltb ((ba * 10_000 - ia * fee) * (bb * 10_000)) (ra * rb * 100_000_000) ≡ false =
      ground arith in
    rw (a, b, same, ea, eb, k, before, after, above) refl

fee_split : (r x f g : ℕ) → (r + x) * (f + g) - x * f ≡ r * (f + g) + x * g
fee_split r x f g = omega arith

-- The input with its fee, against the balances that the pair reads.
fee_taken :
    (r x fee : ℕ) → fee ≤ 10_000 → (r + x) * 10_000 - x * fee ≡ r * 10_000 + x * (10_000 - fee)
fee_taken r x fee h =
    let e : fee + (10_000 - fee) ≡ 10_000 = omega arith in
    subst (λ k. (r + x) * k - x * fee ≡ r * k + x * (10_000 - fee)) e
      (fee_split r x fee (10_000 - fee))

scaled_iff : (r s a c : ℕ) → (r * 10_000 * s ≤ a * c) ↔ (r * s * 100_000_000 ≤ a * (c * 10_000))
scaled_iff r s a c = (λ h. omega arith, λ h. omega arith)

-- The quote over the naturals: what it pays keeps the adjusted product, and nothing larger does.
pub quoted_largest :
    (x r s fee : ℕ) {out : ℤ}
    → quote_output_amount (pos x) (pos r) (pos s) fee ≡ ok out
    → (p : ℕ) × (out ≡ pos p)
      × (0 < x)
      × (0 < r)
      × (0 < s)
      × (fee < 10_000)
      × (r * 10_000 * s ≤ (r * 10_000 + x * (10_000 - fee)) * (s - p))
      × ((q : ℕ) → q ≤ s → r * 10_000 * s ≤ (r * 10_000 + x * (10_000 - fee)) * (s - q) → q ≤ p)
      × (0 < p)
quoted_largest x r s fee h =
    let (x1, r1, s1, p, ex, er, es, eo, pp, below, keep, most) =
      quote_output_largest (pos x) (pos r) (pos s) fee h in
    let (x2, r2, s2, fx, fr, fs, px, pr, ps, pf, fo, fp) =
      quote_output-eq-ok (pos x) (pos r) (pos s) fee h in
    let same_x : x1 ≡ x = ground arith in
    let same_r : r1 ≡ r = ground arith in
    let same_s : s1 ≡ s = ground arith in
    (
      p,
      eo,
      ground arith,
      ground arith,
      ground arith,
      pf,
      rw (same_x, same_r, same_s) at keep,
      rw (same_x, same_r, same_s) at most,
      pp,
    )

pub amount_in_paid :
    (r x : ℕ) → r + x < two_127 → amount_in (pos (r + x)) (pos r) (pos 0) ≡ ok (pos x)
unfolding amount_in checked_sub
amount_in_paid r x h = ground arith

pub amount_in_none :
    (s q : ℕ) → q ≤ s → s < two_127 → amount_in (pos (s - q)) (pos s) (pos q) ≡ ok (pos 0)
unfolding amount_in checked_sub
amount_in_none s q h k = ground arith

-- A pair with the first reserve `r` and the second `s` that is paid `x` reads exactly `x` as the
-- input, and its check of the invariant accepts a payout `q` exactly when the quote of `x` is no less:
-- the quote that the router reads is the largest payout that a swap allows. The scaled reserves have
-- to fit into `i128` with the input.
pub quote_is_largest_accepted :
    (state : PairStorage) (x r s q fee : ℕ) {out : ℤ}
    → state.reserve_a ≡ pos r
    → state.reserve_b ≡ pos s
    → (r + x) * 10_000 * (s * 10_000) < two_127
    → quote_output_amount (pos x) (pos r) (pos s) fee ≡ ok out
    → q ≤ s
    → (amount_in (pos (r + x)) (pos r) (pos 0) ≡ ok (pos x))
      × (amount_in (pos (s - q)) (pos s) (pos q) ≡ ok (pos 0))
      × ((check_k state (pos (r + x)) (pos (s - q)) (pos x) (pos 0) fee ≡ ok tt)
          ↔ (leb_ℤ (pos q) out ≡ true))
quote_is_largest_accepted state x r s q fee {out} ea eb fits quoted small =
    let (p, eo, px, pr, ps, pf, keep, most, pp) = quoted_largest x r s fee quoted in
    let taken = fee_taken r x fee (omega arith) in
    let charge : x * fee ≤ (r + x) * 10_000 =
      mul_mono x (r + x) fee 10_000 (omega arith) (omega arith) in
    let wide_le = mul_mono ((r + x) * 10_000) _ 1 (s * 10_000) (le_refl _) (omega arith) in
    let wide : (r + x) * 10_000 < two_127 = omega arith in
    let tall_le = mul_mono 1 ((r + x) * 10_000) (s * 10_000) _ (omega arith) (le_refl _) in
    let tall : s * 10_000 < two_127 = omega arith in
    let area =
      mul_mono ((r + x) * 10_000) _ ((s - q) * 10_000) (s * 10_000) (le_refl _) (omega arith) in
    let no_fee : (s - q) * 10_000 - 0 * fee ≡ (s - q) * 10_000 = omega arith in
    (
      amount_in_paid r x (omega arith),
      amount_in_none s q small (omega arith),
      (
        λ passed.
            let kept =
              check_k-pos state (r + x) (s - q) x 0 fee r s ea eb charge (omega arith) passed in
            let scaled : r * s * 100_000_000
                ≤ (r * 10_000 + x * (10_000 - fee)) * ((s - q) * 10_000) =
              rw (no_fee, taken) at kept in
            let below = most q small ((scaled_iff r s _ (s - q)).1 scaled) in ground arith,
        λ enough.
            let below : q ≤ p = ground arith in
            let more =
              mul_mono (r * 10_000 + x * (10_000 - fee)) _ (s - p) (s - q) (le_refl _)
                (omega arith) in
            let scaled =
              (scaled_iff r s (r * 10_000 + x * (10_000 - fee)) (s - q)).0 (le_trans keep more) in
            check_k-passes state (r + x) (s - q) x fee r s ea eb charge wide (omega arith)
              (omega arith) (rw taken scaled),
      ),
    )
