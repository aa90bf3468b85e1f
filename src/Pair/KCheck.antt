-- ===== src/Pair/KCheck.antt =====
-- The check of the invariant in a swap, and the amounts that it reads (`swap_inner` of
-- contracts/pair/src/lib.rs).
use coralswap_core.Prelude.{
  Bool-cases, Option, arith, div-mul-le, inl, inr, le_refl, leb→le, ltb, min, mul_mono, none, refl,
  some, sym, true, ℕ, ◌&&◌, ◌*◌, ◌-◌, ◌/◌, ◌<◌, ◌^◌, ◌≡◌, ◌≢◌, ◌≤◌, ◌⊎◌,
}
use coralswap_core.Errors.{PairError}
use coralswap_core.Int.{
  checked_mul, checked_sub, leb_ℤ, ltb_ℤ, max_ℤ, negsuc, pos, quot, saturating_mul, ℤ, ◌-ℤ◌,
}
use coralswap_core.Int.Laws.{checked_mul-pos, checked_sub-eq-some, not_ltb_ℤ}
use coralswap_core.LpToken.{balance, is_some}
use coralswap_core.Outcome.{>>=-then, ok, ok_or, ok_or-eq-ok, raise_if-eq-ok, unwrap, unwrap-eq-ok}
use coralswap_core.Pair.State.{FactoryView, PairStorage}
use coralswap_core.Pair.Swap.{adjusted, amount_in, check_k, protocol_fee, protocol_share}

max-nonneg : (x : ℤ) {i : ℤ} → max_ℤ x (pos 0) ≡ i → (n : ℕ) × (i ≡ pos n)
max-nonneg (pos a) h = (a, ground arith)
max-nonneg (negsuc a) h = (0, ground arith)

max_sub :
    (balance left : ℤ) {n : ℕ}
    → leb_ℤ (pos 0) left ≡ true
    → max_ℤ (balance -ℤ left) (pos 0) ≡ pos n
    → (b : ℕ) × (((balance ≡ pos b) × (n ≤ b)) ⊎ ((balance ≡ negsuc b) × (n ≡ 0)))
unfolding ◌-ℤ◌
max_sub (pos b) (pos l) le h = (b, ground arith)
max_sub (negsuc b) (pos l) le h = (b, ground arith)
max_sub balance (negsuc l) le h = cc

pub amount_in-nonneg :
    (balance reserve out : ℤ) {i : ℤ} → amount_in balance reserve out ≡ ok i → (n : ℕ) × (i ≡ pos n)
unfolding amount_in
amount_in-nonneg balance reserve out {i} h =
    >>=-then (unwrap (checked_sub reserve out)) _ h λ left g0 h0.
      >>=-then (unwrap (checked_sub balance left)) _ h0 λ excess g1 h1. max-nonneg excess cc

-- The input of a side is no more than its balance, unless that is negative: then it is 0.
pub amount_in-le :
    (balance reserve out : ℤ) {n : ℕ}
    → leb_ℤ (pos 0) (reserve -ℤ out) ≡ true
    → amount_in balance reserve out ≡ ok (pos n)
    → (b : ℕ) × (((balance ≡ pos b) × (n ≤ b)) ⊎ ((balance ≡ negsuc b) × (n ≡ 0)))
unfolding amount_in
amount_in-le balance reserve out {n} le h =
    >>=-then (unwrap (checked_sub reserve out)) _ h λ left g0 h0.
      >>=-then (unwrap (checked_sub balance left)) _ h0 λ excess g1 h1.
        let e0 = checked_sub-eq-some reserve out (unwrap-eq-ok (checked_sub reserve out) g0) in
        let e1 = checked_sub-eq-some balance left (unwrap-eq-ok (checked_sub balance left) g1) in
        max_sub balance left (rw e0 le) cc

adjusted_pos :
    (b i fee : ℕ) {x : ℤ}
    → i * fee ≤ b * 10_000
    → adjusted (pos b) (pos i) fee ≡ ok x
    → x ≡ pos (b * 10_000 - i * fee)
unfolding adjusted checked_mul checked_sub
adjusted_pos b i fee le h = ground arith

adjusted_neg : (b fee : ℕ) {x : ℤ} → adjusted (negsuc b) (pos 0) fee ≡ ok x → ltb_ℤ x (pos 0) ≡ true
unfolding adjusted checked_mul checked_sub
adjusted_neg b fee h = ground arith

quarter : (a s : ℕ) → s ≤ 10_000 → (c : ℕ) → c * 100_000_000 ≤ a * s → c * 10_000 ≤ a
quarter a s h c k = let bound = mul_mono a a s 10_000 (le_refl a) h in omega arith

protocol_share_le : (bps : Option ℕ) → protocol_share bps ≤ 10_000
unfolding protocol_share
protocol_share_le none = omega arith
protocol_share_le (some bps) = omega arith

abbrev sat : ℕ → ℕ
sat n = min n (2 ^ 127 - 1)

saturating_mul-pos : (a b : ℕ) → saturating_mul (pos a) (pos b) ≡ pos (sat (a * b))
unfolding saturating_mul
saturating_mul-pos a b = ground arith

abbrev share_of : ℕ → ℕ → ℕ
share_of a s = sat (sat a * s) / 100_000_000

share_of_le : (a s : ℕ) → s ≤ 10_000 → share_of a s * 10_000 ≤ a
share_of_le a s h =
    let below : sat a * s ≤ a * s = mul_mono (sat a) a s s (omega arith) (le_refl s) in
    quarter a s h (share_of a s) (omega (arith, div-mul-le (sat (sat a * s)) 100_000_000))

share_term :
    (a fee s : ℕ)
    → quot (saturating_mul (saturating_mul (pos a) (pos fee)) (pos s)) (pos 100_000_000)
      ≡ pos (share_of (a * fee) s)
unfolding quot
share_term a fee s = rw (saturating_mul-pos a fee, saturating_mul-pos (sat (a * fee)) s) refl

pub protocol_fee_pos :
    (view : FactoryView) (i fee : ℕ)
    → (c : ℕ) × (protocol_fee view (pos i) fee ≡ pos c) × (c * 10_000 ≤ i * fee)
unfolding protocol_fee
protocol_fee_pos view i fee =
    let share = protocol_share view.fee_bps in
    let le = share_of_le (i * fee) share (protocol_share_le view.fee_bps) in
    elim (Bool-cases (is_some view.fee_to && ltb 0 share && ltb 0 i)) [
      | inl e ↦ (share_of (i * fee) share, rw e (share_term i fee share), le)
      | inr e ↦ (0, rw e refl, omega arith)
    ]

mul-nonpos :
    (x y : ℤ) {z : ℤ}
    → ltb_ℤ x (pos 0) ≡ true
    → leb_ℤ (pos 0) y ≡ true
    → checked_mul x y ≡ some z
    → leb_ℤ z (pos 0) ≡ true
unfolding checked_mul
mul-nonpos (pos x) y h k e = ground arith
mul-nonpos (negsuc x) (pos y) h k e = ground arith
mul-nonpos (negsuc x) (negsuc y) h k e = cc

mul-nonpos-right :
    (x y : ℤ) {z : ℤ}
    → leb_ℤ (pos 0) x ≡ true
    → ltb_ℤ y (pos 0) ≡ true
    → checked_mul x y ≡ some z
    → leb_ℤ z (pos 0) ≡ true
unfolding checked_mul
mul-nonpos-right (pos x) (negsuc y) h k e = ground arith
mul-nonpos-right (negsuc x) y h k e = cc
mul-nonpos-right x (pos y) h k e = ground arith

-- What the check of the invariant has computed.
check_k-then :
    {C : Type 0} (state : PairStorage) (balance_a balance_b in_a in_b : ℤ) (fee ra rb : ℕ)
    → state.reserve_a ≡ pos ra
    → state.reserve_b ≡ pos rb
    → check_k state balance_a balance_b in_a in_b fee ≡ ok tt
    → ((x y z : ℤ)
        → adjusted balance_a in_a fee ≡ ok x
        → adjusted balance_b in_b fee ≡ ok y
        → checked_mul x y ≡ some z
        → leb_ℤ (pos (ra * rb * 100_000_000)) z ≡ true
        → C)
    → C
unfolding check_k
check_k-then state ba bb ia ib fee ra rb ea eb h k = >>=-then (adjusted ba ia fee) _ h λ x g0 h0.
    >>=-then (adjusted bb ib fee) _ h0 λ y g1 h1.
      >>=-then (ok_or (checked_mul state.reserve_a state.reserve_b) PairError.overflow) _ h1
        λ m g2 h2.
          >>=-then (ok_or (checked_mul m (pos 100_000_000)) PairError.overflow) _ h2 λ before g3 h3.
            >>=-then (ok_or (checked_mul x y) PairError.overflow) _ h3 λ z g4 h4.
              let m_eq : checked_mul (pos ra) (pos rb) ≡ some m =
                let e =
                  ok_or-eq-ok (checked_mul state.reserve_a state.reserve_b) PairError.overflow g2 in
                cc in
              let (m_pos, m_fits) = checked_mul-pos ra rb m_eq in
              let before_eq : checked_mul (pos (ra * rb)) (pos 100_000_000) ≡ some before =
                let e = ok_or-eq-ok (checked_mul m (pos 100_000_000)) PairError.overflow g3 in cc in
              let (before_pos, before_fits) = checked_mul-pos (ra * rb) 100_000_000 before_eq in
              let kept =
                not_ltb_ℤ z before (raise_if-eq-ok (ltb_ℤ z before) PairError.invalid_k h4) in
              k x y z g0 g1 (ok_or-eq-ok (checked_mul x y) PairError.overflow g4)
                (rw (sym before_pos) kept)

pub check_k-pos :
    (state : PairStorage) (ba bb ia ib fee ra rb : ℕ)
    → state.reserve_a ≡ pos ra
    → state.reserve_b ≡ pos rb
    → ia * fee ≤ ba * 10_000
    → ib * fee ≤ bb * 10_000
    → check_k state (pos ba) (pos bb) (pos ia) (pos ib) fee ≡ ok tt
    → ra * rb * 100_000_000 ≤ (ba * 10_000 - ia * fee) * (bb * 10_000 - ib * fee)
check_k-pos state ba bb ia ib fee ra rb ea eb la lb h =
    check_k-then state (pos ba) (pos bb) (pos ia) (pos ib) fee ra rb ea eb h λ x y z hx hy hz kept.
      let ex = adjusted_pos ba ia fee la hx in
      let ey = adjusted_pos bb ib fee lb hy in
      let (ez, _) = checked_mul-pos (ba * 10_000 - ia * fee) (bb * 10_000 - ib * fee) {c = z} cc in
      leb→le _ _ cc

adjusted_nonneg :
    (b i fee : ℕ) {x : ℤ}
    → i * fee ≤ b * 10_000
    → adjusted (pos b) (pos i) fee ≡ ok x
    → leb_ℤ (pos 0) x ≡ true
adjusted_nonneg b i fee le h = let e = adjusted_pos b i fee le h in ground arith

not-above_0 :
    (k : ℕ) (z : ℤ) → 0 < k → leb_ℤ (pos (k * 100_000_000)) z ≡ true → leb_ℤ z (pos 0) ≢ true
not-above_0 k (pos z) h low high = ground arith
not-above_0 k (negsuc z) h low high = cc

-- A negative balance beside one that is not fails the check.
pub check_k-neg-left :
    (state : PairStorage) (ba bb ib fee ra rb : ℕ)
    → state.reserve_a ≡ pos ra
    → state.reserve_b ≡ pos rb
    → 0 < ra * rb
    → ib * fee ≤ bb * 10_000
    → check_k state (negsuc ba) (pos bb) (pos 0) (pos ib) fee ≢ ok tt
check_k-neg-left state ba bb ib fee ra rb ea eb some_k lb h =
    check_k-then state (negsuc ba) (pos bb) (pos 0) (pos ib) fee ra rb ea eb h
      λ x y z hx hy hz kept.
        let low = mul-nonpos x y (adjusted_neg ba fee hx) (adjusted_nonneg bb ib fee lb hy) hz in
        not-above_0 (ra * rb) z some_k kept low

pub check_k-neg-right :
    (state : PairStorage) (ba bb ia fee ra rb : ℕ)
    → state.reserve_a ≡ pos ra
    → state.reserve_b ≡ pos rb
    → 0 < ra * rb
    → ia * fee ≤ ba * 10_000
    → check_k state (pos ba) (negsuc bb) (pos ia) (pos 0) fee ≢ ok tt
check_k-neg-right state ba bb ia fee ra rb ea eb some_k la h =
    check_k-then state (pos ba) (negsuc bb) (pos ia) (pos 0) fee ra rb ea eb h
      λ x y z hx hy hz kept.
        let low =
          mul-nonpos-right x y (adjusted_nonneg ba ia fee la hx) (adjusted_neg bb fee hy) hz in
        not-above_0 (ra * rb) z some_k kept low
