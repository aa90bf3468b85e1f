-- ===== src/Pair/Reserves.antt =====
-- The reserves that a swap stores, against its check of the invariant (`swap_inner` of
-- contracts/pair/src/lib.rs).
use coralswap_core.Prelude.{arith, mul-le_cancel, mul_mono, some, ℕ, ◌*◌, ◌-◌, ◌≡◌, ◌≤◌}
use coralswap_core.Errors.{PairError}
use coralswap_core.Int.{checked_mul, checked_sub, pos, ℤ}
use coralswap_core.Int.Laws.{checked_mul-pos}
use coralswap_core.Outcome.{>>=-then, ok, ok_or, ok_or-eq-ok}
use coralswap_core.Pair.KCheck.{check_k-pos, protocol_fee_pos}
use coralswap_core.Pair.State.{FactoryView, PairStorage}
use coralswap_core.Pair.Swap.{check_k, protocol_fee, settle_reserves}

checked_sub-le : (a b : ℕ) {c : ℤ} → b ≤ a → checked_sub (pos a) (pos b) ≡ some c → c ≡ pos (a - b)
unfolding checked_sub
checked_sub-le a b le h = ground arith

-- The reserves of a pair, neither of them negative.
pub record HasReserves (state : PairStorage) (a b : ℕ) : Type 0 where
  pub reserve_a_eq : state.reserve_a ≡ pos a
  pub reserve_b_eq : state.reserve_b ≡ pos b

settle_reserves-pos :
    (timestamp : ℕ) (state : PairStorage) (ba bb ca cb : ℕ) {state' : PairStorage}
    → ca ≤ ba
    → cb ≤ bb
    → settle_reserves timestamp state (pos ba) (pos bb) (pos ca) (pos cb) ≡ ok state'
    → HasReserves state' (ba - ca) (bb - cb) × (state'.k_last ≡ pos ((ba - ca) * (bb - cb)))
unfolding settle_reserves
settle_reserves-pos timestamp state ba bb ca cb {state'} la lb h =
    >>=-then (ok_or (checked_sub (pos ba) (pos ca)) PairError.overflow) _ h λ x g0 h0.
      >>=-then (ok_or (checked_sub (pos bb) (pos cb)) PairError.overflow) _ h0 λ y g1 h1.
        >>=-then (ok_or (checked_mul x y) PairError.overflow) _ h1 λ k g2 h2.
          let ex = checked_sub-le ba ca la (ok_or-eq-ok _ PairError.overflow g0) in
          let ey = checked_sub-le bb cb lb (ok_or-eq-ok _ PairError.overflow g1) in
          let ek = ok_or-eq-ok (checked_mul x y) PairError.overflow g2 in
          let (k_eq, _) = checked_mul-pos (ba - ca) (bb - cb) {c = k} cc in
          (record { reserve_a_eq = cc; reserve_b_eq = cc }, cc)

-- Each side keeps at least its adjusted balance.
kept_side : (b i fee c : ℕ) → c * 10_000 ≤ i * fee → b * 10_000 - i * fee ≤ (b - c) * 10_000
kept_side b i fee c h = omega arith

product_kept :
    (ra rb xa xb na nb : ℕ)
    → ra * rb * 100_000_000 ≤ xa * xb
    → xa ≤ na * 10_000
    → xb ≤ nb * 10_000
    → ra * rb ≤ na * nb
product_kept ra rb xa xb na nb h la lb =
    let le = mul_mono xa (na * 10_000) xb (nb * 10_000) la lb in
    mul-le_cancel (ra * rb) (na * nb) 100_000_000 (omega arith)
      (let e : na * 10_000 * (nb * 10_000) ≡ na * nb * 100_000_000 = grind arith in omega arith)

-- The reserves after a swap whose balances are not negative.
pub reserves_kept :
    (timestamp : ℕ) (view : FactoryView) (state : PairStorage) (ba bb ia ib fee ra rb : ℕ)
    {state' : PairStorage}
    → HasReserves state ra rb
    → ia ≤ ba
    → ib ≤ bb
    → fee ≤ 10_000
    → check_k state (pos ba) (pos bb) (pos ia) (pos ib) fee ≡ ok tt
    → settle_reserves timestamp state
        (pos ba)
        (pos bb)
        (protocol_fee view (pos ia) fee)
        (protocol_fee view (pos ib) fee)
      ≡ ok state'
    → (na nb : ℕ) × HasReserves state' na nb × (state'.k_last ≡ pos (na * nb)) × (ra * rb ≤ na * nb)
reserves_kept timestamp view state ba bb ia ib fee ra rb {state'} r la lb lf h s =
    let (ca, ea, ha) = protocol_fee_pos view ia fee in
    let (cb, eb, hb) = protocol_fee_pos view ib fee in
    let fa = mul_mono ia ba fee 10_000 la lf in
    let fb = mul_mono ib bb fee 10_000 lb lf in
    let s' : settle_reserves timestamp state (pos ba) (pos bb) (pos ca) (pos cb) ≡ ok state' = cc in
    let (r', k) = settle_reserves-pos timestamp state ba bb ca cb (omega arith) (omega arith) s' in
    (
      ba - ca,
      bb - cb,
      r',
      k,
      product_kept ra rb _ _ (ba - ca) (bb - cb)
          (check_k-pos state ba bb ia ib fee ra rb r.reserve_a_eq r.reserve_b_eq fa fb h)
          (kept_side ba ia fee ca ha) (kept_side bb ib fee cb hb),
    )
