-- ===== src/Pair/Tracking.antt =====
-- The volatility that a swap tracks never makes the swap panic (`swap_inner` of contracts/pair/src/lib.rs).
use coralswap_core.Prelude.{
  Bool, Bool-cases, Option, Option-cases, arith, div_le, false, if◌then◌else◌, inl, inr, ltb, none,
  refl, some, subst, true, ℕ, ◌&&◌, ◌*◌, ◌-◌, ◌/◌, ◌<◌, ◌||◌, ◌≡◌, ◌≢◌, ◌≤◌,
}
use coralswap_core.Env.{Env}
use coralswap_core.Errors.{PairError}
use coralswap_core.Fee.{FeeState, ema, scale, update_volatility}
use coralswap_core.Int.{
  checked_add, checked_div, checked_mul, checked_sub, leb_ℤ, ltb_ℤ, pos, saturating_add, two_127, ℤ,
}
use coralswap_core.Int.Laws.{checked_div-pos, checked_mul-pos}
use coralswap_core.Math.{mul_then_div}
use coralswap_core.Outcome.{Outcome, err, ok, ok_or, raise_if, trap, unwrap, ◌>>=◌}
use coralswap_core.Pair.State.{PairStorage}
use coralswap_core.Pair.Swap.{ignore_error, price, track_volatility}

-- No panic: the call ends with a value or with an error.
abbrev Ends : {E A : Type 0} → Outcome E A → Type 0
Ends m = m ≢ trap

raise_if-Ends : {E : Type 0} (b : Bool) (e : E) → Ends (raise_if b e)
raise_if-Ends true e h = cc
raise_if-Ends false e h = cc

ok_or-Ends : {E A : Type 0} (o : Option A) (e : E) → Ends (ok_or o e)
ok_or-Ends none e h = cc
ok_or-Ends (some a) e h = cc

-- A chain of calls that panics does so after its first call.
>>=-trap :
    {E A B : Type 0} (m : Outcome E A) (f : A → Outcome E B)
    → (m >>= f) ≡ trap
    → Ends m
    → ((a : A) → f a ≡ trap → ⊥)
    → ⊥
>>=-trap (ok a) f h ends go = go a h
>>=-trap (err e) f h ends go = cc
>>=-trap trap f h ends go = ends refl

mul_then_div-Ends : (a b c : ℤ) → Ends (mul_then_div a b c)
unfolding mul_then_div
mul_then_div-Ends a b c h =
    >>=-trap (ok_or (checked_mul a b) PairError.overflow) _ h (ok_or-Ends _ _)
      λ product k. ok_or-Ends _ _ k

ema-Ends : (alpha observation vol : ℤ) → Ends (ema alpha observation vol)
unfolding ema
ema-Ends alpha observation vol h =
    >>=-trap (ok_or (checked_mul alpha observation) PairError.overflow) _ h (ok_or-Ends _ _)
      λ alpha_term h1.
        >>=-trap (ok_or (checked_sub scale alpha) PairError.overflow) _ h1 (ok_or-Ends _ _)
          λ complement h2.
            >>=-trap (ok_or (checked_mul complement vol) PairError.overflow) _ h2 (ok_or-Ends _ _)
              λ prev_term h3.
                >>=-trap (ok_or (checked_add alpha_term prev_term) PairError.overflow) _ h3
                  (ok_or-Ends _ _) λ total h4. ok_or-Ends _ _ h4

update_volatility-Ends :
    (env : Env) (fs : FeeState) (delta size total : ℤ)
    → Ends (update_volatility env fs delta size total)
unfolding update_volatility
update_volatility-Ends env fs delta size total h =
    >>=-trap
      (raise_if (ltb_ℤ delta (pos 0) || leb_ℤ size (pos 0) || leb_ℤ total (pos 0))
        PairError.invalid_input)
      _ h (raise_if-Ends _ _)
      λ u h1.
        >>=-trap
          (raise_if (ltb_ℤ fs.ema_alpha (pos 0) || ltb_ℤ scale fs.ema_alpha)
            PairError.invalid_ema_alpha)
          _ h1 (raise_if-Ends _ _)
          λ v h2.
            >>=-trap (mul_then_div size scale total) _ h2 (mul_then_div-Ends size scale total)
              λ weight h3.
                >>=-trap (mul_then_div delta weight scale) _ h3
                  (mul_then_div-Ends delta weight scale)
                  λ observation h4.
                    >>=-trap (ema fs.ema_alpha observation fs.vol_accumulator) _ h4
                      (ema-Ends fs.ema_alpha observation fs.vol_accumulator) λ average h5. cc

ignore_error-ok :
    (fs : FeeState) (m : Outcome PairError FeeState)
    → Ends m
    → (fs' : FeeState) × (ignore_error fs m ≡ ok fs')
ignore_error-ok fs (ok fs') h = (fs', refl)
ignore_error-ok fs (err e) h = (fs, refl)
ignore_error-ok fs trap h = absurd (h refl)

-- A price is not negative and fits.
price-pos : (a b : ℕ) → (n : ℕ) × (price (pos a) (pos b) ≡ pos n) × (n < two_127)
unfolding price
price-pos a b = elim (Option-cases (checked_mul (pos b) scale)) [
  | inl over ↦ (0, (rw (price, over) refl), omega arith)
  | inr (v, scaled) ↦
      let (is_v, small) = checked_mul-pos b 100_000_000_000_000 scaled in
      elim (Option-cases (checked_div v (pos a))) [
        | inl over ↦ (0, (rw (price, scaled, over) refl), omega arith)
        | inr (q, divided) ↦
            let here = subst (λ u. checked_div u (pos a) ≡ some q) is_v divided in
            let (is_q, some_a) = checked_div-pos (b * 100_000_000_000_000) a here in
            let n = b * 100_000_000_000_000 in
            let bound : n / a ≤ n = div_le n a some_a in
            (n / a, (rw (price, scaled, divided) is_q), omega arith)
      ]
]

pub checked_sub_fits :
    (a b : ℕ) → b ≤ a → a < two_127 → checked_sub (pos a) (pos b) ≡ some (pos (a - b))
unfolding checked_sub
checked_sub_fits a b h k = ground arith

-- The difference of two prices fits.
difference-ok :
    (a b : ℕ)
    → a < two_127
    → b < two_127
    → (d : ℤ) × (unwrap {E = PairError} (
          if ltb_ℤ (pos a) (pos b)
          then checked_sub (pos b) (pos a)
          else checked_sub (pos a) (pos b))
        ≡ ok d)
difference-ok a b ha hb = elim (Bool-cases (ltb a b)) [
  | inl above ↦ (pos (b - a), (rw (above, checked_sub_fits b a (ground arith) hb) refl))
  | inr below ↦ (pos (a - b), (rw (below, checked_sub_fits a b (ground arith) ha) refl))
]

-- So tracking the volatility of a pair with reserves ends with a value.
pub track_volatility-ok :
    (env : Env) (before : PairStorage) (ra rb na nb : ℕ) (size : ℤ) (fs : FeeState)
    → before.reserve_a ≡ pos ra
    → before.reserve_b ≡ pos rb
    → (fs' : FeeState) × (track_volatility env before (pos na) (pos nb) size fs ≡ ok fs')
unfolding track_volatility saturating_add
track_volatility-ok env before ra rb na nb size fs ea eb =
    let (p0, e0, s0) = price-pos ra rb in
    let (p1, e1, s1) = price-pos na nb in
    let (d, delta) = difference-ok p0 p1 s0 s1 in
    elim (Bool-cases (ltb 0 ra && ltb 0 rb && ltb 0 na && ltb 0 nb)) [
      | inl full ↦
          let total = saturating_add (pos na) (pos nb) in
          let (fs', done) =
            ignore_error-ok fs (update_volatility env fs d size total)
              (update_volatility-Ends env fs d size total) in
          (fs', (rw (ea, eb, full, e0, e1, delta) done))
      | inr empty ↦ (fs, (rw (ea, eb, empty) refl))
    ]
