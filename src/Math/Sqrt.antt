-- ===== src/Math/Sqrt.antt =====
-- Newton's iteration is the integer square root.
use coralswap_core.Prelude.{
  Bool-cases, arith, dec_le, div-mul-le, div_self, inl, inr, le-div_of_mul, le_refl, lt-div-mul,
  ltb, ltb→lt, mul_mono, refl, some, subst, suc, sym, zero, ℕ, ◌*◌, ◌+◌, ◌-◌, ◌/◌, ◌<◌, ◌^◌, ◌≡◌,
  ◌≤◌,
}
use coralswap_core.Int.{pos}
use coralswap_core.Math.{newton, sqrt}
use coralswap_core.Outcome.{ok}

abbrev pub IsRoot : ℕ → ℕ → Type 0
IsRoot v r = (r * r ≤ v) × (v < (r + 1) * (r + 1))

-- 4 a b ≤ (a + b)^2
amgm_step : (a t : ℕ) → 4 * (a * (a + t)) ≤ (a + (a + t)) * (a + (a + t))
amgm_step a t = omega arith

amgm : (a b : ℕ) → 4 * (a * b) ≤ (a + b) * (a + b)
amgm a b = elim (dec_le a b) [
  | yes h ↦
      let e : b ≡ a + (b - a) = omega arith in
      subst (λ k. 4 * (a * k) ≤ (a + k) * (a + k)) (sym e) (amgm_step a (b - a))
  | no h ↦
      let e : a ≡ b + (a - b) = omega arith in
      subst (λ k. 4 * (k * b) ≤ (k + b) * (k + b)) (sym e) (omega (arith, amgm_step b (a - b)))
]

-- A Newton step from `x` stays above the root.
newton_step : (v x : ℕ) → 0 < x → v < ((x + v / x) / 2 + 1) * ((x + v / x) / 2 + 1)
newton_step v x h =
    let q = v / x in
    let y = (x + q) / 2 + 1 in
    let product = amgm x (q + 1) in
    let above : v < (q + 1) * x = lt-div-mul v x h in
    let square = mul_mono (x + (q + 1)) (2 * y) (x + (q + 1)) (2 * y) (omega arith) (omega arith) in
    omega arith

-- Where the iteration stops it stands at or below the root.
newton_stop : (v x : ℕ) → 0 < x → x ≤ (x + v / x) / 2 → x * x ≤ v
newton_stop v x h k =
    let q = v / x in
    let below : q * x ≤ v = div-mul-le v x in
    let square = mul_mono x q x x (omega arith) (le_refl x) in omega arith

newton_pos : (v x : ℕ) → 0 < v → 0 < x → x ≤ v → 0 < (x + v / x) / 2
newton_pos v x hv hx h = let q : 1 ≤ v / x = le-div_of_mul 1 v x hx (omega arith) in omega arith

-- From an `x` above the root the loop ends, in at most `x` rounds, at the root.
newton-IsRoot :
    (fuel v x y : ℕ)
    → 0 < v
    → 0 < x
    → x ≤ v
    → x ≤ fuel
    → v < (x + 1) * (x + 1)
    → y ≡ (x + v / x) / 2
    → (r : ℕ) × (newton fuel v x y ≡ some r) × IsRoot v r
unfolding newton
newton-IsRoot zero v x y hv hx hxv hf above e = absurd (omega arith)
newton-IsRoot (suc fuel) v x y hv hx hxv hf above e = elim (Bool-cases (ltb y x)) [
  | inl more ↦ rw more (
      newton-IsRoot fuel v y ((y + v / y) / 2) hv (rw e (newton_pos v x hv hx hxv))
        (omega (arith, ltb→lt y x more)) (omega (arith, ltb→lt y x more))
        (rw e (newton_step v x hx)) refl)
  | inr done ↦ (x, rw done, (newton_stop v x hx (rw (← e) (ground arith)), above))
]

-- Both square roots start the loop at the amount itself, with the amount for fuel.
pub newton_start-IsRoot :
    (v : ℕ) → 0 < v → (r : ℕ) × (newton v v v ((v + 1) / 2) ≡ some r) × IsRoot v r
newton_start-IsRoot v h =
    newton-IsRoot v v v ((v + 1) / 2) h h (le_refl v) (le_refl v) (grind arith)
      (rw (div_self v h) refl)

-- The root of a non-negative amount below `i128::MAX` exists, with no trap, and is the largest
-- number whose square is at most the amount. At `i128::MAX` the sum `x + 1` panics.
pub sqrt-IsRoot :
    {E : Type 0} (v : ℕ)
    → v < 2 ^ 127 - 1
    → (r : ℕ) × (sqrt {E = E} (pos v) ≡ ok (pos r)) × IsRoot v r
unfolding sqrt
sqrt-IsRoot zero h = (0, refl, (omega arith, omega arith))
sqrt-IsRoot (suc n) h =
    let (r, e, p) = newton_start-IsRoot (suc n) (omega arith) in (r, ground arith, p)
