-- ===== src/Prelude/Arith.antt =====
-- Facts on products and quotients of natural numbers that the components share.
use Prim.Native.Nat.{ℕ, ◌+◌, ◌-◌, ◌*◌, ◌/◌, ◌≤◌, ◌<◌}
use mathlib.Core.Path.{◌≡◌, ap}
use native.Mathlib.Omega.{arith}

pub mul_mono : (a b c d : ℕ) → a ≤ b → c ≤ d → a * c ≤ b * d
mul_mono a b c d h k = grind arith

pub mul_mono_lt : (a b c : ℕ) → a < b → 0 < c → a * c < b * c
mul_mono_lt a b c h k = grind arith

-- The quotient as the largest factor.
pub div-mul-le : (n d : ℕ) → n / d * d ≤ n
div-mul-le n d = omega arith

pub lt-div-mul : (n d : ℕ) → 0 < d → n < (n / d + 1) * d
lt-div-mul n d h = omega arith

pub le-div_of_mul : (q n d : ℕ) → 0 < d → q * d ≤ n → q ≤ n / d
le-div_of_mul q n d h k = grind arith

pub mul-lt_cancel : (a b c : ℕ) → a * c < b * c → a < b
mul-lt_cancel a b c h = grind arith

pub mul_pos : (a b : ℕ) → 0 < a → 0 < b → 0 < a * b
mul_pos a b h k = grind arith

pub div_self : (v : ℕ) → 0 < v → v / v ≡ 1
div_self v h =
    let low = le-div_of_mul 1 v v h (omega arith) in
    let high = mul-lt_cancel (v / v) 2 v (omega (arith, div-mul-le v v)) in omega arith

pub div_le : (n d : ℕ) → 0 < d → n / d ≤ n
div_le n d h =
    let more = mul_mono (n / d) (n / d) 1 d (omega arith) h in omega (arith, div-mul-le n d)

-- A quotient and its remainder in one place: `q = n / d` satisfies both bounds.
pub div_bounds : (n d : ℕ) → 0 < d → (n / d * d ≤ n) × (n < n / d * d + d)
div_bounds n d h = omega arith

pub mul-le_cancel : (a b c : ℕ) → 0 < c → a * c ≤ b * c → a ≤ b
mul-le_cancel a b c h k = let below = mul-lt_cancel a (b + 1) c (omega arith) in omega arith

pub mul_sub : (r s l : ℕ) → l ≤ s → r * (s - l) + r * l ≡ r * s
mul_sub r s l h = let e : s ≡ l + (s - l) = omega arith in omega (arith, ap (λ (t : ℕ). r * t) e)
