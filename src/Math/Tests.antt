-- ===== src/Math/Tests.antt =====
-- Witnesses of the theorems on the integer arithmetic.
use coralswap_core.Prelude.{arith, refl, ℕ, ◌*◌, ◌+◌, ◌-◌, ◌<◌, ◌≡◌, ◌≤◌}
use coralswap_core.Errors.{PairError}
use coralswap_core.Int.{pos}
use coralswap_core.Math.{
  compute_swap_in_for_single_side, discriminant, sqrt, sqrt_u256, swap_in_amount,
}
use coralswap_core.Math.Split.{swap_in_root}
use coralswap_core.Math.Sqrt.{IsRoot, sqrt-IsRoot}
use coralswap_core.Outcome.{ok}

sqrt-IsRoot_example :
    (r : ℕ) × (sqrt {E = PairError} (pos 1_000_003) ≡ ok (pos r)) × IsRoot 1_000_003 r
sqrt-IsRoot_example = sqrt-IsRoot {E = PairError} 1_000_003 (omega arith)

swap_in_root_example :
    (r : ℕ) × (n : ℕ) × (x : ℕ) × ((pos 3) ≡ pos r)
    × ((pos 5) ≡ pos n)
    × ((pos 1) ≡ pos x)
    × (0 < r)
    × (0 < n)
    × (30 < 10_000)
    × (let f = 10_000 - 30 in
        (f * (x * x) + r * (10_000 + f) * x ≤ 10_000 * r * n)
        × (10_000 * r * n < f * ((x + 1) * (x + 1)) + r * (10_000 + f) * (x + 1)))
    × (x ≤ n)
unfolding compute_swap_in_for_single_side swap_in_amount discriminant sqrt_u256
swap_in_root_example = swap_in_root (pos 3) (pos 5) 30 refl
