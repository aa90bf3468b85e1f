-- ===== src/U256.antt =====
-- `ethnum::U256` as the source uses it: a natural number below 2^256 with checked products and sums.
use coralswap_core.Prelude.{Option, if◌then◌else◌, ltb, none, some, ℕ, ◌*◌, ◌+◌, ◌^◌}

unfoldable pub u256_mul : ℕ → ℕ → Option ℕ
u256_mul a b = if ltb (a * b) (2 ^ 256) then some (a * b) else none

unfoldable pub u256_add : ℕ → ℕ → Option ℕ
u256_add a b = if ltb (a + b) (2 ^ 256) then some (a + b) else none
