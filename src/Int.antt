-- ===== src/Int.antt =====
-- Signed integers, and Rust's `i128` operations on them: checked, saturating and wrapping.
-- A value of type `i128` is an integer in [-2^127, 2^127 - 1]; `u128`, `u64` and `u32` values are
-- natural numbers, with their bounds written where an operation can pass them.
pub mod Laws
use coralswap_core.Prelude.{
  Bool, Option, false, if◌then◌else◌, leb, ltb, none, some, suc, true, ℕ, ◌%◌, ◌*◌, ◌+◌, ◌-◌, ◌/◌,
  ◌==◌, ◌^◌,
}

-- `negsuc n` is -(n + 1).
pub data ℤ : Type 0 where
  pos : ℕ → ℤ
  negsuc : ℕ → ℤ

-- - n
abbrev pub neg_ℕ : ℕ → ℤ
neg_ℕ n = if n == 0 then pos 0 else negsuc (n - 1)

-- a - b
abbrev pub sub_ℕ : ℕ → ℕ → ℤ
sub_ℕ a b = if leb b a then pos (a - b) else negsuc (b - a - 1)

abbrev pub ltb_ℤ : ℤ → ℤ → Bool
ltb_ℤ (pos a) (pos b) = ltb a b
ltb_ℤ (pos a) (negsuc b) = false
ltb_ℤ (negsuc a) (pos b) = true
ltb_ℤ (negsuc a) (negsuc b) = ltb b a

abbrev pub leb_ℤ : ℤ → ℤ → Bool
leb_ℤ (pos a) (pos b) = leb a b
leb_ℤ (pos a) (negsuc b) = false
leb_ℤ (negsuc a) (pos b) = true
leb_ℤ (negsuc a) (negsuc b) = leb b a

abbrev pub eq_ℤ : ℤ → ℤ → Bool
eq_ℤ (pos a) (pos b) = a == b
eq_ℤ (pos a) (negsuc b) = false
eq_ℤ (negsuc a) (pos b) = false
eq_ℤ (negsuc a) (negsuc b) = a == b

abbrev pub min_ℤ : ℤ → ℤ → ℤ
min_ℤ a b = if leb_ℤ a b then a else b

abbrev pub max_ℤ : ℤ → ℤ → ℤ
max_ℤ a b = if leb_ℤ a b then b else a

-- `unsigned_abs`
abbrev pub abs : ℤ → ℕ
abs (pos a) = a
abs (negsuc a) = suc a

abbrev pub neg : ℤ → ℤ
neg (pos a) = neg_ℕ a
neg (negsuc a) = pos (suc a)

infixl 65 ◌+ℤ◌ ◌-ℤ◌
infixl 70 ◌*ℤ◌
unfoldable pub ◌+ℤ◌ : ℤ → ℤ → ℤ
pos a +ℤ pos b = pos (a + b)
pos a +ℤ negsuc b = sub_ℕ a (suc b)
negsuc a +ℤ pos b = sub_ℕ b (suc a)
negsuc a +ℤ negsuc b = negsuc (a + b + 1)

unfoldable pub ◌-ℤ◌ : ℤ → ℤ → ℤ
pos a -ℤ pos b = sub_ℕ a b
pos a -ℤ negsuc b = pos (a + suc b)
negsuc a -ℤ pos b = negsuc (a + b)
negsuc a -ℤ negsuc b = sub_ℕ b a

unfoldable pub ◌*ℤ◌ : ℤ → ℤ → ℤ
pos a *ℤ pos b = pos (a * b)
pos a *ℤ negsuc b = neg_ℕ (a * suc b)
negsuc a *ℤ pos b = neg_ℕ (suc a * b)
negsuc a *ℤ negsuc b = pos (suc a * suc b)

-- Division that truncates towards zero; the divisor is not zero.
unfoldable pub quot : ℤ → ℤ → ℤ
quot (pos a) (pos b) = pos (a / b)
quot (pos a) (negsuc b) = neg_ℕ (a / suc b)
quot (negsuc a) (pos b) = neg_ℕ (suc a / b)
quot (negsuc a) (negsuc b) = pos (suc a / suc b)

abbrev pub two_127 : ℕ
two_127 = 2 ^ 127

abbrev pub i128_max : ℤ
i128_max = pos (2 ^ 127 - 1)

abbrev pub i128_min : ℤ
i128_min = negsuc (2 ^ 127 - 1)

-- Whether an integer is an `i128`.
abbrev pub fits : ℤ → Bool
fits (pos a) = ltb a two_127
fits (negsuc a) = ltb a two_127

abbrev pub checked : ℤ → Option ℤ
checked z = if fits z then some z else none

unfoldable pub checked_add : ℤ → ℤ → Option ℤ
unfolding ◌+ℤ◌
checked_add a b = checked (a +ℤ b)

unfoldable pub checked_sub : ℤ → ℤ → Option ℤ
unfolding ◌-ℤ◌
checked_sub a b = checked (a -ℤ b)

unfoldable pub checked_mul : ℤ → ℤ → Option ℤ
unfolding ◌*ℤ◌
checked_mul a b = checked (a *ℤ b)

-- `none` for a zero divisor, and for `i128::MIN / -1`, which does not fit.
unfoldable pub checked_div : ℤ → ℤ → Option ℤ
unfolding quot
checked_div a b = if eq_ℤ b (pos 0) then none else checked (quot a b)

abbrev pub saturate : ℤ → ℤ
saturate (pos a) = if ltb a two_127 then pos a else i128_max
saturate (negsuc a) = if ltb a two_127 then negsuc a else i128_min

unfoldable pub saturating_add : ℤ → ℤ → ℤ
unfolding ◌+ℤ◌
saturating_add a b = saturate (a +ℤ b)

unfoldable pub saturating_sub : ℤ → ℤ → ℤ
unfolding ◌-ℤ◌
saturating_sub a b = saturate (a -ℤ b)

unfoldable pub saturating_mul : ℤ → ℤ → ℤ
unfolding ◌*ℤ◌
saturating_mul a b = saturate (a *ℤ b)

-- The `i128` with the same low 128 bits.
unfoldable pub wrap : ℤ → ℤ
wrap (pos a) = let r = a % 2 ^ 128 in if ltb r two_127 then pos r else negsuc (2 ^ 128 - r - 1)
wrap (negsuc a) = let r = a % 2 ^ 128 in if ltb r two_127 then negsuc r else pos (2 ^ 128 - r - 1)

unfoldable pub wrapping_add : ℤ → ℤ → ℤ
unfolding ◌+ℤ◌ wrap
wrapping_add a b = wrap (a +ℤ b)

unfoldable pub wrapping_sub : ℤ → ℤ → ℤ
unfolding ◌-ℤ◌ wrap
wrapping_sub a b = wrap (a -ℤ b)

unfoldable pub wrapping_mul : ℤ → ℤ → ℤ
unfolding ◌*ℤ◌ wrap
wrapping_mul a b = wrap (a *ℤ b)
