-- ===== src/Int/Laws.antt =====
-- What the checked operations give when they succeed.
use coralswap_core.Prelude.{arith, false, refl, some, suc, true, ℕ, ◌*◌, ◌+◌, ◌/◌, ◌<◌, ◌≡◌}
use coralswap_core.Int.{
  checked, checked_add, checked_div, checked_mul, checked_sub, eq_ℤ, leb_ℤ, ltb_ℤ, negsuc, pos,
  two_127, ℤ, ◌*ℤ◌, ◌+ℤ◌, ◌-ℤ◌,
}

pub checked_mul-pos :
    (a b : ℕ) {c : ℤ} → checked_mul (pos a) (pos b) ≡ some c → (c ≡ pos (a * b)) × (a * b < two_127)
unfolding checked_mul
checked_mul-pos a b h = ground arith

pub checked_add-pos :
    (a b : ℕ) {c : ℤ} → checked_add (pos a) (pos b) ≡ some c → (c ≡ pos (a + b)) × (a + b < two_127)
unfolding checked_add
checked_add-pos a b h = ground arith

pub checked_div-pos :
    (a b : ℕ) {c : ℤ} → checked_div (pos a) (pos b) ≡ some c → (c ≡ pos (a / b)) × (0 < b)
unfolding checked_div
checked_div-pos a b h = ground arith

pub pos_of_nonneg : (z : ℤ) → leb_ℤ (pos 0) z ≡ true → (n : ℕ) × (z ≡ pos n)
pos_of_nonneg (pos n) h = (n, refl)
pos_of_nonneg (negsuc n) h = cc

abbrev pub pos_part : ℤ → ℕ
pos_part (pos n) = n
pos_part (negsuc n) = 0

abbrev pub neg_part : ℤ → ℕ
neg_part (pos n) = 0
neg_part (negsuc n) = suc n

-- With these `omega` works on sums and differences that stay shut.
pub +ℤ_parts :
    (a b : ℤ)
    → pos_part (a +ℤ b) + neg_part a + neg_part b ≡ neg_part (a +ℤ b) + pos_part a + pos_part b
unfolding ◌+ℤ◌
+ℤ_parts (pos a) (pos b) = ground arith
+ℤ_parts (pos a) (negsuc b) = ground arith
+ℤ_parts (negsuc a) (pos b) = ground arith
+ℤ_parts (negsuc a) (negsuc b) = ground arith

pub -ℤ_parts :
    (a b : ℤ)
    → pos_part (a -ℤ b) + neg_part a + pos_part b ≡ neg_part (a -ℤ b) + pos_part a + neg_part b
unfolding ◌-ℤ◌
-ℤ_parts (pos a) (pos b) = ground arith
-ℤ_parts (pos a) (negsuc b) = ground arith
-ℤ_parts (negsuc a) (pos b) = ground arith
-ℤ_parts (negsuc a) (negsuc b) = ground arith

pub eq_of_parts : (a b : ℤ) → pos_part a + neg_part b ≡ pos_part b + neg_part a → a ≡ b
eq_of_parts (pos a) (pos b) h = ground arith
eq_of_parts (pos a) (negsuc b) h = ground arith
eq_of_parts (negsuc a) (pos b) h = ground arith
eq_of_parts (negsuc a) (negsuc b) h = ground arith

pub ruleset int_laws = (arith, +ℤ_parts, -ℤ_parts, eq_of_parts)

-- A checked operation that succeeds gives the exact result.
pub checked_add-eq-some : (a b : ℤ) {c : ℤ} → checked_add a b ≡ some c → c ≡ a +ℤ b
unfolding checked_add
checked_add-eq-some a b h = ground arith

pub checked_sub-eq-some : (a b : ℤ) {c : ℤ} → checked_sub a b ≡ some c → c ≡ a -ℤ b
unfolding checked_sub
checked_sub-eq-some a b h = ground arith

pub eq_ℤ→eq : (a b : ℤ) → eq_ℤ a b ≡ true → a ≡ b
eq_ℤ→eq (pos a) (pos b) h = ground arith
eq_ℤ→eq (pos a) (negsuc b) h = cc
eq_ℤ→eq (negsuc a) (pos b) h = cc
eq_ℤ→eq (negsuc a) (negsuc b) h = ground arith

-- The checked operations over the exact ones, which stay shut.
pub checked_add_lem : (a b : ℤ) → checked_add a b ≡ checked (a +ℤ b)
unfolding checked_add
checked_add_lem a b = refl

pub checked_sub_lem : (a b : ℤ) → checked_sub a b ≡ checked (a -ℤ b)
unfolding checked_sub
checked_sub_lem a b = refl

pub not_ltb_ℤ : (a b : ℤ) → ltb_ℤ a b ≡ false → leb_ℤ b a ≡ true
not_ltb_ℤ (pos a) (pos b) h = ground arith
not_ltb_ℤ (pos a) (negsuc b) h = refl
not_ltb_ℤ (negsuc a) (pos b) h = cc
not_ltb_ℤ (negsuc a) (negsuc b) h = ground arith

pub checked_mul_lem : (a b : ℤ) → checked_mul a b ≡ checked (a *ℤ b)
unfolding checked_mul
checked_mul_lem a b = refl

pub checked_mul-eq-some : (a b : ℤ) {c : ℤ} → checked_mul a b ≡ some c → c ≡ a *ℤ b
checked_mul-eq-some a b h = ground (arith, checked_mul_lem a b)
