-- ===== src/Host/Encoding.antt =====
-- The byte encodings that the contracts hash can be read back.
use native.Mathlib.Nat.{pow-succ'}
use coralswap_core.Prelude.{
  List, [], ap, arith, length, refl, suc, sym, true, zero, ℕ, ◌%◌, ◌++◌, ◌/◌, ◌<◌, ◌^◌, ◌∙◌, ◌∷◌,
  ◌≡◌,
}
use coralswap_core.Host.{be_bytes, bits_i128}
use coralswap_core.Int.{fits, negsuc, pos, ℤ}

cons-injective : {x y : ℕ} {xs ys : List ℕ} → x ∷ xs ≡ y ∷ ys → (x ≡ y) × (xs ≡ ys)
cons-injective h = (cc, cc)

-- Equal bytes after prefixes of the same length come from equal parts.
pub split :
    (a b : List ℕ) {xs ys : List ℕ} → length a ≡ length b → a ++ xs ≡ b ++ ys → (a ≡ b) × (xs ≡ ys)
split [] [] e h = (refl, h)
split [] (y ∷ b) e h = absurd (omega arith)
split (x ∷ a) [] e h = absurd (omega arith)
split (x ∷ a) (y ∷ b) e h =
    let (first, rest) = cons-injective h in
    let (same, later) = split a b (omega arith) rest in (cc, later)

length-snoc : (a : List ℕ) (x : ℕ) → length (a ++ x ∷ []) ≡ suc (length a)
length-snoc [] x = refl
length-snoc (y ∷ a) x = ap suc (length-snoc a x)

pub length-be_bytes : (k n : ℕ) → length (be_bytes k n) ≡ k
length-be_bytes zero n = refl
length-be_bytes (suc k) n =
    length-snoc (be_bytes k (n / 256)) (n % 256) ∙ ap suc (length-be_bytes k (n / 256))

pub be_bytes_injective :
    (k m n : ℕ) → m < 256 ^ k → n < 256 ^ k → be_bytes k m ≡ be_bytes k n → m ≡ n
be_bytes_injective zero m n hm hn h = omega arith
be_bytes_injective (suc k) m n hm hn h =
    let high = length-be_bytes k (m / 256) ∙ sym (length-be_bytes k (n / 256)) in
    let (front, last) = split (be_bytes k (m / 256)) (be_bytes k (n / 256)) high h in
    let low : m % 256 ≡ n % 256 = (cons-injective last).0 in
    let step = pow-succ' 256 k in
    let same = be_bytes_injective k (m / 256) (n / 256) (omega arith) (omega arith) front in
    omega arith

pub bits_i128_injective :
    (a b : ℤ) → fits a ≡ true → fits b ≡ true → bits_i128 a ≡ bits_i128 b → a ≡ b
bits_i128_injective (pos a) (pos b) ha hb h = ap pos h
bits_i128_injective (pos a) (negsuc b) ha hb h = absurd (ground arith)
bits_i128_injective (negsuc a) (pos b) ha hb h = absurd (ground arith)
bits_i128_injective (negsuc a) (negsuc b) ha hb h = ap negsuc (ground arith)

pub bits_i128-lt : (a : ℤ) → fits a ≡ true → bits_i128 a < 256 ^ 16
bits_i128-lt (pos a) h = ground arith
bits_i128-lt (negsuc a) h = ground arith
