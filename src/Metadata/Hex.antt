-- ===== src/Metadata/Hex.antt =====
-- The hexadecimal digits of an LP token's name can be read back.
use coralswap_core.Prelude.{
  ==_iff, Bool, Bool-cases, List, [], ap, arith, dec_lt, false, get_elem?, if◌then◌else◌, inl, inr,
  length, ltb, refl, some, subst, suc, true, zero, ℕ, ◌%◌, ◌&&◌, ◌*◌, ◌++◌, ◌+◌, ◌-◌, ◌/◌, ◌<◌,
  ◌==◌, ◌∙◌, ◌∷◌, ◌≡◌, ◌≤◌,
}
use coralswap_core.Env.{Address}
use coralswap_core.Host.{Crypto}
use coralswap_core.Metadata.{
  derive_lp_metadata, hex_bytes, hex_digit, hex_digits, lp_name_prefix, lp_symbol_prefix, pair_hash,
}

-- The value of a digit.
abbrev pub digit_value : ℕ → ℕ
digit_value c = if ltb c 65 then c - 48 else c - 55

-- The bytes that pairs of digits stand for.
abbrev pub read_hex : List ℕ → List ℕ
read_hex [] = []
read_hex (c ∷ []) = []
read_hex (c ∷ d ∷ cs) = (digit_value c * 16 + digit_value d) ∷ read_hex cs

abbrev pub first_bytes : ℕ → List ℕ → List ℕ
first_bytes zero bytes = []
first_bytes (suc k) [] = []
first_bytes (suc k) (byte ∷ bytes) = byte ∷ first_bytes k bytes

pub data AllBytes : List ℕ → Type 0 where
  no_bytes : AllBytes []
  one_more : (b : ℕ) (bs : List ℕ) → b < 256 → AllBytes bs → AllBytes (b ∷ bs)

-- What a hash of 32 bytes is.
pub record IsDigest (crypto : Crypto) : Type 0 where
  pub size : (m : List ℕ) → length (crypto.sha256 m) ≡ 32
  pub bytes : (m : List ℕ) → AllBytes (crypto.sha256 m)

-- Whether the digits of a list stand for the numbers from `i` on.
abbrev counts_up : ℕ → List ℕ → Bool
counts_up i [] = true
counts_up i (c ∷ cs) = digit_value c == i && counts_up (suc i) cs

digit_at :
    (i n : ℕ) (cs : List ℕ)
    → counts_up i cs ≡ true
    → n < length cs
    → (c : ℕ) × (get_elem? cs n ≡ some c) × (digit_value c ≡ i + n)
digit_at i n [] up h = absurd (omega arith)
digit_at i zero (c ∷ cs) up h =
    let first : (digit_value c == i) ≡ true = ground arith in
    let value = (==_iff (digit_value c) i).0 first in (c, refl, value ∙ (omega arith))
digit_at i (suc n) (c ∷ cs) up h =
    let rest : counts_up (suc i) cs ≡ true = ground arith in
    let (d, found, value) = digit_at (suc i) n cs rest (omega arith) in
    let shift : suc i + n ≡ i + suc n = omega arith in (d, found, value ∙ shift)

digit_value-hex_digit : (n : ℕ) → n < 16 → digit_value (hex_digit n) ≡ n
unfolding hex_digit
digit_value-hex_digit n h =
    let (c, found, value) = digit_at 0 n hex_digits refl h in
    let start : 0 + n ≡ n = omega arith in rw found (value ∙ start)

read_hex-hex_bytes :
    (k : ℕ) (bytes : List ℕ) → AllBytes bytes → read_hex (hex_bytes k bytes) ≡ first_bytes k bytes
unfolding hex_bytes
read_hex-hex_bytes zero bytes all = refl
read_hex-hex_bytes (suc k) bytes no_bytes = refl
read_hex-hex_bytes (suc k) bytes (one_more b bs small all) =
    let high = digit_value-hex_digit (b / 16) (omega arith) in
    let low = digit_value-hex_digit (b % 16) (omega arith) in
    let whole : b / 16 * 16 + b % 16 ≡ b = omega arith in
    let ih = read_hex-hex_bytes k bs all in rw (high, low, whole, ih) refl

length-hex_bytes : (k : ℕ) (bytes : List ℕ) → k ≤ length bytes → length (hex_bytes k bytes) ≡ k * 2
unfolding hex_bytes
length-hex_bytes zero bytes h = omega arith
length-hex_bytes (suc k) [] h = absurd (omega arith)
length-hex_bytes (suc k) (b ∷ bs) h = let ih = length-hex_bytes k bs (omega arith) in omega arith

pair_hash-sym : (crypto : Crypto) (a b : Address) → pair_hash crypto a b ≡ pair_hash crypto b a
pair_hash-sym crypto a b = elim (dec_lt a b) [
  | yes below ↦
      let ab : ltb a b ≡ true = ground arith in
      let ba : ltb b a ≡ false = ground arith in rw (ab, ba) refl
  | no not_below ↦ elim (dec_lt b a) [
    | yes above ↦
        let ab : ltb a b ≡ false = ground arith in
        let ba : ltb b a ≡ true = ground arith in rw (ab, ba) refl
    | no not_above ↦
        let same : a ≡ b = omega arith in
        subst (λ c. pair_hash crypto a c ≡ pair_hash crypto c a) same refl
  ]
]

pair_hash-IsDigest :
    (crypto : Crypto) (a b : Address)
    → IsDigest crypto
    → (length (pair_hash crypto a b) ≡ 32) × AllBytes (pair_hash crypto a b)
pair_hash-IsDigest crypto a b digest = elim (Bool-cases (ltb a b)) [
  | inl below ↦ (rw below (digest.size _, digest.bytes _))
  | inr above ↦ (rw above (digest.size _, digest.bytes _))
]

-- With a hash of 32 bytes: the name and the symbol of an LP token do not depend on the order of the
-- two tokens, they have 22 and 12 characters, and the digits that both end with are the first four
-- bytes of the hash, from which these bytes can be read back.
pub derive_lp_metadata_lem :
    (crypto : Crypto) (a b : Address)
    → IsDigest crypto
    → (derive_lp_metadata crypto a b ≡ derive_lp_metadata crypto b a)
      × (length (derive_lp_metadata crypto a b).0 ≡ 22)
      × (length (derive_lp_metadata crypto a b).1 ≡ 12)
      × (hex : List ℕ) × (derive_lp_metadata crypto a b
          ≡ (lp_name_prefix ++ hex, lp_symbol_prefix ++ hex))
      × (read_hex hex ≡ first_bytes 4 (pair_hash crypto a b))
unfolding derive_lp_metadata
derive_lp_metadata_lem crypto a b digest =
    let (size, bytes) = pair_hash-IsDigest crypto a b digest in
    let hash = pair_hash crypto a b in
    let eight = length-hex_bytes 4 hash (omega arith) in
    (
      ap (λ h. (lp_name_prefix ++ hex_bytes 4 h, lp_symbol_prefix ++ hex_bytes 4 h))
          (pair_hash-sym crypto a b),
      omega arith,
      omega arith,
      hex_bytes 4 hash,
      refl,
      read_hex-hex_bytes 4 hash bytes,
    )
