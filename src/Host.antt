-- ===== src/Host.antt =====
-- What the host's cryptography gives, and the bytes that the contracts hand to it.
pub mod Encoding
pub mod Reading
use coralswap_core.Prelude.{Bool, List, [], suc, zero, ℕ, ◌%◌, ◌++◌, ◌-◌, ◌/◌, ◌^◌, ◌∷◌}
use coralswap_core.Env.{Address}
use coralswap_core.Int.{negsuc, pos, ℤ}

-- What the host gives: the XDR bytes of an address, SHA-256, and the test whether a signature fits a
-- public key and a message.
pub record Crypto : Type 0 where
  pub to_xdr : Address → List ℕ
  pub sha256 : List ℕ → List ℕ
  pub ed25519_verify : List ℕ → List ℕ → List ℕ → Bool

-- `to_be_bytes` of a number of `k` bytes
abbrev pub be_bytes : ℕ → ℕ → List ℕ
be_bytes zero n = []
be_bytes (suc k) n = be_bytes k (n / 256) ++ (n % 256) ∷ []

-- The two's complement of an `i128`
abbrev pub bits_i128 : ℤ → ℕ
bits_i128 (pos n) = n
bits_i128 (negsuc n) = 2 ^ 128 - 1 - n
