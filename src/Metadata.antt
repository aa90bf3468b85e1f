-- ===== src/Metadata.antt =====
-- The name and the symbol of an LP token (contracts/shared/src/lib.rs, `derive_lp_metadata`), as
-- lists of ASCII codes.
pub mod Hex
mod Tests
use coralswap_core.Prelude.{
  List, [], get_elem?, if◌then◌else◌, ltb, none, some, suc, zero, ℕ, ◌%◌, ◌++◌, ◌/◌, ◌∷◌,
}
use coralswap_core.Env.{Address}
use coralswap_core.Host.{Crypto}

abbrev pub hex_digits : List ℕ
hex_digits = 48 ∷ 49 ∷ 50 ∷ 51 ∷ 52 ∷ 53 ∷ 54 ∷ 55 ∷ 56 ∷ 57 ∷ 65 ∷ 66 ∷ 67 ∷ 68 ∷ 69 ∷ 70 ∷ []

-- "CORAL-SWAP-LP-"
abbrev pub lp_name_prefix : List ℕ
lp_name_prefix = 67 ∷ 79 ∷ 82 ∷ 65 ∷ 76 ∷ 45 ∷ 83 ∷ 87 ∷ 65 ∷ 80 ∷ 45 ∷ 76 ∷ 80 ∷ 45 ∷ []

-- "CLP-"
abbrev pub lp_symbol_prefix : List ℕ
lp_symbol_prefix = 67 ∷ 76 ∷ 80 ∷ 45 ∷ []

-- `HEX_DIGITS[n]`, for a half of a byte.
unfoldable pub hex_digit : ℕ → ℕ
hex_digit n = elim (get_elem? hex_digits n) [ none ↦ 0 | some c ↦ c ]

-- The loop over the first bytes of the hash, which has 32.
unfoldable pub hex_bytes : ℕ → List ℕ → List ℕ
unfolding hex_digit
hex_bytes zero hash = []
hex_bytes (suc k) [] = []
hex_bytes (suc k) (byte ∷ hash) = hex_digit (byte / 16) ∷ hex_digit (byte % 16) ∷ hex_bytes k hash

module _ (crypto : Crypto) where
  -- The hash of the two addresses in order.
  abbrev pub pair_hash : Address → Address → List ℕ
  pair_hash token_a token_b =
      if ltb token_a token_b
      then crypto.sha256 (crypto.to_xdr token_a ++ crypto.to_xdr token_b)
      else crypto.sha256 (crypto.to_xdr token_b ++ crypto.to_xdr token_a)

  -- Both texts are ASCII, so that the defaults of the source for other bytes do not come up.
  unfoldable pub derive_lp_metadata : Address → Address → List ℕ × List ℕ
  unfolding hex_bytes
  derive_lp_metadata token_a token_b =
      let hex = hex_bytes 4 (pair_hash token_a token_b) in
      (lp_name_prefix ++ hex, lp_symbol_prefix ++ hex)
