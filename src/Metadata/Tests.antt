-- ===== src/Metadata/Tests.antt =====
-- Tests and witnesses of the metadata.
use coralswap_core.Prelude.{List, [], arith, length, refl, suc, true, zero, ℕ, ◌++◌, ◌∷◌, ◌≡◌}
use coralswap_core.Host.{Crypto}
use coralswap_core.Metadata.{derive_lp_metadata, lp_name_prefix, lp_symbol_prefix, pair_hash}
use coralswap_core.Metadata.Hex.{AllBytes, IsDigest, derive_lp_metadata_lem, first_bytes, read_hex}

abbrev repeated : ℕ → List ℕ
repeated zero = []
repeated (suc n) = 171 ∷ repeated n

abbrev digest_crypto : Crypto
digest_crypto = record {
  to_xdr = λ a. a ∷ [];
  sha256 = λ m. repeated 32;
  ed25519_verify = λ key message signature. true;
}

repeated-AllBytes : (n : ℕ) → AllBytes (repeated n)
repeated-AllBytes zero = AllBytes.no_bytes
repeated-AllBytes (suc n) = AllBytes.one_more 171 (repeated n) (omega arith) (repeated-AllBytes n)

digest_crypto-IsDigest : IsDigest digest_crypto
digest_crypto-IsDigest = record { size = λ m. refl; bytes = λ m. repeated-AllBytes 32 }

derive_lp_metadata_lem_example :
    (derive_lp_metadata digest_crypto 1 2 ≡ derive_lp_metadata digest_crypto 2 1)
    × (length (derive_lp_metadata digest_crypto 1 2).0 ≡ 22)
    × (length (derive_lp_metadata digest_crypto 1 2).1 ≡ 12)
    × (hex : List ℕ) × (derive_lp_metadata digest_crypto 1 2
        ≡ (lp_name_prefix ++ hex, lp_symbol_prefix ++ hex))
    × (read_hex hex ≡ first_bytes 4 (pair_hash digest_crypto 1 2))
derive_lp_metadata_lem_example = derive_lp_metadata_lem digest_crypto 1 2 digest_crypto-IsDigest
