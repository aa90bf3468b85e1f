-- ===== src/LpToken/Permit.antt =====
-- `LpToken::permit`, an approval by signature, over the host's cryptography.
use coralswap_core.Prelude.{
  List, [], if◌then◌else◌, leb, length, ltb, some, suc, zero, ℕ, ◌++◌, ◌+◌, ◌==◌, ◌^◌, ◌∷◌,
}
use coralswap_core.Env.{Address, Env}
use coralswap_core.Host.{Crypto, be_bytes, bits_i128}
use coralswap_core.Int.{ℤ}
use coralswap_core.LpToken.{LpToken, LpTokenError, set_allowance}
use coralswap_core.Outcome.{Outcome, ok, raise_if, require, ◌>>◌}

abbrev pub take : ℕ → List ℕ → List ℕ
take zero xs = []
take (suc n) [] = []
take (suc n) (x ∷ xs) = x ∷ take n xs

module _ (crypto : Crypto) where
  unfoldable pub permit_message : Address → Address → ℤ → ℕ → ℕ → List ℕ
  permit_message owner spender amount nonce deadline =
      crypto.to_xdr owner
      ++ (crypto.to_xdr spender
          ++ (be_bytes 16 (bits_i128 amount) ++ (be_bytes 8 nonce ++ be_bytes 4 deadline)))

  abbrev pub permit_digest : Address → Address → ℤ → ℕ → ℕ → List ℕ
  permit_digest owner spender amount nonce deadline =
      crypto.sha256 (permit_message owner spender amount nonce deadline)

  -- The public key is the first 32 bytes of the owner's XDR; a shorter text traps in `slice`, a
  -- signature that does not fit in `ed25519_verify`.
  unfoldable pub permit :
      Env → Address → Address → ℤ → ℕ → List ℕ → LpToken → Outcome LpTokenError LpToken
  permit env owner spender amount deadline signature t = do
    raise_if (ltb deadline env.sequence) LpTokenError.permit_expired
    let nonce = t.nonces owner
    let digest = permit_digest owner spender amount nonce deadline
    require (leb 32 (length (crypto.to_xdr owner)))
    require (crypto.ed25519_verify (take 32 (crypto.to_xdr owner)) digest signature)
    require (ltb (nonce + 1) (2 ^ 64))
    let approved =
        set_allowance owner spender
          (some (record { amount = amount; expiration_ledger = deadline })) t
    ok (record approved { nonces = λ o. if o == owner then nonce + 1 else t.nonces o })
