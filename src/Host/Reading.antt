-- ===== src/Host/Reading.antt =====
-- Messages that are read back from their front.
use coralswap_core.Prelude.{List, sym, true, ℕ, ◌++◌, ◌<◌, ◌^◌, ◌∙◌, ◌≡◌}
use coralswap_core.Env.{Address}
use coralswap_core.Host.{Crypto, be_bytes, bits_i128}
use coralswap_core.Host.Encoding.{
  be_bytes_injective, bits_i128-lt, bits_i128_injective, length-be_bytes, split,
}
use coralswap_core.Int.{fits, ℤ}

-- The XDR bytes of an address end where their length says, so that they can be read back from the
-- front of a message.
abbrev pub IsSelfDelimiting : Crypto → Type 0
IsSelfDelimiting crypto =
    (a b : Address) (xs ys : List ℕ)
    → crypto.to_xdr a ++ xs ≡ crypto.to_xdr b ++ ys
    → (a ≡ b) × (xs ≡ ys)

pub number-read :
    (k m n : ℕ) {xs ys : List ℕ}
    → m < 256 ^ k
    → n < 256 ^ k
    → be_bytes k m ++ xs ≡ be_bytes k n ++ ys
    → (m ≡ n) × (xs ≡ ys)
number-read k m n hm hn h =
    let (bytes, rest) =
      split (be_bytes k m) (be_bytes k n) (length-be_bytes k m ∙ sym (length-be_bytes k n)) h in
    (be_bytes_injective k m n hm hn bytes, rest)

pub amount-read :
    (x y : ℤ) {xs ys : List ℕ}
    → fits x ≡ true
    → fits y ≡ true
    → be_bytes 16 (bits_i128 x) ++ xs ≡ be_bytes 16 (bits_i128 y) ++ ys
    → (x ≡ y) × (xs ≡ ys)
amount-read x y hx hy h =
    let (bits, rest) =
      number-read 16 (bits_i128 x) (bits_i128 y) (bits_i128-lt x hx) (bits_i128-lt y hy) h in
    (bits_i128_injective x y hx hy bits, rest)
