-- ===== src/Router/Binding.antt =====
-- What a commit binds its sender to.
use coralswap_core.Prelude.{List, arith, min, true, ℕ, ◌<◌, ◌^◌, ◌≡◌}
use coralswap_core.Balances.{read}
use coralswap_core.Env.{Address}
use coralswap_core.Host.{Crypto}
use coralswap_core.Host.Reading.{IsSelfDelimiting, amount-read, number-read}
use coralswap_core.Int.{fits, ℤ}
use coralswap_core.Router.Commits.{swap_message}

-- The message that a commit hashes determines the swap: two messages of amounts within `i128` and
-- nonces within `u64` are the same only for the same sender, tokens, amounts, nonce and salt.
pub swap_message_injective :
    (crypto : Crypto) (sender sender' a a' b b' : Address) (x x' min min' : ℤ) (nonce nonce' : ℕ)
    (salt salt' : List ℕ)
    → IsSelfDelimiting crypto
    → fits x ≡ true
    → fits x' ≡ true
    → fits min ≡ true
    → fits min' ≡ true
    → nonce < 2 ^ 64
    → nonce' < 2 ^ 64
    → swap_message crypto sender a b x min nonce salt
      ≡ swap_message crypto sender' a' b' x' min' nonce' salt'
    → (sender ≡ sender')
      × (a ≡ a')
      × (b ≡ b')
      × (x ≡ x')
      × (min ≡ min')
      × (nonce ≡ nonce')
      × (salt ≡ salt')
unfolding swap_message
swap_message_injective crypto sender sender' a a' b b' x x' min min' nonce nonce' salt salt' read hx
      hx' hm hm' hn hn' h =
    let (same_sender, h1) = read sender sender' _ _ h in
    let (same_a, h2) = read a a' _ _ h1 in
    let (same_b, h3) = read b b' _ _ h2 in
    let (same_x, h4) = amount-read x x' hx hx' h3 in
    let (same_min, h5) = amount-read min min' hm hm' h4 in
    let (same_nonce, same_salt) = number-read 8 nonce nonce' (omega arith) (omega arith) h5 in
    (same_sender, same_a, same_b, same_x, same_min, same_nonce, same_salt)
