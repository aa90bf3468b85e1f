-- ===== src/LpToken/Transfers.antt =====
-- What transfers, mints, burns and allowances change, and what they leave alone.
use coralswap_core.LpToken
use coralswap_core.Prelude.{
  Bool-cases, arith, false, if◌then◌else◌, inl, inr, some, suc, true, ℕ, ◌+◌, ◌<◌, ◌==◌, ◌≡◌, ◌⊎◌,
}
use coralswap_core.Balances.{Balances, IsNodup, read, write}
use coralswap_core.Balances.Laws.{read-write, write-IsNodup}
use coralswap_core.Env.{Address, Env}
use coralswap_core.Int.{checked_sub, leb_ℤ, negsuc, pos, two_127, ℤ, ◌+ℤ◌, ◌-ℤ◌}
use coralswap_core.Int.Laws.{checked_add_lem, checked_sub_lem, int_laws, not_ltb_ℤ}
use coralswap_core.LpToken.{LpToken, max_mint_per_call, max_total_supply}
use coralswap_core.Outcome.{ok}

-- The balance of `a` after `amount` has gone from `from` to `to`.
abbrev pub moved : Address → Address → ℤ → LpToken → Address → ℤ
moved from to amount t a =
    if from == to
    then read a t.balances
    else if a == from
    then read a t.balances -ℤ amount
    else if a == to
    then read a t.balances +ℤ amount
    else read a t.balances

-- The two writes of a transfer, one after the other.
abbrev pub posted : Address → Address → ℤ → Balances → Balances
posted from to amount m =
    let debited = write from (read from m -ℤ amount) m in
    write to (read to debited +ℤ amount) debited

pub read-posted :
    (from to a : Address) (amount : ℤ) (t : LpToken)
    → IsNodup t.balances
    → read a (posted from to amount t.balances) ≡ moved from to amount t a
read-posted from to a amount t n =
    let v = read from t.balances -ℤ amount in
    let debited = write from v t.balances in
    let n1 = write-IsNodup from v t.balances n in
    grind (
      int_laws,
      read-write from to v t.balances n,
      read-write from a v t.balances n,
      read-write to a (read to debited +ℤ amount) debited n1,
    )

pub moved_none :
    (from to a : Address) (amount : ℤ) (t : LpToken)
    → amount ≡ pos 0
    → read a t.balances ≡ moved from to amount t a
moved_none from to a amount t e = grind int_laws

pub transfer_internal_lem :
    (from to : Address) (amount : ℤ) (t : LpToken) {t' : LpToken}
    → LpToken.transfer_internal from to amount t ≡ ok t'
    → (leb_ℤ (pos 0) amount ≡ true)
      × ((t' ≡ t) × (amount ≡ pos 0)
          ⊎ (t' ≡ record t { balances = posted from to amount t.balances })
            × (leb_ℤ amount (read from t.balances) ≡ true))
unfolding LpToken.transfer_internal
transfer_internal_lem from to (negsuc n) t h = cc
transfer_internal_lem from to (pos n) t h = elim (Bool-cases (n == 0)) [
  | inl e ↦ (ground arith, inl (ground arith))
  | inr e ↦ (
    ground arith,
    inr (
        ground (
          arith,
          checked_sub_lem (read from t.balances) (pos n),
          checked_add_lem (read to (write from (read from t.balances -ℤ pos n) t.balances)) (pos n),
          not_ltb_ℤ (read from t.balances) (pos n),
        )),
  )
]

-- A transfer needs the sender's authorization and an amount that is not negative; it moves the amount
-- from the sender to the receiver, changes no other balance, and keeps the supply. A transfer to
-- oneself changes nothing.
pub transfer_moves :
    (env : Env) (from to : Address) (amount : ℤ) (t : LpToken) {t' : LpToken}
    → IsNodup t.balances
    → LpToken.transfer env from to amount t ≡ ok t'
    → (env.authorized from ≡ true)
      × (leb_ℤ (pos 0) amount ≡ true)
      × ((a : Address) → read a t'.balances ≡ moved from to amount t a)
      × (t'.total_supply ≡ t.total_supply)
unfolding LpToken.transfer
transfer_moves env from to amount t {t'} n h =
    let inner : LpToken.transfer_internal from to amount t ≡ ok t' = ground arith in
    let (sign, effect) = transfer_internal_lem from to amount t inner in
    (
      ground arith,
      sign,
      λ a. ground (arith, effect, read-posted from to a amount t n, moved_none from to a amount t),
      ground (arith, effect),
    )

-- A mint that succeeds was authorized by the admin of an unpaused token, adds the amount to one
-- balance and to the supply, and respects both limits: 10^18 for a call and 10^27 for the supply.
pub mint_limits :
    (env : Env) (to : Address) (amount : ℤ) (t : LpToken) {t' : LpToken}
    → IsNodup t.balances
    → LpToken.mint env to amount t ≡ ok t'
    → ((admin : Address) × (t.admin ≡ some admin) × (env.authorized admin ≡ true))
      × (t.paused ≡ false)
      × ((a : Address)
          → read a t'.balances
            ≡ (if a == to then read a t.balances +ℤ amount else read a t.balances))
      × (t'.total_supply ≡ t.total_supply +ℤ amount)
      × (leb_ℤ amount max_mint_per_call ≡ true)
      × (leb_ℤ t'.total_supply max_total_supply ≡ true)
unfolding LpToken.mint
mint_limits env to amount t {t'} n h =
    let old = read to t.balances in
    let add_balance = checked_add_lem old amount in
    let add_supply = checked_add_lem t.total_supply amount in
    let per_call = not_ltb_ℤ max_mint_per_call amount in
    let in_total = not_ltb_ℤ max_total_supply (t.total_supply +ℤ amount) in
    (
      ground arith,
      ground arith,
      λ a. ground (arith, add_balance, add_supply, read-write to a (old +ℤ amount) t.balances n),
      ground (arith, add_balance, add_supply),
      ground (arith, per_call),
      ground (arith, add_balance, add_supply, in_total),
    )

-- A burn of an amount that is not negative needs the holder's authorization and a balance that
-- covers it; it takes the amount from that balance and from the supply, and changes no other
-- balance.
pub burn_takes :
    (env : Env) (from : Address) (n : ℕ) (t : LpToken) {t' : LpToken}
    → IsNodup t.balances
    → LpToken.burn env from (pos n) t ≡ ok t'
    → (env.authorized from ≡ true)
      × (leb_ℤ (pos n) (read from t.balances) ≡ true)
      × ((a : Address)
          → read a t'.balances
            ≡ (if a == from then read a t.balances -ℤ pos n else read a t.balances))
      × (t'.total_supply ≡ t.total_supply -ℤ pos n)
unfolding LpToken.burn LpToken.burn_internal
burn_takes env from n t {t'} d h =
    let old = read from t.balances in
    let sub_balance = checked_sub_lem old (pos n) in
    let sub_supply = checked_sub_lem t.total_supply (pos n) in
    (
      ground arith,
      ground (arith, not_ltb_ℤ old (pos n)),
      λ a. ground (arith, sub_balance, sub_supply, read-write from a (old -ℤ pos n) t.balances d),
      ground (arith, sub_balance, sub_supply),
    )

-- A burn of a negative amount is accepted from any holder of an unpaused token, with no allowance
-- and no admin: it adds the magnitude of the amount to the holder's balance and to the supply.
pub burn_negative_mints :
    (env : Env) (from : Address) (n b s : ℕ) (t : LpToken)
    → t.paused ≡ false
    → env.authorized from ≡ true
    → read from t.balances ≡ pos b
    → t.total_supply ≡ pos s
    → b + suc n < two_127
    → s + suc n < two_127
    → LpToken.burn env from (negsuc n) t
      ≡ ok (record t {
        balances = write from (pos (b + suc n)) t.balances;
        total_supply = pos (s + suc n);
      })
unfolding LpToken.burn LpToken.burn_internal checked_sub
burn_negative_mints env from n b s t hp ha hb hs fb fs = ground arith
