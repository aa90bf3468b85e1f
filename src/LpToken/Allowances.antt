-- ===== src/LpToken/Allowances.antt =====
-- Allowances: `approve`, `allowance`, `spend_allowance` and `transfer_from`.
use coralswap_core.LpToken
use coralswap_core.Prelude.{
  Option, Option-cases, arith, false, if◌then◌else◌, inl, inr, leb, none, some, true, ℕ, ◌&&◌, ◌==◌,
  ◌≡◌, ◌≢◌,
}
use coralswap_core.Balances.{IsNodup, read}
use coralswap_core.Env.{Address, Env}
use coralswap_core.Int.{leb_ℤ, pos, ℤ, ◌-ℤ◌}
use coralswap_core.Int.Laws.{checked_sub_lem, eq_ℤ→eq, not_ltb_ℤ}
use coralswap_core.LpToken.{AllowanceEntry, LpToken}
use coralswap_core.LpToken.Transfers.{moved, moved_none, read-posted, transfer_internal_lem}
use coralswap_core.Outcome.{>>=-eq-ok, ok, ◌>>=◌}

abbrev pub entry_amount : Option AllowanceEntry → ℤ
entry_amount none = pos 0
entry_amount (some e) = e.amount

spend_allowance_lem :
    (env : Env) (from spender : Address) (amount : ℤ) (t : LpToken) {t' : LpToken}
    → LpToken.spend_allowance env from spender amount t ≡ ok t'
    → (leb_ℤ amount (LpToken.allowance env t from spender) ≡ true)
      × (entry_amount (t'.allowances from spender) ≡ LpToken.allowance env t from spender -ℤ amount)
      × ((f s : Address)
          → (f == from && s == spender) ≡ false
          → t'.allowances f s ≡ t.allowances f s)
      × (t'.balances ≡ t.balances)
      × (t'.total_supply ≡ t.total_supply)
unfolding LpToken.spend_allowance LpToken.allowance
spend_allowance_lem env from spender amount t {t'} h =
    elim (Option-cases (t.allowances from spender)) [
      | inl absent ↦ absurd (ground arith)
      | inr (entry, e) ↦
          let sub = checked_sub_lem entry.amount amount in
          (
            ground (arith, not_ltb_ℤ entry.amount amount),
            ground (arith, sub, eq_ℤ→eq (entry.amount -ℤ amount) (pos 0)),
            λ f s k. ground (arith, sub),
            ground (arith, sub),
            ground (arith, sub),
          )
    ]

-- A transfer by a third party needs that party's authorization and an allowance that has not expired
-- and covers the amount; it takes exactly the amount from that allowance, leaves every other
-- allowance alone, and moves the amount as `transfer` does. The owner's own call uses no allowance.
pub transfer_from_spends :
    (env : Env) (spender from to : Address) (amount : ℤ) (t : LpToken) {t' : LpToken}
    → IsNodup t.balances
    → spender ≢ from
    → LpToken.transfer_from env spender from to amount t ≡ ok t'
    → (env.authorized spender ≡ true)
      × (leb_ℤ amount (LpToken.allowance env t from spender) ≡ true)
      × (entry_amount (t'.allowances from spender) ≡ LpToken.allowance env t from spender -ℤ amount)
      × ((f s : Address)
          → (f == from && s == spender) ≡ false
          → t'.allowances f s ≡ t.allowances f s)
      × ((a : Address) → read a t'.balances ≡ moved from to amount t a)
      × (t'.total_supply ≡ t.total_supply)
unfolding LpToken.transfer_from
transfer_from_spends env spender from to amount t {t'} n ne h =
    let inner : (LpToken.spend_allowance env from spender amount t
          >>= LpToken.transfer_internal from to amount)
        ≡ ok t' =
      ground arith in
    let (t1, spent, sent) = >>=-eq-ok (LpToken.spend_allowance env from spender amount t) _ inner in
    let (covered, left, others, same_balances, same_supply) =
      spend_allowance_lem env from spender amount t spent in
    let (_, effect) = transfer_internal_lem from to amount t1 sent in
    let n1 : IsNodup t1.balances = rw same_balances n in
    (
      ground arith,
      covered,
      ground (arith, effect, left),
      λ f s k. ground (arith, effect, others f s k),
      λ a.
          ground
            (arith, effect, read-posted from to a amount t1 n1, moved_none from to a amount t1),
      ground (arith, effect),
    )

-- After `approve` the allowance is the approved amount until its expiry and zero from then on, and no
-- other allowance changes; `approve` needs the owner's authorization.
pub approve-allowance :
    (env later : Env) (from spender : Address) (amount : ℤ) (expiration : ℕ) (t : LpToken)
    {t' : LpToken}
    → LpToken.approve env from spender amount expiration t ≡ ok t'
    → (env.authorized from ≡ true)
      × ((f s : Address)
          → LpToken.allowance later t' f s ≡ (
              if f == from && s == spender
              then (if leb expiration later.sequence then pos 0 else amount)
              else LpToken.allowance later t f s))
unfolding LpToken.approve LpToken.allowance
approve-allowance env later from spender amount expiration t {t'} h =
    (ground arith, λ f s. ground (arith, eq_ℤ→eq amount (pos 0)))
