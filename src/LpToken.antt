-- ===== src/LpToken.antt =====
-- The LP token, contracts/lp_token/src: its storage as a record, and every entry point as a function
-- to the new storage. Storage lifetimes (`extend_ttl`) and events are not modelled.
pub mod Permit
pub mod Calls
pub mod Supply
pub mod Transfers
pub mod Allowances
pub mod Pausing
mod Tests
use coralswap_core.Prelude.{
  Bool, List, Option, [], false, if◌then◌else◌, leb, length, ltb, none, not, some, true, ℕ, ◌&&◌,
  ◌==◌, ◌^◌, ◌||◌, ◌∷◌,
}
use coralswap_core.Balances.{Balances, read, write}
use coralswap_core.Env.{Address, Env}
use coralswap_core.Int.{checked_add, checked_sub, eq_ℤ, ltb_ℤ, pos, ℤ}
use coralswap_core.Outcome.{Outcome, ok, ok_or, raise_if, require, unwrap, ◌>>=◌, ◌>>◌}

pub data LpTokenError : Type 0 where
  already_initialized not_initialized unauthorized insufficient_balance : LpTokenError
  insufficient_allowance overflow invalid_expiration contract_paused permit_expired : LpTokenError
  invalid_signature invalid_metadata mint_amount_too_large total_supply_exceeded : LpTokenError

-- A text is the list of its bytes.
pub record TokenMetadata : Type 0 where
  pub decimals : ℕ
  pub name : List ℕ
  pub symbol : List ℕ

pub record AllowanceEntry : Type 0 where
  pub amount : ℤ
  pub expiration_ledger : ℕ

-- The instance entries `TotalSupply` and `Paused` read as 0 and `false` where they are absent, and
-- so do balances and nonces. `allowances from spender` is the entry of that key.
pub record LpToken : Type 0 where
  pub admin : Option Address
  pub metadata : Option TokenMetadata
  pub total_supply : ℤ
  pub paused : Bool
  pub balances : Balances
  pub allowances : Address → Address → Option AllowanceEntry
  pub nonces : Address → ℕ

abbrev pub blank : LpToken
blank = record {
  admin = none;
  metadata = none;
  total_supply = pos 0;
  paused = false;
  balances = [];
  allowances = λ from spender. none;
  nonces = λ owner. 0;
}

-- "Coral LP" and "CLP"
abbrev pub lp_name : List ℕ
lp_name = b'C' ∷ b'o' ∷ b'r' ∷ b'a' ∷ b'l' ∷ b' ' ∷ b'L' ∷ b'P' ∷ []

abbrev pub lp_symbol : List ℕ
lp_symbol = b'C' ∷ b'L' ∷ b'P' ∷ []

abbrev or_default : List ℕ → List ℕ → List ℕ
or_default [] d = d
or_default (b ∷ bs) d = b ∷ bs

abbrev pub is_some {ℓ} : {A : Type ℓ} → Option A → Bool
is_some none = false
is_some (some a) = true

unfoldable pub initialize : Address → ℕ → List ℕ → List ℕ → LpToken → Outcome LpTokenError LpToken
initialize new_admin decimals name symbol t = do
  raise_if (is_some t.admin) LpTokenError.already_initialized
  raise_if (ltb 18 decimals) LpTokenError.invalid_metadata
  let effective_name = or_default name lp_name
  let effective_symbol = or_default symbol lp_symbol
  raise_if (ltb 32 (length effective_name) || ltb 32 (length effective_symbol))
      LpTokenError.invalid_metadata
  ok (record t {
    admin = some new_admin;
    metadata =
        some (record { decimals = decimals; name = effective_name; symbol = effective_symbol });
    total_supply = pos 0;
    paused = false;
  })

-- `admin_transfer`, and `set_admin`, which calls it.
unfoldable pub admin_transfer : Env → Address → LpToken → Outcome LpTokenError LpToken
admin_transfer env new_admin t = do
  old_admin ← ok_or t.admin LpTokenError.not_initialized
  require (env.authorized old_admin)
  ok (record t { admin = some new_admin })

unfoldable pub pause : Env → LpToken → Outcome LpTokenError LpToken
pause env t = do
  admin ← ok_or t.admin LpTokenError.not_initialized
  require (env.authorized admin)
  ok (record t { paused = true })

unfoldable pub unpause : Env → LpToken → Outcome LpTokenError LpToken
unpause env t = do
  admin ← ok_or t.admin LpTokenError.not_initialized
  require (env.authorized admin)
  ok (record t { paused = false })

unfoldable pub allowance : Env → LpToken → Address → Address → ℤ
allowance env t from spender = elim (t.allowances from spender) [
  | none ↦ pos 0
  | some entry ↦ if leb entry.expiration_ledger env.sequence then pos 0 else entry.amount
]

abbrev pub set_allowance : Address → Address → Option AllowanceEntry → LpToken → LpToken
set_allowance from spender entry t = record t {
  allowances = λ f s. if f == from && s == spender then entry else t.allowances f s;
}

unfoldable pub approve : Env → Address → Address → ℤ → ℕ → LpToken → Outcome LpTokenError LpToken
approve env from spender amount expiration_ledger t = do
  require (env.authorized from)
  raise_if (not (eq_ℤ amount (pos 0)) && leb expiration_ledger env.sequence)
      LpTokenError.invalid_expiration
  ok (
      set_allowance from spender
        (if eq_ℤ amount (pos 0)
          then none
          else some (record { amount = amount; expiration_ledger = expiration_ledger }))
        t)

abbrev pub balance : LpToken → Address → ℤ
balance t a = read a t.balances

abbrev pub write_balance : Address → ℤ → LpToken → LpToken
write_balance a v t = record t { balances = write a v t.balances }

unfoldable pub transfer_internal : Address → Address → ℤ → LpToken → Outcome LpTokenError LpToken
transfer_internal from to amount t = do
  raise_if (ltb_ℤ amount (pos 0)) LpTokenError.insufficient_balance
  let moved = do
    raise_if (ltb_ℤ (balance t from) amount) LpTokenError.insufficient_balance
    new_from_balance ← unwrap (checked_sub (balance t from) amount)
    let t1 = write_balance from new_from_balance t
    new_to_balance ← ok_or (checked_add (balance t1 to) amount) LpTokenError.overflow
    ok (write_balance to new_to_balance t1)
  if eq_ℤ amount (pos 0) then ok t else moved

unfoldable pub transfer : Env → Address → Address → ℤ → LpToken → Outcome LpTokenError LpToken
transfer env from to amount t = do
  raise_if t.paused LpTokenError.contract_paused
  require (env.authorized from)
  transfer_internal from to amount t

unfoldable pub spend_allowance :
    Env → Address → Address → ℤ → LpToken → Outcome LpTokenError LpToken
spend_allowance env from spender amount t = do
  entry ← ok_or (t.allowances from spender) LpTokenError.insufficient_allowance
  raise_if (leb entry.expiration_ledger env.sequence) LpTokenError.insufficient_allowance
  raise_if (ltb_ℤ entry.amount amount) LpTokenError.insufficient_allowance
  new_amount ← unwrap (checked_sub entry.amount amount)
  ok (
      set_allowance from spender
        (if eq_ℤ new_amount (pos 0) then none else some (record entry { amount = new_amount })) t)

unfoldable pub transfer_from :
    Env → Address → Address → Address → ℤ → LpToken → Outcome LpTokenError LpToken
transfer_from env spender from to amount t = do
  raise_if t.paused LpTokenError.contract_paused
  require (env.authorized spender)
  t1 ← (if spender == from then ok t else spend_allowance env from spender amount t)
  transfer_internal from to amount t1

abbrev pub max_mint_per_call : ℤ
max_mint_per_call = pos (10 ^ 18)

abbrev pub max_total_supply : ℤ
max_total_supply = pos (10 ^ 27)

unfoldable pub mint : Env → Address → ℤ → LpToken → Outcome LpTokenError LpToken
mint env to amount t = do
  raise_if t.paused LpTokenError.contract_paused
  admin ← ok_or t.admin LpTokenError.not_initialized
  require (env.authorized admin)
  raise_if (ltb_ℤ max_mint_per_call amount) LpTokenError.mint_amount_too_large
  new_balance ← ok_or (checked_add (balance t to) amount) LpTokenError.overflow
  new_total_supply ← ok_or (checked_add t.total_supply amount) LpTokenError.overflow
  raise_if (ltb_ℤ max_total_supply new_total_supply) LpTokenError.total_supply_exceeded
  ok (record (write_balance to new_balance t) { total_supply = new_total_supply })

-- The part that `burn` and `burn_from` share.
unfoldable pub burn_internal : Address → ℤ → LpToken → Outcome LpTokenError LpToken
burn_internal from amount t = do
  raise_if (ltb_ℤ (balance t from) amount) LpTokenError.insufficient_balance
  new_balance ← unwrap (checked_sub (balance t from) amount)
  new_total_supply ← ok_or (checked_sub t.total_supply amount) LpTokenError.insufficient_balance
  ok (record (write_balance from new_balance t) { total_supply = new_total_supply })

unfoldable pub burn : Env → Address → ℤ → LpToken → Outcome LpTokenError LpToken
burn env from amount t = do
  raise_if t.paused LpTokenError.contract_paused
  require (env.authorized from)
  burn_internal from amount t

unfoldable pub burn_from : Env → Address → Address → ℤ → LpToken → Outcome LpTokenError LpToken
burn_from env spender from amount t = do
  raise_if t.paused LpTokenError.contract_paused
  require (env.authorized spender)
  t1 ← spend_allowance env from spender amount t
  burn_internal from amount t1
