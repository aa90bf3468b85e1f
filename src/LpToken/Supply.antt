-- ===== src/LpToken/Supply.antt =====
-- The total supply is the sum of all balances.
use coralswap_core.LpToken
use coralswap_core.Prelude.{Bool, List, [], arith, false, if◌then◌else◌, true, ℕ, ◌==◌, ◌∷◌, ◌≡◌}
use coralswap_core.Balances.{IsNodup, read, sum, write}
use coralswap_core.Balances.Laws.{sum-write, write-IsNodup}
use coralswap_core.Env.{Address, Env}
use coralswap_core.Host.{Crypto}
use coralswap_core.Int.{ℤ, ◌+ℤ◌, ◌-ℤ◌}
use coralswap_core.Int.Laws.{checked_add_lem, checked_sub_lem, int_laws}
use coralswap_core.LpToken.{LpToken, LpTokenError, blank}
use coralswap_core.LpToken.Calls.{Call, run, settle, step}
use coralswap_core.LpToken.Permit.{permit}
use coralswap_core.Outcome.{Outcome, err, ok, raise_if, require, trap, ◌>>=◌, ◌>>◌}

-- The token's supply is what its holders hold, and no holder is listed twice.
pub record IsConserved (t : LpToken) : Type 0 where
  pub whole : t.total_supply ≡ sum t.balances
  pub nodup : IsNodup t.balances

-- Every call that ends with a value keeps the invariant.
abbrev pub Keeps : Outcome LpTokenError LpToken → Type 0
Keeps (ok t') = IsConserved t'
Keeps (err e) = Unit
Keeps trap = Unit

burn_internal-Keeps :
    (from : Address) (amount : ℤ) (t : LpToken)
    → IsConserved t
    → Keeps (LpToken.burn_internal from amount t)
unfolding LpToken.burn_internal
burn_internal-Keeps from amount t c =
    let old = read from t.balances in
    grind (
      int_laws,
      checked_sub_lem old amount,
      checked_sub_lem t.total_supply amount,
      sum-write from (old -ℤ amount) t.balances,
      write-IsNodup from (old -ℤ amount) t.balances c.nodup,
    )

mint-Keeps :
    (env : Env) (to : Address) (amount : ℤ) (t : LpToken)
    → IsConserved t
    → Keeps (LpToken.mint env to amount t)
unfolding LpToken.mint
mint-Keeps env to amount t c =
    let old = read to t.balances in
    grind (
      int_laws,
      checked_add_lem old amount,
      checked_add_lem t.total_supply amount,
      sum-write to (old +ℤ amount) t.balances,
      write-IsNodup to (old +ℤ amount) t.balances c.nodup,
    )

transfer_internal-Keeps :
    (from to : Address) (amount : ℤ) (t : LpToken)
    → IsConserved t
    → Keeps (LpToken.transfer_internal from to amount t)
unfolding LpToken.transfer_internal
transfer_internal-Keeps from to amount t c =
    let debited = write from (read from t.balances -ℤ amount) t.balances in
    let credit = read to debited +ℤ amount in
    let nodup = write-IsNodup from (read from t.balances -ℤ amount) t.balances c.nodup in
    grind (
      int_laws,
      checked_sub_lem (read from t.balances) amount,
      checked_add_lem (read to debited) amount,
      sum-write from (read from t.balances -ℤ amount) t.balances,
      sum-write to credit debited,
      write-IsNodup to credit debited nodup,
    )

-- Spending an allowance moves no balance.
pub spend_allowance-funds :
    (env : Env) (from spender : Address) (amount : ℤ) (t : LpToken) {t' : LpToken}
    → LpToken.spend_allowance env from spender amount t ≡ ok t'
    → (t'.balances ≡ t.balances) × (t'.total_supply ≡ t.total_supply)
unfolding LpToken.spend_allowance
spend_allowance-funds env from spender amount t h = ground arith

spend_allowance-Keeps :
    (env : Env) (from spender : Address) (amount : ℤ) (t : LpToken)
    → IsConserved t
    → Keeps (LpToken.spend_allowance env from spender amount t)
unfolding LpToken.spend_allowance
spend_allowance-Keeps env from spender amount t c = ground arith

>>=-Keeps :
    (m : Outcome LpTokenError LpToken) (f : LpToken → Outcome LpTokenError LpToken)
    → Keeps m
    → ((t : LpToken) → IsConserved t → Keeps (f t))
    → Keeps (m >>= f)
>>=-Keeps (ok t) f h k = k t h
>>=-Keeps (err e) f h k = tt
>>=-Keeps trap f h k = tt

guard-Keeps :
    (m : Outcome LpTokenError (Unit {0})) (k : Outcome LpTokenError LpToken)
    → Keeps k
    → Keeps (m >> k)
guard-Keeps (ok u) k h = h
guard-Keeps (err e) k h = tt
guard-Keeps trap k h = tt

burn_from-Keeps :
    (env : Env) (spender from : Address) (amount : ℤ) (t : LpToken)
    → IsConserved t
    → Keeps (LpToken.burn_from env spender from amount t)
unfolding LpToken.burn_from
burn_from-Keeps env spender from amount t c =
    guard-Keeps (raise_if t.paused LpTokenError.contract_paused) _ (
      guard-Keeps (require (env.authorized spender)) _ (
        >>=-Keeps (LpToken.spend_allowance env from spender amount t) _
          (spend_allowance-Keeps env from spender amount t c) (burn_internal-Keeps from amount)))

transfer_from-Keeps :
    (env : Env) (spender from to : Address) (amount : ℤ) (t : LpToken)
    → IsConserved t
    → Keeps (LpToken.transfer_from env spender from to amount t)
unfolding LpToken.transfer_from
transfer_from-Keeps env spender from to amount t c =
    guard-Keeps (raise_if t.paused LpTokenError.contract_paused) _ (
      guard-Keeps (require (env.authorized spender)) _ (
        >>=-Keeps
          (if spender == from then ok t else LpToken.spend_allowance env from spender amount t) _
          (allowed (spender == from)) (transfer_internal-Keeps from to amount)))
  where
    allowed :
        (b : Bool) → Keeps (if b then ok t else LpToken.spend_allowance env from spender amount t)
    allowed true = c
    allowed false = spend_allowance-Keeps env from spender amount t c

-- No call whatever, with any arguments and any authorization, breaks the invariant.
pub step-Keeps :
    (crypto : Crypto) (env : Env) (call : Call) (t : LpToken)
    → IsConserved t
    → Keeps (step crypto env call t)
unfolding step permit LpToken.admin_transfer LpToken.pause LpToken.unpause LpToken.approve
    LpToken.transfer LpToken.burn
step-Keeps crypto env (Call.admin_transfer a) t c = ground arith
step-Keeps crypto env Call.pause t c = ground arith
step-Keeps crypto env Call.unpause t c = ground arith
step-Keeps crypto env (Call.approve from spender amount expiration) t c = ground arith
step-Keeps crypto env (Call.transfer from to amount) t c =
    guard-Keeps (raise_if t.paused LpTokenError.contract_paused) _
      (guard-Keeps (require (env.authorized from)) _ (transfer_internal-Keeps from to amount t c))
step-Keeps crypto env (Call.transfer_from spender from to amount) t c =
    transfer_from-Keeps env spender from to amount t c
step-Keeps crypto env (Call.mint to amount) t c = mint-Keeps env to amount t c
step-Keeps crypto env (Call.burn from amount) t c =
    guard-Keeps (raise_if t.paused LpTokenError.contract_paused) _
      (guard-Keeps (require (env.authorized from)) _ (burn_internal-Keeps from amount t c))
step-Keeps crypto env (Call.burn_from spender from amount) t c =
    burn_from-Keeps env spender from amount t c
step-Keeps crypto env (Call.permit owner spender amount deadline signature) t c = ground arith

settle-IsConserved :
    (m : Outcome LpTokenError LpToken) (t : LpToken)
    → IsConserved t
    → Keeps m
    → IsConserved (settle m t)
settle-IsConserved (ok t') t c h = h
settle-IsConserved (err e) t c h = c
settle-IsConserved trap t c h = c

run-IsConserved :
    (crypto : Crypto) (calls : List (Env × Call)) (t : LpToken)
    → IsConserved t
    → IsConserved (run crypto calls t)
unfolding run
run-IsConserved crypto [] t c = c
run-IsConserved crypto ((env, call) ∷ calls) t c =
    run-IsConserved crypto calls (settle (step crypto env call t) t)
      (settle-IsConserved (step crypto env call t) t c (step-Keeps crypto env call t c))

-- Whatever calls follow an initialization, permits included, and whichever of them fail, the total supply is the sum
-- of the balances, and no address is listed twice.
pub supply_is_conserved :
    (crypto : Crypto) (admin : Address) (decimals : ℕ) (name symbol : List ℕ) {t : LpToken}
    → LpToken.initialize admin decimals name symbol blank ≡ ok t
    → (calls : List (Env × Call))
    → let t' = run crypto calls t in (t'.total_supply ≡ sum t'.balances) × IsNodup t'.balances
unfolding LpToken.initialize
supply_is_conserved crypto admin decimals name symbol {t} h calls =
    let start : IsConserved t = ground arith in
    let end = run-IsConserved crypto calls t start in (end.whole, end.nodup)
