-- ===== src/LpToken/Pausing.antt =====
-- The pause switch of the token.
use coralswap_core.LpToken
use coralswap_core.Prelude.{Bool, arith, false, some, true, ◌≡◌}
use coralswap_core.Env.{Address, Env}
use coralswap_core.Host.{Crypto}
use coralswap_core.LpToken.{LpToken, LpTokenError}
use coralswap_core.LpToken.Calls.{Call, step}
use coralswap_core.LpToken.Permit.{permit}
use coralswap_core.Outcome.{err, ok}

-- The calls that move balances or change the supply.
abbrev pub is_moving : Call → Bool
is_moving (Call.admin_transfer a) = false
is_moving Call.pause = false
is_moving Call.unpause = false
is_moving (Call.approve from spender amount expiration) = false
is_moving (Call.transfer from to amount) = true
is_moving (Call.transfer_from spender from to amount) = true
is_moving (Call.mint to amount) = true
is_moving (Call.burn from amount) = true
is_moving (Call.burn_from spender from amount) = true
is_moving (Call.permit owner spender amount deadline signature) = false

-- While the token is paused every call that moves balances or changes the supply is refused with
-- `contract_paused`, whoever makes it.
pub paused_refuses :
    (crypto : Crypto) (env : Env) (call : Call) (t : LpToken)
    → t.paused ≡ true
    → is_moving call ≡ true
    → step crypto env call t ≡ err LpTokenError.contract_paused
unfolding step LpToken.transfer LpToken.transfer_from LpToken.mint LpToken.burn LpToken.burn_from
paused_refuses crypto env (Call.admin_transfer a) t h m = cc
paused_refuses crypto env Call.pause t h m = cc
paused_refuses crypto env Call.unpause t h m = cc
paused_refuses crypto env (Call.approve from spender amount expiration) t h m = cc
paused_refuses crypto env (Call.transfer from to amount) t h m = ground arith
paused_refuses crypto env (Call.transfer_from spender from to amount) t h m = ground arith
paused_refuses crypto env (Call.mint to amount) t h m = ground arith
paused_refuses crypto env (Call.burn from amount) t h m = ground arith
paused_refuses crypto env (Call.burn_from spender from amount) t h m = ground arith
paused_refuses crypto env (Call.permit owner spender amount deadline signature) t h m = cc

-- Only the admin changes the pause flag or hands over the administration: a call that the admin has
-- not authorized, if it ends with a value, leaves both as they were.
pub admin_controls :
    (crypto : Crypto) (env : Env) (call : Call) (t : LpToken) {t' : LpToken} (admin : Address)
    → t.admin ≡ some admin
    → env.authorized admin ≡ false
    → step crypto env call t ≡ ok t'
    → (t'.admin ≡ t.admin) × (t'.paused ≡ t.paused)
unfolding step permit LpToken.admin_transfer LpToken.pause LpToken.unpause LpToken.approve
    LpToken.transfer LpToken.transfer_from LpToken.mint LpToken.burn LpToken.burn_from
    LpToken.transfer_internal LpToken.spend_allowance LpToken.burn_internal
admin_controls crypto env (Call.admin_transfer a) t admin e n h = ground arith
admin_controls crypto env Call.pause t admin e n h = ground arith
admin_controls crypto env Call.unpause t admin e n h = ground arith
admin_controls crypto env (Call.approve from spender amount expiration) t admin e n h = ground arith
admin_controls crypto env (Call.transfer from to amount) t admin e n h = ground arith
admin_controls crypto env (Call.transfer_from spender from to amount) t admin e n h = ground arith
admin_controls crypto env (Call.mint to amount) t admin e n h = ground arith
admin_controls crypto env (Call.burn from amount) t admin e n h = ground arith
admin_controls crypto env (Call.burn_from spender from amount) t admin e n h = ground arith
admin_controls crypto env (Call.permit owner spender amount deadline signature) t admin e n h =
    ground arith
