-- ===== src/LpToken/Calls.antt =====
-- Sequences of calls of the token. A call that does not end with a value leaves no trace.
use coralswap_core.LpToken
use coralswap_core.Prelude.{List, [], ℕ, ◌∷◌}
use coralswap_core.Env.{Address, Env}
use coralswap_core.Host.{Crypto}
use coralswap_core.Int.{ℤ}
use coralswap_core.LpToken.{LpToken, LpTokenError}
use coralswap_core.Outcome.{Outcome, err, ok, trap}

pub data Call : Type 0 where
  admin_transfer : Address → Call
  pause : Call
  unpause : Call
  approve : Address → Address → ℤ → ℕ → Call
  transfer : Address → Address → ℤ → Call
  transfer_from : Address → Address → Address → ℤ → Call
  mint : Address → ℤ → Call
  burn : Address → ℤ → Call
  burn_from : Address → Address → ℤ → Call
  permit : Address → Address → ℤ → ℕ → List ℕ → Call

abbrev pub settle : Outcome LpTokenError LpToken → LpToken → LpToken
settle (ok t') t = t'
settle (err e) t = t
settle trap t = t

-- The permit reads the cryptography of the host.
module _ (crypto : Crypto) where
  unfoldable pub step : Env → Call → LpToken → Outcome LpTokenError LpToken
  step env (Call.admin_transfer a) = LpToken.admin_transfer env a
  step env Call.pause = LpToken.pause env
  step env Call.unpause = LpToken.unpause env
  step env (Call.approve from spender amount expiration) =
      LpToken.approve env from spender amount expiration
  step env (Call.transfer from to amount) = LpToken.transfer env from to amount
  step env (Call.transfer_from spender from to amount) =
      LpToken.transfer_from env spender from to amount
  step env (Call.mint to amount) = LpToken.mint env to amount
  step env (Call.burn from amount) = LpToken.burn env from amount
  step env (Call.burn_from spender from amount) = LpToken.burn_from env spender from amount
  step env (Call.permit owner spender amount deadline signature) =
      LpToken.Permit.permit crypto env owner spender amount deadline signature

  unfoldable pub run : List (Env × Call) → LpToken → LpToken
  run [] t = t
  run ((env, call) ∷ calls) t = run calls (settle (step env call t) t)
