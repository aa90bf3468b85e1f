-- ===== src/Pair/Guards.antt =====
-- The lock and the freeze, over every call of the pair.
use coralswap_core.Pair.Admin
use coralswap_core.Pair.Burn
use coralswap_core.Pair.Flash
use coralswap_core.Pair.Mint
use coralswap_core.Pair.Single
use coralswap_core.Pair.Swap
use coralswap_core.Prelude.{Bool, Option, arith, false, not, refl, true, ◌&&◌, ◌≡◌, ◌≢◌}
use coralswap_core.Env.{Address, Env}
use coralswap_core.Errors.{PairError}
use coralswap_core.Int.{eq_ℤ, pos}
use coralswap_core.LpToken.{LpToken}
use coralswap_core.Outcome.{err, ok}
use coralswap_core.Pair.Calls.{PairCall, map_ok, pair_step}
use coralswap_core.Pair.Flash.{FlashCall}
use coralswap_core.Pair.State.{FactoryView, TokenClient, World, acquire}

module _ {T : Type 0} (tokens : TokenClient T)
    (on_flash_loan : FlashCall → LpToken × T → Option (LpToken × T)) where
  -- The calls that take the lock. A flash loan of nothing returns before it does.
  abbrev pub takes_lock : PairCall → Bool
  takes_lock (PairCall.mint to) = true
  takes_lock (PairCall.deposit_lp from amount) = true
  takes_lock (PairCall.burn to) = true
  takes_lock (PairCall.mint_with_one_token to token_in amount min_lp_out) = true
  takes_lock (PairCall.burn_single_side to lp_amount preferred min_out) = true
  takes_lock (PairCall.swap a b to) = true
  takes_lock (PairCall.flash_loan receiver a b len) = not (eq_ℤ a (pos 0) && eq_ℤ b (pos 0))
  takes_lock PairCall.sync = true
  takes_lock (PairCall.set_stale_threshold n) = false
  takes_lock (PairCall.set_lp_token_paused b) = false
  takes_lock (PairCall.set_frozen b) = false

  acquire_locked : (w : World T) → w.store.locked ≡ true → acquire w ≡ err PairError.locked
  unfolding acquire
  acquire_locked w h = rw h refl

  -- While one call of the pair runs, none of the calls that take the lock can complete: re-entering
  -- the pair fails whatever the arguments are.
  pub lock_excludes :
      (env : Env) (view : FactoryView) (call : PairCall) (w : World T) {w' : World T}
      → w.store.locked ≡ true
      → takes_lock call ≡ true
      → pair_step tokens on_flash_loan env view call w ≢ ok w'
  unfolding pair_step Single.mint_with_one_token Single.burn_single_side Mint.mint Burn.deposit_lp
      Burn.burn Swap.swap Flash.flash_loan Flash.execute_flash_loan Admin.sync
  lock_excludes env view (PairCall.mint to) w h k = let e = acquire_locked w h in ground arith
  lock_excludes env view (PairCall.deposit_lp from amount) w h k =
      let e = acquire_locked w h in ground arith
  lock_excludes env view (PairCall.burn to) w h k = let e = acquire_locked w h in ground arith
  lock_excludes env view (PairCall.mint_with_one_token to token_in amount min_lp_out) w h k =
      let e = acquire_locked w h in ground arith
  lock_excludes env view (PairCall.burn_single_side to lp_amount preferred min_out) w h k =
      let e = acquire_locked w h in ground arith
  lock_excludes env view (PairCall.swap a b to) w h k = let e = acquire_locked w h in ground arith
  lock_excludes env view (PairCall.flash_loan receiver a b len) w h k =
      let e = acquire_locked w h in ground arith
  lock_excludes env view PairCall.sync w h k = let e = acquire_locked w h in ground arith
  lock_excludes env view (PairCall.set_stale_threshold n) w h k = cc
  lock_excludes env view (PairCall.set_lp_token_paused b) w h k = cc
  lock_excludes env view (PairCall.set_frozen b) w h k = cc

  -- The calls that a freeze stops: those that move the price or create value.
  abbrev pub is_freezable : PairCall → Bool
  is_freezable (PairCall.mint to) = true
  is_freezable (PairCall.deposit_lp from amount) = false
  is_freezable (PairCall.burn to) = false
  is_freezable (PairCall.mint_with_one_token to token_in amount min_lp_out) = true
  is_freezable (PairCall.burn_single_side to lp_amount preferred min_out) = true
  is_freezable (PairCall.swap a b to) = true
  is_freezable (PairCall.flash_loan receiver a b len) = true
  is_freezable PairCall.sync = false
  is_freezable (PairCall.set_stale_threshold n) = false
  is_freezable (PairCall.set_lp_token_paused b) = false
  is_freezable (PairCall.set_frozen b) = false

  -- A frozen pair completes no deposit, no swap, no single-sided withdrawal and no flash loan, not
  -- even one of nothing.
  pub freeze_stops :
      (env : Env) (view : FactoryView) (call : PairCall) (w : World T) {w' : World T}
      → w.store.frozen ≡ true
      → is_freezable call ≡ true
      → pair_step tokens on_flash_loan env view call w ≢ ok w'
  unfolding pair_step Single.mint_with_one_token Single.burn_single_side Mint.mint Swap.swap
      Flash.flash_loan acquire
  freeze_stops env view (PairCall.mint to) w h k = ground arith
  freeze_stops env view (PairCall.deposit_lp from amount) w h k = cc
  freeze_stops env view (PairCall.burn to) w h k = cc
  freeze_stops env view (PairCall.mint_with_one_token to token_in amount min_lp_out) w h k =
      ground arith
  freeze_stops env view (PairCall.burn_single_side to lp_amount preferred min_out) w h k =
      ground arith
  freeze_stops env view (PairCall.swap a b to) w h k = ground arith
  freeze_stops env view (PairCall.flash_loan receiver a b len) w h k = ground arith
  freeze_stops env view PairCall.sync w h k = cc
  freeze_stops env view (PairCall.set_stale_threshold n) w h k = cc
  freeze_stops env view (PairCall.set_lp_token_paused b) w h k = cc
  freeze_stops env view (PairCall.set_frozen b) w h k = cc

  abbrev pub with_frozen : Bool → World T → World T
  with_frozen b w = record w { store = record w.store { frozen = b } }

  -- A freeze makes no difference to a withdrawal: on a frozen pair it ends as on the same pair not
  -- frozen, with the same amounts or the same error, and leaves the flag as it was.
  pub burn_ignores_freeze :
      (env : Env) (to : Address) (b : Bool) (w : World T)
      → Burn.burn tokens env to (with_frozen b w)
        ≡ map_ok (λ r. (with_frozen b r.0, r.1, r.2)) (Burn.burn tokens env to w)
  unfolding Burn.burn acquire Burn.clear_pending
  burn_ignores_freeze env to b w = ground arith
