-- ===== src/Pair/Governance.antt =====
-- Who may change the pair's flags, and what every call leaves of them.
use coralswap_core.Pair.Admin
use coralswap_core.Pair.Burn
use coralswap_core.Pair.Flash
use coralswap_core.Pair.Mint
use coralswap_core.Pair.Single
use coralswap_core.Pair.Swap
use coralswap_core.Prelude.{Option, arith, false, some, subst, true, ℕ, ◌≡◌}
use coralswap_core.Env.{Address, Env}
use coralswap_core.Int.{ℤ}
use coralswap_core.LpToken.{LpToken}
use coralswap_core.Outcome.{ok}
use coralswap_core.Pair.Calls.{PairCall, map_ok-eq-ok, pair_step}
use coralswap_core.Pair.Flash.{FlashCall}
use coralswap_core.Pair.SingleRun.{mint_with_one_token-run}
use coralswap_core.Pair.State.{FactoryView, PairStorage, TokenClient, World, acquire, set_locked}

module _ {T : Type 0} (tokens : TokenClient T)
    (on_flash_loan : FlashCall → LpToken × T → Option (LpToken × T)) where
  -- What a call leaves of the lock and of the two flags that the factory sets.
  abbrev pub KeepsFlags : World T → World T → Type 0
  KeepsFlags w w' =
      (w'.store.locked ≡ w.store.locked)
      × (w'.store.frozen ≡ w.store.frozen)
      × (w'.store.lp_token_paused ≡ w.store.lp_token_paused)

  swap-KeepsFlags :
      (env : Env) (view : FactoryView) (a b : ℤ) (to : Address) (w : World T) {w' : World T}
      → Swap.swap tokens env view a b to w ≡ ok w'
      → KeepsFlags w w'
  unfolding Swap.swap Swap.swap_inner acquire Swap.record_protocol_fee
  swap-KeepsFlags env view a b to w h = ground arith

  flash_loan-KeepsFlags :
      (env : Env) (receiver : Address) (a b : ℤ) (len : ℕ) (w : World T) {w' : World T}
      → Flash.flash_loan tokens on_flash_loan env receiver a b len w ≡ ok w'
      → KeepsFlags w w'
  unfolding Flash.flash_loan Flash.execute_flash_loan Flash.lend acquire
  flash_loan-KeepsFlags env receiver a b len w h = ground arith

  burn-KeepsFlags :
      (env : Env) (to : Address) (w : World T) {r : World T × ℤ × ℤ}
      → Burn.burn tokens env to w ≡ ok r
      → KeepsFlags w r.0
  unfolding Burn.burn Burn.clear_pending acquire
  burn-KeepsFlags env to w h = ground arith

  mint-KeepsFlags :
      (env : Env) (to : Address) (w : World T) {r : World T × ℤ}
      → Mint.mint tokens env to w ≡ ok r
      → KeepsFlags w r.0
  unfolding Mint.mint acquire
  mint-KeepsFlags env to w h = ground arith

  swap_inner-KeepsFlags :
      (env : Env) (view : FactoryView) (a b : ℤ) (to : Address) (w : World T) {w' : World T}
      → Swap.swap_inner tokens env view a b to w ≡ ok w'
      → KeepsFlags w w'
  unfolding Swap.swap_inner Swap.record_protocol_fee
  swap_inner-KeepsFlags env view a b to w h = ground arith

  issue_lp-KeepsFlags :
      (env : Env) (to : Address) (a b min_lp_out : ℤ) (w : World T) {r : World T × ℤ}
      → Single.issue_lp tokens env to a b min_lp_out w ≡ ok r
      → KeepsFlags w r.0
  unfolding Single.issue_lp
  issue_lp-KeepsFlags env to a b min_lp_out w h = ground arith

  mint_with_one_token-KeepsFlags :
      (env : Env) (view : FactoryView) (to token_in : Address) (amount min_lp_out : ℤ) (w : World T)
      {r : World T × ℤ}
      → Single.mint_with_one_token tokens env view to token_in amount min_lp_out w ≡ ok r
      → KeepsFlags w r.0
  unfolding Single.mint_with_one_token acquire
  mint_with_one_token-KeepsFlags env view to token_in amount min_lp_out w h =
      let done = mint_with_one_token-run tokens env view to token_in amount min_lp_out w h in
      let start = record (set_locked true w) { ledger = done.pulled } in
      let a =
        swap_inner-KeepsFlags env view done.out_a done.out_b env.contract start done.swap_done in
      let b =
        issue_lp-KeepsFlags env to done.deposit_a done.deposit_b min_lp_out done.swapped
          done.issue_done in
      let e = done.result in let unlocked = done.was_unlocked in (cc, cc, cc)

  burn_single_side-KeepsFlags :
      (env : Env) (to : Address) (lp_amount : ℤ) (preferred : Address) (min_out : ℤ) (w : World T)
      {r : World T × ℤ}
      → Single.burn_single_side tokens env to lp_amount preferred min_out w ≡ ok r
      → KeepsFlags w r.0
  unfolding Single.burn_single_side acquire
  burn_single_side-KeepsFlags env to lp_amount preferred min_out w h = ground arith

  -- Only the factory governs: a call that the pair's factory has not authorized, if it ends with a
  -- value, leaves the freeze, the pause hint and the lock as they were. In particular every call
  -- gives back the lock that it takes.
  pub only_factory_governs :
      (env : Env) (view : FactoryView) (call : PairCall) (w : World T) {w' : World T}
      (state : PairStorage)
      → w.store.pair_state ≡ some state
      → env.authorized state.factory ≡ false
      → pair_step tokens on_flash_loan env view call w ≡ ok w'
      → KeepsFlags w w'
  unfolding pair_step Burn.deposit_lp Admin.sync Admin.set_stale_threshold Admin.set_lp_token_paused
      Admin.set_frozen acquire
  only_factory_governs env view (PairCall.mint to) w s e f h =
      let (r, done, left) = map_ok-eq-ok (λ q. q.0) (Mint.mint tokens env to w) h in
      subst (KeepsFlags w) left (mint-KeepsFlags env to w done)
  only_factory_governs env view (PairCall.deposit_lp from amount) w s e f h = ground arith
  only_factory_governs env view (PairCall.burn to) w s e f h =
      let (r, done, left) = map_ok-eq-ok (λ q. q.0) (Burn.burn tokens env to w) h in
      subst (KeepsFlags w) left (burn-KeepsFlags env to w done)
  only_factory_governs env view (PairCall.mint_with_one_token to token_in amount min_lp_out) w s e f
        h =
      let (r, done, left) =
        map_ok-eq-ok (λ q. q.0)
          (Single.mint_with_one_token tokens env view to token_in amount min_lp_out w) h in
      subst (KeepsFlags w) left
        (mint_with_one_token-KeepsFlags env view to token_in amount min_lp_out w done)
  only_factory_governs env view (PairCall.burn_single_side to lp_amount preferred min_out) w s e f
        h =
      let (r, done, left) =
        map_ok-eq-ok (λ q. q.0)
          (Single.burn_single_side tokens env to lp_amount preferred min_out w) h in
      subst (KeepsFlags w) left
        (burn_single_side-KeepsFlags env to lp_amount preferred min_out w done)
  only_factory_governs env view (PairCall.swap a b to) w s e f h =
      swap-KeepsFlags env view a b to w h
  only_factory_governs env view (PairCall.flash_loan receiver a b len) w s e f h =
      flash_loan-KeepsFlags env receiver a b len w h
  only_factory_governs env view PairCall.sync w s e f h = ground arith
  only_factory_governs env view (PairCall.set_stale_threshold n) w s e f h = ground arith
  only_factory_governs env view (PairCall.set_lp_token_paused b) w s e f h = ground arith
  only_factory_governs env view (PairCall.set_frozen b) w s e f h = ground arith
