-- ===== src/Pair/Staging.antt =====
-- The LP that users stage for a burn (`Pair::deposit_lp`, `Pair::burn` of contracts/pair/src/lib.rs).
use coralswap_core.Pair.Admin
use coralswap_core.Pair.Burn
use coralswap_core.Pair.Flash
use coralswap_core.Pair.Mint
use coralswap_core.Pair.Single
use coralswap_core.Pair.Swap
use coralswap_core.Prelude.{Option, arith, inl, inr, subst, sym, true, ℕ, ◌≡◌}
use coralswap_core.Balances.{IsNodup, read, sum}
use coralswap_core.Balances.Laws.{sum-write, write-IsNodup}
use coralswap_core.Env.{Address, Env}
use coralswap_core.Int.{pos, ℤ, ◌+ℤ◌}
use coralswap_core.Int.Laws.{checked_add_lem, checked_sub_lem, int_laws}
use coralswap_core.LpToken.{LpToken}
use coralswap_core.Outcome.{Outcome-cases, ok}
use coralswap_core.Pair.Burn.{clear_pending}
use coralswap_core.Pair.Calls.{PairCall, map_ok-eq-ok, pair_step}
use coralswap_core.Pair.Flash.{FlashCall}
use coralswap_core.Pair.SingleRun.{mint_with_one_token-run}
use coralswap_core.Pair.State.{FactoryView, Store, TokenClient, World, acquire, set_locked}

-- The pair holds as staged the sum of what its users have staged, each listed once.
abbrev pub IsStaged : Store → Type 0
IsStaged store = (store.pending_lp_total ≡ sum store.pending_lp) × IsNodup store.pending_lp

clear_pending-IsStaged :
    (to : Address) (store : Store) {store' : Store}
    → IsStaged store
    → clear_pending to (read to store.pending_lp) store.pending_lp_total store ≡ ok store'
    → IsStaged store'
unfolding clear_pending
clear_pending-IsStaged to store (total, n) h =
    let old = read to store.pending_lp in
    (
      grind (
        int_laws,
        checked_sub_lem store.pending_lp_total old,
        sum-write to (pos 0) store.pending_lp,
      ),
      grind (int_laws, write-IsNodup to (pos 0) store.pending_lp n),
    )

module _ {T : Type 0} (tokens : TokenClient T) where
  deposit_lp-IsStaged :
      (env : Env) (from : Address) (amount : ℤ) (w : World T) {w' : World T}
      → IsStaged w.store
      → Burn.deposit_lp env from amount w ≡ ok w'
      → IsStaged w'.store
  unfolding Burn.deposit_lp acquire
  deposit_lp-IsStaged env from amount w (total, n) h =
      let m = w.store.pending_lp in
      let old = read from m in
      (
        grind (
          int_laws,
          checked_add_lem old amount,
          checked_add_lem w.store.pending_lp_total amount,
          sum-write from (old +ℤ amount) m,
        ),
        grind (int_laws, checked_add_lem old amount, write-IsNodup from (old +ℤ amount) m n),
      )

  burn-IsStaged :
      (env : Env) (to : Address) (w : World T) {r : World T × ℤ × ℤ}
      → IsStaged w.store
      → Burn.burn tokens env to w ≡ ok r
      → IsStaged r.0.store
  unfolding Burn.burn acquire
  burn-IsStaged env to w {r} n h =
      let store = (set_locked true w).store in
      elim (Outcome-cases
        (clear_pending to (read to store.pending_lp) store.pending_lp_total store)) [
          | inl (s, e) ↦
              let (total, nodup) = clear_pending-IsStaged to store n e in
              let same : (r.0.store.pending_lp_total ≡ s.pending_lp_total)
                  × (r.0.store.pending_lp ≡ s.pending_lp) =
                ground arith in
              (cc, subst IsNodup (sym same.1) nodup)
          | inr (inl (x, e)) ↦ absurd (ground arith)
          | inr (inr e) ↦ absurd (ground arith)
        ]

  -- What a call leaves of the staged LP.
  abbrev SameStaging : World T → World T → Type 0
  SameStaging w w' =
      (w'.store.pending_lp_total ≡ w.store.pending_lp_total)
      × (w'.store.pending_lp ≡ w.store.pending_lp)

  kept-IsStaged : (w w' : World T) → SameStaging w w' → IsStaged w.store → IsStaged w'.store
  kept-IsStaged w w' (same_total, same) (total, nodup) = (cc, subst IsNodup (sym same) nodup)

  swap-SameStaging :
      (env : Env) (view : FactoryView) (a b : ℤ) (to : Address) (w : World T) {w' : World T}
      → Swap.swap tokens env view a b to w ≡ ok w'
      → SameStaging w w'
  unfolding Swap.swap Swap.swap_inner acquire Swap.record_protocol_fee
  swap-SameStaging env view a b to w h = ground arith

  swap_inner-SameStaging :
      (env : Env) (view : FactoryView) (a b : ℤ) (to : Address) (w : World T) {w' : World T}
      → Swap.swap_inner tokens env view a b to w ≡ ok w'
      → SameStaging w w'
  unfolding Swap.swap_inner Swap.record_protocol_fee
  swap_inner-SameStaging env view a b to w h = ground arith

  issue_lp-SameStaging :
      (env : Env) (to : Address) (a b min_lp_out : ℤ) (w : World T) {r : World T × ℤ}
      → Single.issue_lp tokens env to a b min_lp_out w ≡ ok r
      → SameStaging w r.0
  unfolding Single.issue_lp
  issue_lp-SameStaging env to a b min_lp_out w h = ground arith

  mint_with_one_token-SameStaging :
      (env : Env) (view : FactoryView) (to token_in : Address) (amount min_lp_out : ℤ) (w : World T)
      {r : World T × ℤ}
      → Single.mint_with_one_token tokens env view to token_in amount min_lp_out w ≡ ok r
      → SameStaging w r.0
  mint_with_one_token-SameStaging env view to token_in amount min_lp_out w h =
      let done = mint_with_one_token-run tokens env view to token_in amount min_lp_out w h in
      let start = record (set_locked true w) { ledger = done.pulled } in
      let a =
        swap_inner-SameStaging env view done.out_a done.out_b env.contract start done.swap_done in
      let b =
        issue_lp-SameStaging env to done.deposit_a done.deposit_b min_lp_out done.swapped
          done.issue_done in
      let e = done.result in (cc, cc)

  burn_single_side-SameStaging :
      (env : Env) (to : Address) (lp_amount : ℤ) (preferred : Address) (min_out : ℤ) (w : World T)
      {r : World T × ℤ}
      → Single.burn_single_side tokens env to lp_amount preferred min_out w ≡ ok r
      → SameStaging w r.0
  unfolding Single.burn_single_side acquire
  burn_single_side-SameStaging env to lp_amount preferred min_out w h = ground arith

  mint-SameStaging :
      (env : Env) (to : Address) (w : World T) {r : World T × ℤ}
      → Mint.mint tokens env to w ≡ ok r
      → SameStaging w r.0
  unfolding Mint.mint acquire
  mint-SameStaging env to w h = ground arith

  module _ (on_flash_loan : FlashCall → LpToken × T → Option (LpToken × T)) where
    flash_loan-SameStaging :
        (env : Env) (receiver : Address) (a b : ℤ) (len : ℕ) (w : World T) {w' : World T}
        → Flash.flash_loan tokens on_flash_loan env receiver a b len w ≡ ok w'
        → SameStaging w w'
    unfolding Flash.flash_loan Flash.execute_flash_loan Flash.lend acquire
    flash_loan-SameStaging env receiver a b len w h = ground arith

    -- No call of an initialized pair breaks the account of the staged LP: the pair's total stays the
    -- sum of what its users have staged, and no user is listed twice.
    pub staging_is_kept :
        (env : Env) (view : FactoryView) (call : PairCall) (w : World T) {w' : World T}
        → IsStaged w.store
        → pair_step tokens on_flash_loan env view call w ≡ ok w'
        → IsStaged w'.store
    unfolding pair_step Admin.sync Admin.set_stale_threshold Admin.set_lp_token_paused
        Admin.set_frozen acquire
    staging_is_kept env view (PairCall.mint to) w n h =
        let (r, done, left) = map_ok-eq-ok (λ q. q.0) (Mint.mint tokens env to w) h in
        subst (λ (x : World T). IsStaged x.store) left
          (kept-IsStaged w r.0 (mint-SameStaging env to w done) n)
    staging_is_kept env view (PairCall.deposit_lp from amount) w n h =
        deposit_lp-IsStaged env from amount w n h
    staging_is_kept env view (PairCall.burn to) w n h =
        let (r, done, left) = map_ok-eq-ok (λ q. q.0) (Burn.burn tokens env to w) h in
        subst (λ (x : World T). IsStaged x.store) left (burn-IsStaged env to w n done)
    staging_is_kept env view (PairCall.mint_with_one_token to token_in amount min_lp_out) w n h =
        let (r, done, left) =
          map_ok-eq-ok (λ q. q.0)
            (Single.mint_with_one_token tokens env view to token_in amount min_lp_out w) h in
        subst (λ (x : World T). IsStaged x.store) left
          (kept-IsStaged w r.0
            (mint_with_one_token-SameStaging env view to token_in amount min_lp_out w done) n)
    staging_is_kept env view (PairCall.burn_single_side to lp_amount preferred min_out) w n h =
        let (r, done, left) =
          map_ok-eq-ok (λ q. q.0)
            (Single.burn_single_side tokens env to lp_amount preferred min_out w) h in
        subst (λ (x : World T). IsStaged x.store) left
          (kept-IsStaged w r.0
            (burn_single_side-SameStaging env to lp_amount preferred min_out w done) n)
    staging_is_kept env view (PairCall.swap a b to) w {w'} n h =
        kept-IsStaged w w' (swap-SameStaging env view a b to w h) n
    staging_is_kept env view (PairCall.flash_loan receiver a b len) w {w'} n h =
        kept-IsStaged w w' (flash_loan-SameStaging env receiver a b len w h) n
    staging_is_kept env view PairCall.sync w {w'} n h = kept-IsStaged w w' (ground arith) n
    staging_is_kept env view (PairCall.set_stale_threshold k) w {w'} n h =
        kept-IsStaged w w' (ground arith) n
    staging_is_kept env view (PairCall.set_lp_token_paused b) w {w'} n h =
        kept-IsStaged w w' (ground arith) n
    staging_is_kept env view (PairCall.set_frozen b) w {w'} n h =
        kept-IsStaged w w' (ground arith) n
