-- ===== src/Pair/Calls.antt =====
-- One step of an initialized pair, whichever call it is (contracts/pair/src/lib.rs).
use coralswap_core.Pair.Admin
use coralswap_core.Pair.Burn
use coralswap_core.Pair.Flash
use coralswap_core.Pair.Mint
use coralswap_core.Pair.Single
use coralswap_core.Pair.Swap
use coralswap_core.Prelude.{Bool, Option, refl, ℕ, ◌≡◌}
use coralswap_core.Env.{Address, Env}
use coralswap_core.Errors.{PairError}
use coralswap_core.Int.{ℤ}
use coralswap_core.LpToken.{LpToken}
use coralswap_core.Outcome.{Outcome, err, ok, trap}
use coralswap_core.Pair.Flash.{FlashCall}
use coralswap_core.Pair.State.{FactoryView, Store, TokenClient, World}

pub data PairCall : Type 0 where
  mint : Address → PairCall
  deposit_lp : Address → ℤ → PairCall
  burn : Address → PairCall
  mint_with_one_token : Address → Address → ℤ → ℤ → PairCall
  burn_single_side : Address → ℤ → Address → ℤ → PairCall
  swap : ℤ → ℤ → Address → PairCall
  flash_loan : Address → ℤ → ℤ → ℕ → PairCall
  sync : PairCall
  set_stale_threshold : ℕ → PairCall
  set_lp_token_paused : Bool → PairCall
  set_frozen : Bool → PairCall

-- The state that a call leaves, without the amounts that it returns.
abbrev pub map_ok : {A B : Type 0} → (A → B) → Outcome PairError A → Outcome PairError B
map_ok f (ok a) = ok (f a)
map_ok f (err e) = err e
map_ok f trap = trap

pub map_ok-eq-ok :
    {A B : Type 0} (f : A → B) (m : Outcome PairError A) {b : B}
    → map_ok f m ≡ ok b
    → (a : A) × (m ≡ ok a) × (f a ≡ b)
map_ok-eq-ok f (ok a) h = (a, refl, cc)
map_ok-eq-ok f (err e) h = cc
map_ok-eq-ok f trap h = cc

-- A call that writes only the pair's own storage.
abbrev pub on_store : {T : Type 0} → World T → Outcome PairError Store → Outcome PairError (World T)
on_store w (ok store) = ok (record w { store = store })
on_store w (err e) = err e
on_store w trap = trap

module _ {T : Type 0} (tokens : TokenClient T)
    (on_flash_loan : FlashCall → LpToken × T → Option (LpToken × T)) where
  unfoldable pub pair_step : Env → FactoryView → PairCall → World T → Outcome PairError (World T)
  pair_step env view (PairCall.mint to) w = map_ok (λ r. r.0) (Mint.mint tokens env to w)
  pair_step env view (PairCall.deposit_lp from amount) w = Burn.deposit_lp env from amount w
  pair_step env view (PairCall.burn to) w = map_ok (λ r. r.0) (Burn.burn tokens env to w)
  pair_step env view (PairCall.mint_with_one_token to token_in amount min_lp_out) w =
      map_ok (λ r. r.0) (Single.mint_with_one_token tokens env view to token_in amount min_lp_out w)
  pair_step env view (PairCall.burn_single_side to lp_amount preferred min_out) w =
      map_ok (λ r. r.0) (Single.burn_single_side tokens env to lp_amount preferred min_out w)
  pair_step env view (PairCall.swap a b to) w = Swap.swap tokens env view a b to w
  pair_step env view (PairCall.flash_loan receiver a b len) w =
      Flash.flash_loan tokens on_flash_loan env receiver a b len w
  pair_step env view PairCall.sync w = Admin.sync tokens env w
  pair_step env view (PairCall.set_stale_threshold n) w =
      on_store w (Admin.set_stale_threshold env n w.store)
  pair_step env view (PairCall.set_lp_token_paused b) w = Admin.set_lp_token_paused env b w
  pair_step env view (PairCall.set_frozen b) w = on_store w (Admin.set_frozen env b w.store)
