-- ===== src/Router/Expired.antt =====
-- The slot of a commit that has expired.
use coralswap_core.Prelude.{
  Bool-cases, List, [], ap, inl, inr, leb, min, refl, some, true, ℕ, ◌∷◌, ◌≡◌,
}
use coralswap_core.Env.{Address, Env}
use coralswap_core.Host.{Crypto}
use coralswap_core.Int.{ℤ}
use coralswap_core.Router.Calls.{RouterCall, router_run, router_step, settled}
use coralswap_core.Router.Commits.{
  free_commit, is_expired, open_commit, prune_expired_commit, reveal_swap,
}
use coralswap_core.Router.State.{CommitEntry, Network, RouterStore, RouterWorld, get_commit}

module _ {W : Type 0} (crypto : Crypto) (n : Network W) where
  expired_reveal :
      (env : Env) (sender a b : Address) (x min : ℤ) (nonce : ℕ) (salt : List ℕ) (w : RouterWorld W)
      (e : CommitEntry)
      → get_commit sender w.store.commit ≡ some e
      → is_expired env w.store e ≡ true
      → settled crypto n
          (router_step crypto n env (RouterCall.reveal_swap sender a b x min nonce salt) w)
          w
        ≡ w
  unfolding router_step reveal_swap open_commit
  expired_reveal env sender a b x min nonce salt w e found expired =
      elim (Bool-cases (leb env.sequence e.ledger)) [
        | inl early ↦ (rw (found, early) refl)
        | inr ready ↦ (rw (found, ready, expired) refl)
      ]

  expired_prune :
      (env : Env) (sender : Address) (w : RouterWorld W) (e : CommitEntry)
      → get_commit sender w.store.commit ≡ some e
      → is_expired env w.store e ≡ true
      → settled crypto n (router_step crypto n env (RouterCall.prune_expired_commit sender) w) w
        ≡ record w { store = free_commit sender w.store }
  unfolding router_step prune_expired_commit
  expired_prune env sender w e found expired =
      let freed : (prune_expired_commit env sender w.store).1 ≡ free_commit sender w.store =
        (rw (prune_expired_commit, found, expired) refl) in
      ap (λ (s : RouterStore). record w { store = s }) freed

  -- A reveal of a commit that has expired leaves the whole state as it was, its slot included: the
  -- removal that it starts with is dropped with its error. A call of `prune_expired_commit`, by
  -- anybody, does remove the commit and count its slot down.
  pub expired_slot_needs_prune :
      (env : Env) (sender a b : Address) (x min : ℤ) (nonce : ℕ) (salt : List ℕ) (w : RouterWorld W)
      (e : CommitEntry)
      → get_commit sender w.store.commit ≡ some e
      → is_expired env w.store e ≡ true
      → (router_run crypto n ((env, RouterCall.reveal_swap sender a b x min nonce salt) ∷ []) w ≡ w)
        × (router_run crypto n ((env, RouterCall.prune_expired_commit sender) ∷ []) w
            ≡ record w { store = free_commit sender w.store })
  unfolding router_run
  expired_slot_needs_prune env sender a b x min nonce salt w e found expired = (
    expired_reveal env sender a b x min nonce salt w e found expired,
    expired_prune env sender w e found expired,
  )
