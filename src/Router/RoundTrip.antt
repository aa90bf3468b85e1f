-- ===== src/Router/RoundTrip.antt =====
-- A commit that is revealed in its window leaves the commits as they were.
use coralswap_core.Prelude.{
  ==_iff, Bool, Bool-cases, List, [], ap, arith, false, inl, inr, leb, min, none, refl, some, subst,
  true, ℕ, ◌&&◌, ◌+◌, ◌-◌, ◌<◌, ◌==◌, ◌^◌, ◌||◌, ◌∙◌, ◌∷◌, ◌≡◌, ◌≤◌,
}
use coralswap_core.Env.{Address, Env}
use coralswap_core.Host.{Crypto}
use coralswap_core.Int.{ℤ}
use coralswap_core.Outcome.{ok, ◌>>=◌}
use coralswap_core.Router.Bounded.{IsBounded}
use coralswap_core.Router.Commits.{commit_swap, compute_swap_hash, open_commit, saturating_add_u32}
use coralswap_core.Router.State.{
  CommitEntry, RouterStore, clear_commit, get_commit, is_equal, set_commit,
}
use coralswap_core.Router.Steps.{IsOpened, after_reveal}

get-set :
    (a : Address) (e : CommitEntry) (m : List (Address × CommitEntry))
    → get_commit a (set_commit a e m) ≡ some e
get-set a e [] = (rw ((==_iff a a).1 refl) refl)
get-set a e ((k, d) ∷ m) = elim (Bool-cases (a == k)) [
  | inl same ↦ (rw (same, (==_iff a a).1 refl) refl)
  | inr other ↦ let ih = get-set a e m in (rw (other, other) ih)
]

clear-set :
    (a : Address) (e : CommitEntry) (m : List (Address × CommitEntry))
    → get_commit a m ≡ none
    → clear_commit a (set_commit a e m) ≡ m
clear-set a e [] h = (rw ((==_iff a a).1 refl) refl)
clear-set a e ((k, d) ∷ m) h = elim (Bool-cases (a == k)) [
  | inl same ↦ absurd (ground arith)
  | inr other ↦
      let ih = clear-set a e m (rw other at h) in (rw (other, other) (ap (λ t. (k, d) ∷ t) ih))
]

is_equal_refl : (xs : List ℕ) → is_equal xs xs ≡ true
is_equal_refl [] = refl
is_equal_refl (x ∷ xs) = (rw ((==_iff x x).1 refl) (is_equal_refl xs))

committed-eq :
    (env : Env) (sender : Address) (hash : List ℕ) (s : RouterStore)
    → env.authorized sender ≡ true
    → get_commit sender s.commit ≡ none
    → s.commit_count < s.commit_config.max_commits
    → s.commit_count ≤ 1_000
    → commit_swap env sender hash s
      ≡ ok (record s {
        commit = set_commit sender (record { hash = hash; ledger = env.sequence }) s.commit;
        commit_count = s.commit_count + 1;
      })
unfolding commit_swap
committed-eq env sender hash s auth new room few =
    let open_slot : leb s.commit_config.max_commits s.commit_count ≡ false = ground arith in
    let count : saturating_add_u32 s.commit_count 1 ≡ s.commit_count + 1 = ground arith in
    rw (auth, new, open_slot, count) refl

module _ (crypto : Crypto) where
  IsOpened-open_commit :
      (env : Env) (sender a b : Address) (x min : ℤ) (nonce : ℕ) (salt : List ℕ) (s : RouterStore)
      (e : CommitEntry)
      → IsOpened crypto env sender a b x min nonce salt s e
      → open_commit crypto env sender a b x min nonce salt s ≡ ok (after_reveal sender nonce s)
  unfolding open_commit
  IsOpened-open_commit env sender a b x min nonce salt s e o =
      let computed = compute_swap_hash crypto sender a b x min nonce salt in
      let ready : leb env.sequence e.ledger ≡ false = ground arith in
      let equal : is_equal computed e.hash ≡ true =
        subst (λ h. is_equal computed h ≡ true) o.hashed (is_equal_refl computed) in
      rw (o.stored, ready, o.in_time, o.fresh, equal) refl

  -- In a store where the counter agrees with the commits, a sender without a commit, who authorizes
  -- a commit to a swap while a slot is free, has it accepted, and a reveal of that swap with a fresh
  -- nonce passes every check at any later ledger of the window. The two together leave the commits
  -- and their counter as they were, and mark just that nonce as used.
  pub commit_then_reveal :
      (env env' : Env) (sender a b : Address) (x min : ℤ) (nonce : ℕ) (salt : List ℕ)
      (s : RouterStore)
      → IsBounded s
      → env.authorized sender ≡ true
      → get_commit sender s.commit ≡ none
      → s.commit_count < s.commit_config.max_commits
      → s.nonce_used sender nonce ≡ false
      → env.sequence < env'.sequence
      → env'.sequence ≤ env.sequence + s.commit_config.expiry_ledgers
      → env'.sequence < 2 ^ 32
      → (commit_swap env sender (compute_swap_hash crypto sender a b x min nonce salt) s >>= λ t.
          open_commit crypto env' sender a b x min nonce salt t)
        ≡ ok (record s { nonce_used = λ c k. c == sender && k == nonce || s.nonce_used c k })
  commit_then_reveal env env' sender a b x min nonce salt s bounded auth new room fresh later inside
        u32 =
      let hash = compute_swap_hash crypto sender a b x min nonce salt in
      let e : CommitEntry = record { hash = hash; ledger = env.sequence } in
      let t : RouterStore = record s {
        commit = set_commit sender e s.commit;
        commit_count = s.commit_count + 1;
      } in
      let opened : IsOpened crypto env' sender a b x min nonce salt t e = record {
        stored = get-set sender e s.commit;
        later = later;
        in_time = ground arith;
        fresh = fresh;
        hashed = refl;
      } in
      let used : Address → ℕ → Bool = λ c k. c == sender && k == nonce || s.nonce_used c k in
      let freed : s.commit_count + 1 - 1 ≡ s.commit_count = omega arith in
      rw (committed-eq env sender hash s auth new room bounded.capped) (
        IsOpened-open_commit env' sender a b x min nonce salt t e opened
        ∙ ap
            (λ m.
              ok
                (record s { commit = m; commit_count = s.commit_count + 1 - 1; nonce_used = used }))
            (clear-set sender e s.commit new)
        ∙ ap (λ k. ok (record s { commit_count = k; nonce_used = used })) freed)
