-- ===== src/Router/Steps.antt =====
-- The steps of the router's storage, whichever call makes them.
use coralswap_core.Prelude.{
  Bool-cases, List, Option-cases, [], arith, false, inl, inr, leb, ltb, min, none, not, refl, some,
  subst, sym, true, ℕ, ◌&&◌, ◌+◌, ◌<◌, ◌==◌, ◌||◌, ◌∷◌, ◌≡◌, ◌≤◌, ◌⊎◌,
}
use coralswap_core.Env.{Address, Env}
use coralswap_core.Errors.{RouterError}
use coralswap_core.Host.{Crypto}
use coralswap_core.Int.{ℤ}
use coralswap_core.Outcome.{
  >>=-then, ok, ok-injective, ok_or, ok_or-eq-ok, raise_if, raise_if-eq-ok, require, require-eq-ok,
}
use coralswap_core.Router.Admin.{authorize_governance, set_commit_config}
use coralswap_core.Router.Commits.{
  commit_expiry_hard_cap, commit_swap, compute_swap_hash, free_commit, is_expired,
  max_commits_hard_cap, open_commit, prune_expired_commit, saturating_add_u32,
}
use coralswap_core.Router.State.{
  CommitEntry, Network, RouterCommitConfig, RouterStore, RouterWorld, get_commit, is_equal,
  set_commit,
}

-- The configurations that `set_commit_config` takes.
pub record IsAllowed (c : RouterCommitConfig) : Type 0 where
  pub some_commits : 1 ≤ c.max_commits
  pub few_commits : c.max_commits ≤ 1_000
  pub some_ledgers : 1 ≤ c.expiry_ledgers
  pub few_ledgers : c.expiry_ledgers ≤ 518_400

-- A call that leaves the commits as they are.
pub record SameCommits (s s' : RouterStore) : Type 0 where
  pub same_commit : s'.commit ≡ s.commit
  pub same_nonces : s'.nonce_used ≡ s.nonce_used
  pub same_count : s'.commit_count ≡ s.commit_count
  pub config : (s'.commit_config ≡ s.commit_config) ⊎ IsAllowed s'.commit_config

-- What a reveal has checked.
pub record IsOpened (crypto : Crypto) (env : Env) (sender a b : Address) (x min : ℤ) (nonce : ℕ)
    (salt : List ℕ) (s : RouterStore) (e : CommitEntry) : Type 0 where
  pub stored : get_commit sender s.commit ≡ some e
  pub later : e.ledger < env.sequence
  pub in_time : is_expired env s e ≡ false
  pub fresh : s.nonce_used sender nonce ≡ false
  pub hashed : compute_swap_hash crypto sender a b x min nonce salt ≡ e.hash

abbrev pub after_reveal : Address → ℕ → RouterStore → RouterStore
after_reveal sender nonce s = record (free_commit sender s) {
  nonce_used = λ a k. a == sender && k == nonce || s.nonce_used a k;
}

pub not_expired-le :
    (env : Env) (s : RouterStore) (e : CommitEntry)
    → is_expired env s e ≡ false
    → env.sequence ≤ e.ledger + s.commit_config.expiry_ledgers
not_expired-le env s e h = ground arith

is_equal→eq : (xs ys : List ℕ) → is_equal xs ys ≡ true → xs ≡ ys
is_equal→eq [] [] h = refl
is_equal→eq [] (y ∷ ys) h = absurd (cc)
is_equal→eq (x ∷ xs) [] h = absurd (cc)
is_equal→eq (x ∷ xs) (y ∷ ys) h =
    let rest : is_equal xs ys ≡ true = ground arith in
    let first : x ≡ y = ground arith in let ih = is_equal→eq xs ys rest in cc

pub open_commit-eq-ok :
    (crypto : Crypto) (env : Env) (sender a b : Address) (x min : ℤ) (nonce : ℕ) (salt : List ℕ)
    (s : RouterStore) {s' : RouterStore}
    → open_commit crypto env sender a b x min nonce salt s ≡ ok s'
    → (e : CommitEntry) × IsOpened crypto env sender a b x min nonce salt s e
      × (s' ≡ after_reveal sender nonce s)
unfolding open_commit
open_commit-eq-ok crypto env sender a b x min nonce salt s h =
    let computed = compute_swap_hash crypto sender a b x min nonce salt in
    >>=-then (ok_or (get_commit sender s.commit) RouterError.commit_not_found) _ h λ e e0 h0.
      >>=-then (raise_if (leb env.sequence e.ledger) RouterError.commit_reveal_too_early) _ h0
        λ u1 e1 h1.
          >>=-then (raise_if (is_expired env s e) RouterError.commit_expired) _ h1 λ u2 e2 h2.
            >>=-then (raise_if (s.nonce_used sender nonce) RouterError.nonce_already_used) _ h2
              λ u3 e3 h3.
                >>=-then
                  (raise_if (not (is_equal computed e.hash)) RouterError.commit_hash_mismatch) _ h3
                  λ u4 e4 h4.
                    let early = raise_if-eq-ok _ RouterError.commit_reveal_too_early e1 in
                    let equal = raise_if-eq-ok _ RouterError.commit_hash_mismatch e4 in
                    let equal' : is_equal computed e.hash ≡ true = ground arith in
                    (
                      e,
                      record {
                        stored = ok_or-eq-ok _ RouterError.commit_not_found e0;
                        later = ground arith;
                        in_time = raise_if-eq-ok _ RouterError.commit_expired e2;
                        fresh = raise_if-eq-ok _ RouterError.nonce_already_used e3;
                        hashed = is_equal→eq computed e.hash equal';
                      },
                      sym (ok-injective h4),
                    )

-- What taking a slot has checked, or that the sender had one.
abbrev pub Slot : Address → RouterStore → ℕ → Type 0
Slot sender s count =
    ((get_commit sender s.commit ≡ none)
      × (s.commit_count < s.commit_config.max_commits)
      × (count ≡ saturating_add_u32 s.commit_count 1))
    ⊎ ((e : CommitEntry) × (get_commit sender s.commit ≡ some e) × (count ≡ s.commit_count))

-- What `commit_swap` has checked and done.
pub record IsCommit (env : Env) (sender : Address) (hash : List ℕ) (s s' : RouterStore)
    : Type 0 where
  pub authorized : env.authorized sender ≡ true
  pub stored :
      s'.commit ≡ set_commit sender (record { hash = hash; ledger = env.sequence }) s.commit
  pub same_nonces : s'.nonce_used ≡ s.nonce_used
  pub same_config : s'.commit_config ≡ s.commit_config
  pub slot : Slot sender s s'.commit_count

pub commit_swap-eq-ok :
    (env : Env) (sender : Address) (hash : List ℕ) (s : RouterStore) {s' : RouterStore}
    → commit_swap env sender hash s ≡ ok s'
    → IsCommit env sender hash s s'
unfolding commit_swap
commit_swap-eq-ok env sender hash s {s'} h =
    >>=-then (require (env.authorized sender)) _ h λ u e h0.
      let auth = require-eq-ok _ e in
      let is_full = leb s.commit_config.max_commits s.commit_count in
      elim (Option-cases (get_commit sender s.commit)) [
        | inl none_yet ↦
            let run = rw none_yet at h0 in
            >>=-then (raise_if is_full RouterError.too_many_commits) _ run λ v k h1.
              let room = raise_if-eq-ok _ RouterError.too_many_commits k in
              subst (λ (t : RouterStore). IsCommit env sender hash s t) (ok-injective h1)
                (record {
                  authorized = auth;
                  stored = refl;
                  same_nonces = refl;
                  same_config = refl;
                  slot = inl (none_yet, ground arith, refl);
                })
        | inr (old, has_one) ↦
            let run = rw has_one at h0 in
            >>=-then (raise_if (is_expired env s old && is_full) RouterError.too_many_commits) _ run
              λ v k h1.
                subst (λ (t : RouterStore). IsCommit env sender hash s t) (ok-injective h1)
                  (record {
                    authorized = auth;
                    stored = refl;
                    same_nonces = refl;
                    same_config = refl;
                    slot = inr (old, has_one, refl);
                  })
      ]

-- What pruning does: nothing, or it frees the slot of an expired commit.
pub prune-eq :
    (env : Env) (sender : Address) (s : RouterStore)
    → ((prune_expired_commit env sender s).1 ≡ s)
      ⊎ ((e : CommitEntry) × (get_commit sender s.commit ≡ some e)
          × ((prune_expired_commit env sender s).1 ≡ free_commit sender s))
unfolding prune_expired_commit
prune-eq env sender s = elim (Option-cases (get_commit sender s.commit)) [
  | inl none_yet ↦ inl ((rw (prune_expired_commit, none_yet) refl))
  | inr (e, has_one) ↦ elim (Bool-cases (is_expired env s e)) [
    | inl over ↦ inr (e, has_one, (rw (prune_expired_commit, has_one, over) refl))
    | inr not_yet ↦ inl ((rw (prune_expired_commit, has_one, not_yet) refl))
  ]
]

module _ {W : Type 0} (n : Network W) where
  pub set_commit_config-eq-ok :
      (env : Env) (max_commits expiry_ledgers : ℕ) (w : RouterWorld W) {w' : RouterWorld W}
      → set_commit_config n env max_commits expiry_ledgers w ≡ ok w'
      → SameCommits w.store w'.store
  unfolding set_commit_config
  set_commit_config-eq-ok env max_commits expiry_ledgers w h =
      >>=-then (authorize_governance n env w) _ h λ u e h0.
        >>=-then
          (raise_if
            (max_commits == 0
              || ltb max_commits_hard_cap max_commits
              || expiry_ledgers == 0
              || ltb commit_expiry_hard_cap expiry_ledgers)
            RouterError.invalid_commit_config)
          _ h0
          λ v k h1.
            let fits = raise_if-eq-ok _ RouterError.invalid_commit_config k in
            subst (λ (t : RouterWorld W). SameCommits w.store t.store) (ok-injective h1)
              (record {
                same_commit = refl;
                same_nonces = refl;
                same_count = refl;
                config = inr (record {
                  some_commits = ground arith;
                  few_commits = ground arith;
                  some_ledgers = ground arith;
                  few_ledgers = ground arith;
                });
              })
