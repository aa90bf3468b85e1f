-- ===== src/Router/Commits.antt =====
-- Committed swaps: commit, reveal, pruning and the bounds (contracts/router/src/lib.rs).
use coralswap_core.Prelude.{
  Bool, List, false, if◌then◌else◌, leb, ltb, min, none, not, some, true, ℕ, ◌&&◌, ◌++◌, ◌+◌, ◌-◌,
  ◌==◌, ◌^◌, ◌||◌,
}
use coralswap_core.Env.{Address, Env}
use coralswap_core.Errors.{RouterError}
use coralswap_core.Host.{Crypto, be_bytes, bits_i128}
use coralswap_core.Int.{ℤ}
use coralswap_core.Outcome.{Outcome, ok, ok_or, raise_if, require, ◌>>=◌, ◌>>◌}
use coralswap_core.Router.BestPath.{get_best_path}
use coralswap_core.Router.State.{
  CommitEntry, Network, RouterStore, RouterWorld, clear_commit, get_commit, is_equal, set_commit,
}
use coralswap_core.Router.Swaps.{swap_exact_tokens_multi_hop}

-- `a.saturating_add(b)` of type `u32`.
abbrev pub saturating_add_u32 : ℕ → ℕ → ℕ
saturating_add_u32 a b = min (a + b) (2 ^ 32 - 1)

abbrev pub max_commits_hard_cap : ℕ
max_commits_hard_cap = 1_000

abbrev pub commit_expiry_hard_cap : ℕ
commit_expiry_hard_cap = 518_400

-- Whether a commit is past its window.
abbrev pub is_expired : Env → RouterStore → CommitEntry → Bool
is_expired env s e = ltb (saturating_add_u32 e.ledger s.commit_config.expiry_ledgers) env.sequence

abbrev pub free_commit : Address → RouterStore → RouterStore
free_commit sender s = record s {
  commit = clear_commit sender s.commit;
  commit_count = s.commit_count - 1;
}

-- A sender without a commit takes a slot; one whose commit has expired needs a free slot too, but
-- takes none.
unfoldable pub commit_swap : Env → Address → List ℕ → RouterStore → Outcome RouterError RouterStore
commit_swap env sender hash s = do
  require (env.authorized sender)
  let stored = record s {
    commit = set_commit sender (record { hash = hash; ledger = env.sequence }) s.commit;
  }
  let is_full = leb s.commit_config.max_commits s.commit_count
  elim (get_commit sender s.commit) [
    | none ↦ do
      raise_if is_full RouterError.too_many_commits
      ok (record stored { commit_count = saturating_add_u32 s.commit_count 1 })
    | some e ↦ do raise_if (is_expired env s e && is_full) RouterError.too_many_commits; ok stored
  ]

-- Whether a slot was freed, and the storage after it.
unfoldable pub prune_expired_commit : Env → Address → RouterStore → Bool × RouterStore
prune_expired_commit env sender s = elim (get_commit sender s.commit) [
  | none ↦ (false, s)
  | some e ↦ if is_expired env s e then (true, free_commit sender s) else (false, s)
]

module _ (crypto : Crypto) where
  unfoldable pub swap_message : Address → Address → Address → ℤ → ℤ → ℕ → List ℕ → List ℕ
  swap_message sender token_in token_out amount_in min_out nonce salt =
      crypto.to_xdr sender
      ++ (crypto.to_xdr token_in
          ++ (crypto.to_xdr token_out
              ++ (be_bytes 16 (bits_i128 amount_in)
                  ++ (be_bytes 16 (bits_i128 min_out) ++ (be_bytes 8 nonce ++ salt)))))

  abbrev pub compute_swap_hash : Address → Address → Address → ℤ → ℤ → ℕ → List ℕ → List ℕ
  compute_swap_hash sender token_in token_out amount_in min_out nonce salt =
      crypto.sha256 (swap_message sender token_in token_out amount_in min_out nonce salt)

  -- The first part of `reveal_swap`. It clears the slot of an expired commit too, but the host drops
  -- that write with the error.
  unfoldable pub open_commit :
      Env
      → Address
      → Address
      → Address
      → ℤ
      → ℤ
      → ℕ
      → List ℕ
      → RouterStore
      → Outcome RouterError RouterStore
  unfolding swap_message
  open_commit env sender token_in token_out amount_in min_out nonce salt s = do
    entry ← ok_or (get_commit sender s.commit) RouterError.commit_not_found
    raise_if (leb env.sequence entry.ledger) RouterError.commit_reveal_too_early
    raise_if (is_expired env s entry) RouterError.commit_expired
    raise_if (s.nonce_used sender nonce) RouterError.nonce_already_used
    let computed = compute_swap_hash sender token_in token_out amount_in min_out nonce salt
    raise_if (not (is_equal computed entry.hash)) RouterError.commit_hash_mismatch
    let freed = free_commit sender s
    ok (record freed { nonce_used = λ a k. a == sender && k == nonce || s.nonce_used a k })

  unfoldable pub reveal_swap :
      {W : Type 0}
      → Network W
      → Env
      → Address
      → Address
      → Address
      → ℤ
      → ℤ
      → ℕ
      → List ℕ
      → RouterWorld W
      → Outcome RouterError (ℤ × RouterWorld W)
  unfolding open_commit get_best_path swap_exact_tokens_multi_hop
  reveal_swap n env sender token_in token_out amount_in min_out nonce salt w = do
    store ← open_commit env sender token_in token_out amount_in min_out nonce salt w.store
    let opened = record w { store = store }
    (path, out) ← get_best_path n token_in token_out amount_in opened
    swap_exact_tokens_multi_hop n env path amount_in min_out sender (2 ^ 64 - 1) none opened
