-- ===== src/Router/Slots.antt =====
-- The commits as a table: writes and removals.
use coralswap_core.Prelude.{
  ==_iff, Bool-cases, List, [], ap, arith, inl, inr, length, none, refl, some, some-injective,
  subst, suc, sym, ◌==◌, ◌∷◌, ◌≡◌,
}
use coralswap_core.Env.{Address}
use coralswap_core.Router.State.{CommitEntry, clear_commit, get_commit, set_commit}

-- A claim on every entry.
pub data Every (P : Address → CommitEntry → Type 0) : List (Address × CommitEntry) → Type 0 where
  nobody : Every P []
  entry :
      (a : Address) (e : CommitEntry) (m : List (Address × CommitEntry))
      → P a e
      → Every P m
      → Every P ((a, e) ∷ m)

pub Every-map :
    {P Q : Address → CommitEntry → Type 0} (m : List (Address × CommitEntry))
    → ((a : Address) (e : CommitEntry) → P a e → Q a e)
    → Every P m
    → Every Q m
Every-map m f nobody = nobody
Every-map m f (entry a e m' p all) = entry a e m' (f a e p) (Every-map m' f all)

pub Every-get :
    {P : Address → CommitEntry → Type 0} (a : Address) (m : List (Address × CommitEntry))
    {e : CommitEntry}
    → Every P m
    → get_commit a m ≡ some e
    → P a e
Every-get a m nobody h = absurd (cc)
Every-get {P} a m {e} (entry k d m' p all) h = elim (Bool-cases (a == k)) [
  | inl same ↦
      let this : d ≡ e = some-injective (rw same at h) in
      subst (λ x. P a x) this (subst (λ x. P x d) (sym ((==_iff a k).0 same)) p)
  | inr other ↦ Every-get a m' all (rw other at h)
]

pub Every-set_commit :
    {P : Address → CommitEntry → Type 0} (a : Address) (e : CommitEntry)
    (m : List (Address × CommitEntry))
    → P a e
    → Every P m
    → Every P (set_commit a e m)
Every-set_commit a e m p nobody = entry a e [] p nobody
Every-set_commit {P} a e m p (entry k d m' q all) = elim (Bool-cases (a == k)) [
  | inl same ↦ (rw same (entry a e m' p all))
  | inr other ↦ (rw other (entry k d (set_commit a e m') q (Every-set_commit a e m' p all)))
]

pub Every-clear_commit :
    {P : Address → CommitEntry → Type 0} (a : Address) (m : List (Address × CommitEntry))
    → Every P m
    → Every P (clear_commit a m)
Every-clear_commit a m nobody = nobody
Every-clear_commit {P} a m (entry k d m' q all) = elim (Bool-cases (a == k)) [
  | inl same ↦ (rw same all)
  | inr other ↦ (rw other (entry k d (clear_commit a m') q (Every-clear_commit a m' all)))
]

pub length-set_commit-new :
    (a : Address) (e : CommitEntry) (m : List (Address × CommitEntry))
    → get_commit a m ≡ none
    → length (set_commit a e m) ≡ suc (length m)
length-set_commit-new a e [] h = refl
length-set_commit-new a e ((k, d) ∷ m) h = elim (Bool-cases (a == k)) [
  | inl same ↦ absurd (ground arith)
  | inr other ↦ let ih = length-set_commit-new a e m (rw other at h) in (rw other (ap suc ih))
]

pub length-set_commit-old :
    (a : Address) (e : CommitEntry) (m : List (Address × CommitEntry)) {d : CommitEntry}
    → get_commit a m ≡ some d
    → length (set_commit a e m) ≡ length m
length-set_commit-old a e [] h = absurd (cc)
length-set_commit-old a e ((k, d) ∷ m) h = elim (Bool-cases (a == k)) [
  | inl same ↦ (rw same refl)
  | inr other ↦ let ih = length-set_commit-old a e m (rw other at h) in (rw other (ap suc ih))
]

pub length-clear_commit :
    (a : Address) (m : List (Address × CommitEntry)) {d : CommitEntry}
    → get_commit a m ≡ some d
    → length m ≡ suc (length (clear_commit a m))
length-clear_commit a [] h = absurd (cc)
length-clear_commit a ((k, d) ∷ m) h = elim (Bool-cases (a == k)) [
  | inl same ↦ (rw same refl)
  | inr other ↦ let ih = length-clear_commit a m (rw other at h) in (rw other (ap suc ih))
]
