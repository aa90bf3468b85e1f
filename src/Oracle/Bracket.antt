-- ===== src/Oracle/Bracket.antt =====
-- The samples of the ring around a ledger.
use coralswap_core.Prelude.{
  Bool-cases, List, [], ap, arith, get_elem?, if◌then◌else◌, inl, inr, leb, length, ltb, refl, some,
  suc, sym, zero, ℕ, ◌%◌, ◌+◌, ◌-◌, ◌<◌, ◌==◌, ◌∙◌, ◌∷◌, ◌≡◌, ◌≤◌, ◌⊎◌,
}
use coralswap_core.Oracle.{Observations, Sample, sample}
use coralswap_core.Oracle.Ring.{IsRing}

get_elem?-some {ℓ} :
    {A : Type ℓ} (xs : List A) (i : ℕ) → i < length xs → (x : A) × (get_elem? xs i ≡ some x)
get_elem?-some [] i h = absurd (omega arith)
get_elem?-some (x ∷ xs) zero h = (x, refl)
get_elem?-some (x ∷ xs) (suc i) h = get_elem?-some xs i (omega arith)

pub sample-some :
    (s : Observations) (i : ℕ) → IsRing s → i < s.count → (x : Sample) × (sample s i ≡ some x)
unfolding sample
sample-some s i r h =
    let live = r.live_fit in
    let slots = r.slots_fit in
    let fits : (s.head + i) % 24 < length s.slots = elim (Bool-cases (ltb (length s.slots) 24)) [
      | inl short ↦ let k = r.no_wrap (ground arith) in omega arith
      | inr full ↦ let k : length s.slots ≡ 24 = ground arith in omega arith
    ] in
    let (x, e) = get_elem?-some s.slots ((s.head + i) % 24) fits in (x, ground arith)

-- `last` is the first sample from `i` on that is not before the target, and `first` is the same
-- one, where its ledger is the target, or the sample just before it.
pub record IsBracket (i target : ℕ) (s : Observations) (first last : Sample) : Type 0 where
  pub index : ℕ
  pub from : i ≤ index
  pub last_at : sample s index ≡ some last
  pub not_before : target ≤ last.at_ledger
  pub not_after : first.at_ledger ≤ target
  pub earlier :
      (j : ℕ) (y : Sample) → i ≤ j → j < index → sample s j ≡ some y → y.at_ledger < target
  pub adjacent :
      ((first ≡ last) × (last.at_ledger ≡ target))
      ⊎ ((0 < index) × (sample s (index - 1) ≡ some first))

-- No sample from `i` on reaches the target.
abbrev pub AllBefore : ℕ → ℕ → Observations → Type 0
AllBefore i target s = (j : ℕ) (y : Sample) → i ≤ j → sample s j ≡ some y → y.at_ledger < target

pub sample-bound : (s : Observations) (i : ℕ) {x : Sample} → sample s i ≡ some x → i < s.count
unfolding sample
sample-bound s i h = ground arith

-- A sample that two indices name is before the target if the one at the first index is.
same_before :
    (s : Observations) (i j target : ℕ) (x y : Sample)
    → sample s i ≡ some x
    → sample s j ≡ some y
    → i ≡ j
    → x.at_ledger < target
    → y.at_ledger < target
same_before s i j target x y at_i at_j same before =
    let at_i' : sample s j ≡ some x = ap (sample s) (sym same) ∙ at_i in ground arith

pub found-IsBracket :
    (i target : ℕ) (s : Observations) (first x : Sample)
    → first.at_ledger < target
    → sample s i ≡ some first
    → sample s (i + 1) ≡ some x
    → target ≤ x.at_ledger
    → IsBracket (i + 1) target s (if leb x.at_ledger target then x else first) x
found-IsBracket i target s first x hf at_first at_x reached = record {
  index = i + 1;
  from = omega arith;
  last_at = at_x;
  not_before = reached;
  not_after = ground arith;
  earlier = λ j y low high at_j. absurd (omega arith);
  adjacent = elim (Bool-cases (leb x.at_ledger target)) [
    | inl equal ↦ inl (ground arith, ground arith)
    | inr after ↦
        let same : i + 1 - 1 ≡ i = omega arith in
        inr (omega arith, rw after (ap (sample s) same ∙ at_first))
  ];
}

wider-IsBracket :
    (i target : ℕ) (s : Observations) (first last x : Sample)
    → sample s i ≡ some x
    → x.at_ledger < target
    → IsBracket (i + 1) target s first last
    → IsBracket i target s first last
wider-IsBracket i target s first last x at_x before b = record {
  index = b.index;
  from = let low = b.from in omega arith;
  last_at = b.last_at;
  not_before = b.not_before;
  not_after = b.not_after;
  earlier = λ j y low high at_j. elim (Bool-cases (j == i)) [
    | inl here ↦ same_before s i j target x y at_x at_j (ground arith) before
    | inr later ↦ b.earlier j y (ground arith) high at_j
  ];
  adjacent = b.adjacent;
}

wider-AllBefore :
    (i target : ℕ) (s : Observations) (x : Sample)
    → sample s i ≡ some x
    → x.at_ledger < target
    → AllBefore (i + 1) target s
    → AllBefore i target s
wider-AllBefore i target s x at_x before all j y low at_j = elim (Bool-cases (j == i)) [
  | inl here ↦ same_before s i j target x y at_x at_j (ground arith) before
  | inr later ↦ all j y (ground arith) at_j
]

-- Either way of ending, from one index earlier.
pub wider :
    (i target : ℕ) (s : Observations) (first last x : Sample)
    → sample s i ≡ some x
    → x.at_ledger < target
    → IsBracket (i + 1) target s first last ⊎ AllBefore (i + 1) target s
    → IsBracket i target s first last ⊎ AllBefore i target s
wider i target s first last x at_x before (inl b) =
    inl (wider-IsBracket i target s first last x at_x before b)
wider i target s first last x at_x before (inr all) =
    inr (wider-AllBefore i target s x at_x before all)
