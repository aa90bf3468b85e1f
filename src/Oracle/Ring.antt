-- ===== src/Oracle/Ring.antt =====
-- The ring of samples is a queue of bounded length.
use coralswap_core.Prelude.{
  List, [], ap, arith, get_elem?, if◌then◌else◌, length, ltb, refl, set, some, suc, zero, ℕ, ◌%◌,
  ◌++◌, ◌+◌, ◌<◌, ◌==◌, ◌∷◌, ◌≡◌, ◌≤◌,
}
use coralswap_core.Oracle.{Observations, Sample, push, sample}

-- The live samples lie within the slots, and without a wrap while the slots are not all in use.
pub record IsRing (s : Observations) : Type 0 where
  pub slots_fit : length s.slots ≤ 24
  pub live_fit : s.count ≤ length s.slots
  pub head_fits : s.head < 24
  pub no_wrap : length s.slots < 24 → s.head + s.count ≤ length s.slots

module _ {ℓ} {A : Type ℓ} where
  length-set : (xs : List A) (i : ℕ) (v : A) → length (set xs i v) ≡ length xs
  length-set [] i v = refl
  length-set (x ∷ xs) zero v = refl
  length-set (x ∷ xs) (suc i) v = ap suc (length-set xs i v)

  length-++-one : (xs : List A) (v : A) → length (xs ++ v ∷ []) ≡ length xs + 1
  length-++-one [] v = refl
  length-++-one (x ∷ xs) v = let ih = length-++-one xs v in ground arith

  get_elem?-set :
      (xs : List A) (i j : ℕ) (v : A)
      → i < length xs
      → get_elem? (set xs i v) j ≡ (if i == j then some v else get_elem? xs j)
  get_elem?-set [] i j v h = absurd (omega arith)
  get_elem?-set (x ∷ xs) zero zero v h = refl
  get_elem?-set (x ∷ xs) zero (suc j) v h = ground arith
  get_elem?-set (x ∷ xs) (suc i) zero v h = ground arith
  get_elem?-set (x ∷ xs) (suc i) (suc j) v h =
      let ih = get_elem?-set xs i j v (omega arith) in ground arith

  get_elem?-++ :
      (xs : List A) (j : ℕ) (v : A)
      → get_elem? (xs ++ v ∷ []) j ≡ (if j == length xs then some v else get_elem? xs j)
  get_elem?-++ [] zero v = refl
  get_elem?-++ [] (suc j) v = ground arith
  get_elem?-++ (x ∷ xs) zero v = ground arith
  get_elem?-++ (x ∷ xs) (suc j) v = let ih = get_elem?-++ xs j v in ground arith

pub push-IsRing : (x : Sample) (s : Observations) → IsRing s → IsRing (push x s)
unfolding push
push-IsRing x s r =
    let index = (s.head + s.count) % 24 in
    let kept = length-set s.slots index x in
    let kept_head = length-set s.slots s.head x in
    let longer = length-++-one s.slots x in
    record {
      slots_fit = ground (arith, kept, kept_head, longer);
      live_fit = ground (arith, kept, kept_head, longer);
      head_fits = ground arith;
      no_wrap = ground (arith, kept, kept_head, longer);
    }

-- A new sample becomes the newest; the others keep their order, and only a full ring loses one, the
-- oldest.
pub push_is_enqueue :
    (x : Sample) (s : Observations) (i : ℕ)
    → IsRing s
    → IsRing (push x s)
      × (sample (push x s) i ≡ (
          if ltb s.count 24
          then (if i == s.count then some x else sample s i)
          else (if i == 23 then some x else sample s (i + 1))))
unfolding push sample
push_is_enqueue x s i r = (
  push-IsRing x s r,
  let index = (s.head + s.count) % 24 in
      let at_new = (s.head + i) % 24 in
      let at_next = (s.head + 1) % 24 in
      ground (
        arith,
        get_elem?-set s.slots index at_new x,
        get_elem?-set s.slots s.head ((at_next + i) % 24) x,
        get_elem?-++ s.slots at_new x,
      ),
)
