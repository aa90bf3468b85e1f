-- ===== src/Factory/Paging.antt =====
-- The pages of `get_all_pairs` are the whole list, each pair once and in order.
use coralswap_core.Prelude.{
  List, [], ap, arith, dec_le, dec_lt, false, get_elem?, le_refl, length, ltb, min, refl, some, suc,
  sym, true, zero, ℕ, ◌*◌, ◌++◌, ◌+◌, ◌-◌, ◌<◌, ◌^◌, ◌∙◌, ◌∷◌, ◌≡◌, ◌≤◌,
}
use coralswap_core.Env.{Address}
use coralswap_core.Errors.{FactoryError}
use coralswap_core.Factory.State.{FactoryStore}
use coralswap_core.Factory.Views.{copy_pairs, get_all_pairs}
use coralswap_core.Int.{fits}
use coralswap_core.Outcome.{Outcome, ok, ◌>>=◌}

abbrev pub take : ℕ → List Address → List Address
take zero xs = []
take (suc n) [] = []
take (suc n) (x ∷ xs) = x ∷ take n xs

abbrev drop : ℕ → List Address → List Address
drop zero xs = xs
drop (suc n) [] = []
drop (suc n) (x ∷ xs) = drop n xs

take_all : (n : ℕ) (xs : List Address) → length xs ≤ n → take n xs ≡ xs
take_all zero [] h = refl
take_all zero (x ∷ xs) h = absurd (omega arith)
take_all (suc n) [] h = refl
take_all (suc n) (x ∷ xs) h = ap (λ t. x ∷ t) (take_all n xs (omega arith))

take_nil : (n : ℕ) → take n [] ≡ []
take_nil zero = refl
take_nil (suc n) = refl

take-drop : (m n : ℕ) (xs : List Address) → take m xs ++ take n (drop m xs) ≡ take (m + n) xs
take-drop zero n xs = let e : n ≡ 0 + n = omega arith in ap (λ k. take k xs) e
take-drop (suc m) n [] = take_nil n ∙ sym (take_nil (suc m + n))
take-drop (suc m) n (x ∷ xs) =
    let e : suc (m + n) ≡ suc m + n = omega arith in
    ap (λ t. x ∷ t) (take-drop m n xs) ∙ ap (λ k. take k (x ∷ xs)) e

drop_none : (n : ℕ) (xs : List Address) → length xs ≤ n → drop n xs ≡ []
drop_none zero [] h = refl
drop_none zero (x ∷ xs) h = absurd (omega arith)
drop_none (suc n) [] h = refl
drop_none (suc n) (x ∷ xs) h = drop_none n xs (omega arith)

take_fewer : (n : ℕ) (xs : List Address) → take (min n (length xs)) xs ≡ take n xs
take_fewer n xs = elim (dec_le n (length xs)) [
  | yes few ↦ let e : min n (length xs) ≡ n = omega arith in ap (λ k. take k xs) e
  | no many ↦
      let e : min n (length xs) ≡ length xs = omega arith in
      ap (λ k. take k xs) e
      ∙ take_all (length xs) xs (le_refl _)
      ∙ sym (take_all n xs (omega arith))
]

drop-next :
    (i : ℕ) (xs : List Address)
    → i < length xs
    → (x : Address) × (get_elem? xs i ≡ some x) × (drop i xs ≡ x ∷ drop (suc i) xs)
drop-next zero [] h = absurd (omega arith)
drop-next zero (x ∷ xs) h = (x, refl, refl)
drop-next (suc i) [] h = absurd (omega arith)
drop-next (suc i) (x ∷ xs) h = drop-next i xs (omega arith)

copy_pairs-drop :
    (xs : List Address) (i count : ℕ)
    → i + count ≤ length xs
    → copy_pairs xs i count ≡ ok (take count (drop i xs))
unfolding copy_pairs
copy_pairs-drop xs i zero h = refl
copy_pairs-drop xs i (suc count) h =
    let (x, found, rest) = drop-next i xs (omega arith) in
    let ih = copy_pairs-drop xs (i + 1) count (omega arith) in
    let step : i + 1 ≡ suc i = omega arith in rw (found, ih, rest, step) refl

length-drop : (n : ℕ) (xs : List Address) → n ≤ length xs → length (drop n xs) ≡ length xs - n
length-drop zero xs h = omega arith
length-drop (suc n) [] h = absurd (omega arith)
length-drop (suc n) (x ∷ xs) h = let ih = length-drop n xs (omega arith) in omega arith

-- One page: the next `limit` pairs from the offset on.
page-drop :
    (offset limit : ℕ) (s : FactoryStore)
    → limit ≤ 50
    → offset + limit < 2 ^ 32
    → get_all_pairs offset limit s ≡ ok (take limit (drop offset s.pair_list))
unfolding get_all_pairs
page-drop offset limit s small fits =
    let xs = s.pair_list in
    let low : ltb 50 limit ≡ false = ground arith in
    let sum : ltb (offset + limit) (2 ^ 32) ≡ true = ground arith in
    elim (dec_lt offset (length xs)) [
      | yes inside ↦
          let below : ltb offset (length xs) ≡ true = ground arith in
          let rest = length-drop offset xs (omega arith) in
          let count = min (offset + limit) (length xs) - offset in
          let same : count ≡ min limit (length (drop offset xs)) = omega arith in
          let copied = copy_pairs-drop xs offset count (omega arith) in
          rw (low, sum, below)
            (copied
              ∙ ap (λ k. ok (take k (drop offset xs))) same
              ∙ ap (λ t. ok t) (take_fewer limit (drop offset xs)))
      | no outside ↦
          let above : ltb offset (length xs) ≡ false = ground arith in
          let nothing = drop_none offset xs (omega arith) in
          rw (low, sum, above)
            (ap (λ t. ok t) (sym (ap (λ t. take limit t) nothing ∙ take_nil limit)))
    ]

-- The client's loop that the documentation has in mind: `k` pages of `limit` pairs, one after the other.
abbrev pub all_pages : ℕ → ℕ → FactoryStore → Outcome FactoryError (List Address)
all_pages limit zero s = ok []
all_pages limit (suc k) s = do
  before ← all_pages limit k s
  page ← get_all_pairs (k * limit) limit s
  ok (before ++ page)

pages-take :
    (limit k : ℕ) (s : FactoryStore)
    → limit ≤ 50
    → k * limit < 2 ^ 32
    → all_pages limit k s ≡ ok (take (k * limit) s.pair_list)
pages-take limit zero s small fits =
    let e : 0 ≡ 0 * limit = omega arith in ap (λ n. ok (take n s.pair_list)) e
pages-take limit (suc k) s small fits =
    let next : k * limit + limit ≡ suc k * limit = omega arith in
    let ih = pages-take limit k s small (omega arith) in
    let page = page-drop (k * limit) limit s small (omega arith) in
    let joined = take-drop (k * limit) limit s.pair_list in
    rw (ih, page) (ap (λ t. ok t) (joined ∙ ap (λ n. take n s.pair_list) next))

-- Reading `get_all_pairs` page by page, with a limit of at most 50, gives every pair of the factory
-- once and in the order of creation, as soon as the pages are enough for the list.
pub pages_cover_list :
    (limit k : ℕ) (s : FactoryStore)
    → limit ≤ 50
    → k * limit < 2 ^ 32
    → length s.pair_list ≤ k * limit
    → all_pages limit k s ≡ ok s.pair_list
pages_cover_list limit k s small fits enough =
    pages-take limit k s small fits ∙ ap (λ t. ok t) (take_all (k * limit) s.pair_list enough)
