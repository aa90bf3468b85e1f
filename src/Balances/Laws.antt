-- ===== src/Balances/Laws.antt =====
-- Reading and summing after a write.
use coralswap_core.Prelude.{
  Bool-cases, [], arith, false, if◌then◌else◌, inl, inr, refl, ◌==◌, ◌||◌, ◌∷◌, ◌≡◌,
}
use coralswap_core.Balances.{Balances, IsNodup, contains, insert, read, remove, sum, write}
use coralswap_core.Env.{Address}
use coralswap_core.Int.{eq_ℤ, pos, ℤ, ◌+ℤ◌}
use coralswap_core.Int.Laws.{eq_ℤ→eq, int_laws}

insert-sum : (a : Address) (v : ℤ) (m : Balances) → sum (insert a v m) +ℤ read a m ≡ sum m +ℤ v
insert-sum a v [] = omega int_laws
insert-sum a v ((k, w) ∷ m) = grind (int_laws, insert-sum a v m)

remove-sum : (a : Address) (m : Balances) → sum (remove a m) +ℤ read a m ≡ sum m
remove-sum a [] = omega int_laws
remove-sum a ((k, w) ∷ m) = grind (int_laws, remove-sum a m)

-- A write changes the sum by the difference of the new amount and the old.
pub sum-write : (a : Address) (v : ℤ) (m : Balances) → sum (write a v m) +ℤ read a m ≡ sum m +ℤ v
unfolding write
sum-write a v m = elim (Bool-cases (eq_ℤ v (pos 0))) [
  | inl e ↦ rw e (let z = eq_ℤ→eq v (pos 0) e in grind (int_laws, remove-sum a m))
  | inr e ↦ rw e (insert-sum a v m)
]

read_absent : (a : Address) (m : Balances) → contains a m ≡ false → read a m ≡ pos 0
read_absent a [] h = refl
read_absent a ((k, w) ∷ m) h = ground (arith, read_absent a m)

read-insert :
    (a b : Address) (v : ℤ) (m : Balances)
    → read b (insert a v m) ≡ (if b == a then v else read b m)
read-insert a b v [] = refl
read-insert a b v ((k, w) ∷ m) = ground (arith, read-insert a b v m)

read-remove :
    (a b : Address) (m : Balances)
    → IsNodup m
    → read b (remove a m) ≡ (if b == a then pos 0 else read b m)
read-remove a b [] h = ground arith
read-remove a b ((k, w) ∷ m) h = ground (arith, read-remove a b m h.1, read_absent k m h.0)

-- A write is read back, and leaves every other address as it was.
pub read-write :
    (a b : Address) (v : ℤ) (m : Balances)
    → IsNodup m
    → read b (write a v m) ≡ (if b == a then v else read b m)
unfolding write
read-write a b v m h = ground (arith, read-remove a b m h, read-insert a b v m, eq_ℤ→eq v (pos 0))

contains-insert :
    (a b : Address) (v : ℤ) (m : Balances) → contains b (insert a v m) ≡ (b == a || contains b m)
contains-insert a b v [] = refl
contains-insert a b v ((k, w) ∷ m) = ground (arith, contains-insert a b v m)

contains-remove_le :
    (a b : Address) (m : Balances) → contains b m ≡ false → contains b (remove a m) ≡ false
contains-remove_le a b [] h = refl
contains-remove_le a b ((k, w) ∷ m) h = ground (arith, contains-remove_le a b m)

insert-IsNodup : (a : Address) (v : ℤ) (m : Balances) → IsNodup m → IsNodup (insert a v m)
insert-IsNodup a v [] h = (refl, tt)
insert-IsNodup a v ((k, w) ∷ m) h =
    ground (arith, insert-IsNodup a v m h.1, contains-insert a k v m)

remove-IsNodup : (a : Address) (m : Balances) → IsNodup m → IsNodup (remove a m)
remove-IsNodup a [] h = tt
remove-IsNodup a ((k, w) ∷ m) h = ground (arith, remove-IsNodup a m h.1, contains-remove_le a k m)

pub write-IsNodup : (a : Address) (v : ℤ) (m : Balances) → IsNodup m → IsNodup (write a v m)
unfolding write
write-IsNodup a v m h = ground (arith, remove-IsNodup a m h, insert-IsNodup a v m h)
