-- ===== src/Balances.antt =====
-- Amounts by address, as the contracts keep them in persistent storage: an absent entry reads as
-- zero, and a write of zero removes the entry.
pub mod Laws
use coralswap_core.Prelude.{Bool, List, [], false, if◌then◌else◌, ◌==◌, ◌||◌, ◌∷◌, ◌≡◌}
use coralswap_core.Env.{Address}
use coralswap_core.Int.{eq_ℤ, pos, ℤ, ◌+ℤ◌}

abbrev pub Balances : Type 0
Balances = List (Address × ℤ)

abbrev pub read : Address → Balances → ℤ
read a [] = pos 0
read a ((k, v) ∷ m) = if a == k then v else read a m

abbrev pub insert : Address → ℤ → Balances → Balances
insert a v [] = (a, v) ∷ []
insert a v (e ∷ m) = if a == e.0 then (a, v) ∷ m else e ∷ insert a v m

abbrev pub remove : Address → Balances → Balances
remove a [] = []
remove a (e ∷ m) = if a == e.0 then m else e ∷ remove a m

unfoldable pub write : Address → ℤ → Balances → Balances
write a v m = if eq_ℤ v (pos 0) then remove a m else insert a v m

abbrev pub sum : Balances → ℤ
sum [] = pos 0
sum ((k, v) ∷ m) = v +ℤ sum m

abbrev pub contains : Address → Balances → Bool
contains a [] = false
contains a ((k, v) ∷ m) = a == k || contains a m

-- No address is listed twice.
abbrev pub IsNodup : Balances → Type 0
IsNodup [] = Unit
IsNodup ((k, v) ∷ m) = (contains k m ≡ false) × IsNodup m
