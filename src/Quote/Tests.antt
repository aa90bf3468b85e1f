-- ===== src/Quote/Tests.antt =====
-- Witnesses of the theorems on the quotes.
use coralswap_core.Prelude.{refl, true, ℕ, ◌*◌, ◌+◌, ◌-◌, ◌<◌, ◌↔◌, ◌≡◌, ◌≤◌}
use coralswap_core.Int.{leb_ℤ, ltb_ℤ, pos}
use coralswap_core.Quote.{quote_input_amount, quote_output_amount}
use coralswap_core.Quote.Input.{quote_input_least}
use coralswap_core.Quote.Output.{quote_output_largest}

quote_output_largest_example :
    (x : ℕ) × (y : ℕ) × (z : ℕ) × (p : ℕ) × ((pos 1000) ≡ pos x)
    × ((pos 100_000) ≡ pos y)
    × ((pos 200_000) ≡ pos z)
    × ((pos 1974) ≡ pos p)
    × (0 < p)
    × (p < z)
    × (y * 10_000 * z ≤ (y * 10_000 + x * (10_000 - 30)) * (z - p))
    × ((q : ℕ) → q ≤ z → y * 10_000 * z ≤ (y * 10_000 + x * (10_000 - 30)) * (z - q) → q ≤ p)
unfolding quote_output_amount
quote_output_largest_example = quote_output_largest (pos 1000) (pos 100_000) (pos 200_000) 30 refl

quote_input_least_example :
    ((leb_ℤ (pos 1974) (pos 1976) ≡ true) ↔ (leb_ℤ (pos 1000) (pos 1001) ≡ true))
    × (ltb_ℤ (pos 0) (pos 1000) ≡ true)
unfolding quote_input_amount quote_output_amount
quote_input_least_example =
    quote_input_least (pos 1974) (pos 100_000) (pos 200_000) 30 refl (pos 1001) refl
