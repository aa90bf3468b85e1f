-- ===== src/LpToken/Tests.antt =====
-- Witnesses of the theorems on the LP token.
use coralswap_core.LpToken
use coralswap_core.Prelude.{
  Bool, List, [], arith, false, if◌then◌else◌, none, refl, some, suc, true, zero, ℕ, ◌&&◌, ◌++◌,
  ◌+◌, ◌==◌, ◌∷◌, ◌≡◌,
}
use coralswap_core.Balances.{IsNodup, sum, write}
use coralswap_core.Env.{Address, Env}
use coralswap_core.Host.{Crypto}
use coralswap_core.Int.{negsuc, pos}
use coralswap_core.LpToken.{LpToken, blank, lp_name, lp_symbol, set_allowance}
use coralswap_core.LpToken.Calls.{Call, run}
use coralswap_core.LpToken.Permit.{permit}
use coralswap_core.LpToken.Supply.{supply_is_conserved}
use coralswap_core.LpToken.Transfers.{burn_negative_mints}
use coralswap_core.Outcome.{ok}

-- The admin is 1; the holders 2 and 3 have 3_000 and 2_000, and 3 may spend 500 of 2's.
abbrev token : LpToken
token = record {
  admin = some 1;
  metadata = none;
  total_supply = pos 5_000;
  paused = false;
  balances = (2, pos 3_000) ∷ (3, pos 2_000) ∷ [];
  allowances = λ f s.
      if f == 2 && s == 3
      then some (record { amount = pos 500; expiration_ledger = 200 })
      else none;
  nonces = λ o. 4;
}

-- The call at ledger 100 that the given address has authorized.
abbrev by : Address → Env
by who = record { sequence = 100; timestamp = 500_000; authorized = λ a. a == who; contract = 9 }

-- The first `n` bytes, all alike.
abbrev bytes : ℕ → ℕ → List ℕ
bytes zero b = []
bytes (suc n) b = b ∷ bytes n b

abbrev eq_bytes : List ℕ → List ℕ → Bool
eq_bytes [] [] = true
eq_bytes [] (y ∷ ys) = false
eq_bytes (x ∷ xs) [] = false
eq_bytes (x ∷ xs) (y ∷ ys) = x == y && eq_bytes xs ys

-- An address is 32 equal bytes, a digest its text, and a signature the digest after the key.
abbrev plain_crypto : Crypto
plain_crypto = record {
  to_xdr = λ a. bytes 32 a;
  sha256 = λ text. text;
  ed25519_verify = λ key digest signature. eq_bytes signature (key ++ digest);
}

abbrev signed : List ℕ
signed =
    bytes 32 2
    ++ (bytes 32 2
        ++ (bytes 32 3 ++ (bytes 14 0 ++ (2 ∷ 188 ∷ bytes 7 0 ++ (4 ∷ bytes 3 0 ++ (150 ∷ []))))))

abbrev after_permit : LpToken
after_permit =
    record (set_allowance 2 3 (some (record { amount = pos 700; expiration_ledger = 150 })) token) {
      nonces = λ o. if o == 2 then 5 else 4;
    }

abbrev fresh : LpToken
fresh = record blank {
  admin = some 1;
  metadata = some (record { decimals = 7; name = lp_name; symbol = lp_symbol });
}

abbrev after_mint : LpToken
after_mint = record token {
  balances = (2, pos 3_000) ∷ (3, pos 2_600) ∷ [];
  total_supply = pos 5_600;
}

abbrev after_burn : LpToken
after_burn = record token { balances = (3, pos 2_000) ∷ []; total_supply = pos 2_000 }

abbrev calls : List (Env × Call)
calls =
    (by 1, Call.mint 2 (pos 900))
    ∷ (by 2, Call.transfer 2 3 (pos 1_000))
    ∷ (by 2, Call.burn 2 (pos 300))
    ∷ (by 5, Call.permit 2 3 (pos 700) 150 signed)
    ∷ []

supply_is_conserved_example :
    let t' = run plain_crypto calls fresh in
    (t'.total_supply ≡ sum t'.balances) × IsNodup t'.balances
unfolding LpToken.initialize
supply_is_conserved_example = supply_is_conserved plain_crypto 1 7 [] [] {t = fresh} refl calls

burn_negative_mints_example :
    LpToken.burn (by 2) 2 (negsuc 999) token
    ≡ ok (record token {
      balances = write 2 (pos (3_000 + suc 999)) token.balances;
      total_supply = pos (5_000 + suc 999);
    })
burn_negative_mints_example =
    burn_negative_mints (by 2) 2 999 3_000 5_000 token refl refl refl refl (omega arith)
      (omega arith)
