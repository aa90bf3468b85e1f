-- ===== src/Lib.antt =====
-- CoralSwap core: an automated market maker on Soroban, in Rust (contracts/). A pair holds two pool
-- tokens and trades between them at the constant product of its reserves; an LP token stands for
-- shares of the reserves; a factory registers and governs the pairs; a router quotes and routes.
-- This library models the pair, its arithmetic, its dynamic fee, its flash loans, its price oracle,
-- the LP token, the factory and the router.
--
-- How a contract call is modelled (Outcome, Env, Balances): a call is a function from the state
-- before it to an Outcome: a value with the state after it, a typed error, or a trap. The host drops
-- the writes of a call that does not end with a value, so an error carries no state. A failed
-- `require_auth`, an overflow of unchecked arithmetic (the release profile sets overflow-checks) and
-- a failed nested call trap. Env holds the ledger's sequence number and timestamp, the addresses that
-- have authorized the call, and the running contract. Storage lifetimes and events are left out:
-- they have no effect on values.
--
-- Numbers: i128 is the type ℤ of Int.antt with checked, saturating and wrapping operations; u32, u64
-- and U256 values are natural numbers, with the bound written where an operation can pass it
-- (U256.antt).
--
-- The parts:
--   Quote      contracts/shared/src/lib.rs: quote_output_amount, quote_input_amount, fee_factor.
--              Quote/Output and Quote/Input prove what the two quotes promise.
--   Math       contracts/pair/src/math/mod.rs. Newton's iteration runs on fuel: the value itself,
--              since the iterate falls in every round. MulDiv, Sqrt, Liquidity and Split prove the
--              four groups of formulas.
--   Fee        contracts/pair/src/dynamic_fee.rs and fee_decay.rs: compute_fee_bps,
--              update_volatility, decay_stale_ema, apply_time_decay. The decay loop is recursion on
--              the number of periods. Bounds, Volatility and Decay prove them.
--   LpToken    contracts/lp_token/src: the storage as a record, every entry point that changes it.
--              Calls runs sequences of calls; Supply, Transfers, Allowances, Permit and Pausing
--              prove them.
--   Pair.State contracts/pair/src/storage.rs and reentrancy.rs: the storage, the lock, the world of a
--              call. The pool tokens are a parameter (TokenClient: their balances and transfers),
--              the factory's answers another (FactoryView).
--   Pair.Mint, Pair.Burn, Pair.Swap, Pair.Single, Pair.Flash, Pair.Admin
--              contracts/pair/src/lib.rs and flash_loan.rs: the entry points, in the parts that their
--              bodies have. The receiver of a flash loan is a parameter: what it does to the LP
--              token and to the pool tokens. While it runs the pair is locked, and what it may do to
--              the pair by the calls without the lock (the settings that the factory governs) is not
--              part of the parameter.
--   Pair.Calls every entry point of the pair after initialize as one step; Guards, Governance and
--              Staging prove what holds of all of them. Run and SingleRun invert a swap and a
--              single-sided deposit into their intermediate values; KCheck, Quoted, Tracking, Executes,
--              FeeCap, Product, Deposit, Redeemed, Withdrawal, Loan, FeeQuote, Setup, SeedGain, Drained
--              and DoubleCount prove the calls one by one.
--   Oracle     contracts/pair/src/oracle/mod.rs: the ring of samples (the fields slots, head and count
--              of OracleState), prune_expired, update_cumulative_prices and consult_twap. The pruning
--              loop runs on fuel, one more than the number of samples, which it drops one by one.
--              Ring, Prune, Update, Bracket, Scan and Consult prove it. A write to a slot past the
--              end of the list, which the host refuses, changes nothing here: no ring has one.
--   Factory    contracts/factory/src. State is its storage; Governance is verify_multisig, Upgrade the
--              timelocked upgrade (upgrade.rs), Fees the fee settings, Pairs the registry, the freeze and
--              the relays (lib.rs), and Calls every call that changes state, one by one and in
--              sequence. The deployer, the hash and the deployed contracts are a parameter (Deployed).
--              Views are get_all_pairs and get_pair_address. Quorum, Effects, Untouched, Timelock, Registry,
--              FeeRules, Paging and Derived prove them.
--   Router     contracts/router/src. State is storage.rs and the clients of helpers.rs, which are a
--              parameter (Network: the factory, the pairs and the tokens, with a state of theirs).
--              Paths is helpers.rs, with the walks along a path from one token on; BestPath, Swaps,
--              Commits, Admin and Liquidity are the entry points of lib.rs, and Calls runs them one by
--              one and in sequence. A walk is recursion on the path, so it needs no fuel.
--              Covers, Hops and Minimums, Candidates, BestRoute, HubLoops and BestLoops, Guards,
--              ExactOut and ExactIn prove the quotes and the swaps, Optimal and Order the deposits,
--              and Effects, Steps, History, Slots, Runs, Bounded, Reveals, Nonces, RoundTrip,
--              Expired, Binding and Governed the committed swaps and the settings.
--   Metadata   contracts/shared/src/lib.rs: derive_lp_metadata, the texts as ASCII codes. Hex reads the
--              digits back.
--   Host       the cryptography of the host, a parameter, and the bytes that are handed to it, which
--              the permit of the LP token and the commits of the router hash (Host.Encoding;
--              Host.Reading reads such messages back).
--
-- The Tests modules beside a part hold its witnesses.
--
-- Not modelled: the views that read one entry, events, storage lifetimes, the mock contracts of the
-- tests, and four files that no module includes: the pair's snapshot_view.rs and ttl_maintenance.rs,
-- the factory's bounded_pairs.rs and the router's path_guard.rs.
pub mod Prelude
pub mod Int
pub mod U256
pub mod Outcome
pub mod Quote
pub mod Errors
pub mod Math
pub mod Fee
pub mod Env
pub mod Host
pub mod Metadata
pub mod Balances
pub mod LpToken
pub mod Oracle
pub mod Factory
pub mod Router
pub mod Pair
