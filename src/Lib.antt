-- ===== src/Lib.antt =====
-- A verification library for the Kamino lending program (programs/klend): the pools of tokens
-- (reserves), what users deposit and borrow (obligations), interest, limits and liquidations.
--
-- The program is an Anchor program for Solana. An instruction handler (programs/klend/src/handlers)
-- loads accounts, calls lending_market/lending_operations.rs, and moves tokens. Those operations call
-- the methods of the accounts: a reserve mints and burns collateral tokens against its liquidity,
-- lends it out and accrues interest on it at the rate of its borrow rate curve; an obligation records
-- which collateral tokens a user has deposited and which debts are open; a liquidation settles a part
-- of a debt against collateral. All of them compute with fractions of 60 bits. This library models
-- the methods of the accounts, the computations, the operations and the checks that the handlers make
-- around them; the handlers themselves, which load accounts and move tokens, are not in it.
--
-- Files, and the source that each models (paths are below programs/klend/src):
--   Base              lists, tests, machine integers, i64 values, and the results of fallible code:
--                     `ok`, an error of `LendingError` (lib.rs), or a panic
--   Crates            the crates `fixed` and `uint`, which are not part of the repository: a record of
--                     the operations that the program uses, as an instance argument, and what their
--                     documentation says of them (`IsExact`); Crates/Exact.antt shows that it can hold
--                     and that it determines the operations
--   Fraction          utils/fraction.rs
--   LastUpdate        state/last_update.rs
--   WithdrawalCap     lending_market/withdrawal_cap_operations.rs, `WithdrawalCaps` of state/reserve.rs
--   BorrowRateCurve   utils/borrow_rate_curve.rs
--   Reserve           state/reserve.rs and state/token_info.rs: Token, Config, Fees, Interest, Liquidity, Collateral, State and Loans hold
--                     the types and methods; Exchange, Deposits, Accounting, Growth, Compounding and
--                     Borrowing prove what they do
--   Obligation        state/obligation.rs: Positions, Orders, State, Entries and Values hold the types and
--                     methods; Interest, Slots, Removals and Limits prove what they do; Conditions has
--                     stop loss and take profit of state/order_operations.rs
--   LendingMarket     state/lending_market.rs, and `get_elevation_group` of lending_operations.rs
--   Orders            state/order_operations.rs
--   Liquidation       state/liquidation_operations.rs: Defs (amounts), Bonus (rates and fees), Reasons (why an
--                     obligation is liquidated) and Calculate (on what terms); Amounts, Limits, Deleveraging,
--                     Settled, Individual, MarketWide and Justified prove what they do
--   Operations        lending_market/lending_operations.rs: Accounts (the accounts that an operation reaches),
--                     Checks, Values, Trackers and Tiers (its module `utils`), Pool (the operations on a
--                     reserve alone), Loans, Pledges, Refresh, RefreshBorrows, Groups, Liquidate and Losses;
--                     Effects, Redeeming, Lending and Referrals prove what they do to the books of a reserve,
--                     Shares that those which lose nothing refine an abstract vault, Forgiving what a
--                     socialized loss costs, Health what a borrow leaves, and Freshness which of
--                     them refuse a stale reserve
--   Config            the configuration of a reserve: Items (lending_market/config_items.rs), Modes
--                     (`UpdateConfigMode` of state/mod.rs), Update and Integrity (lending_operations.rs);
--                     Authority and Soundness prove who can change what and what is accepted
--   Checks            lending_market/lending_checks.rs: Accounts and Balances
--
-- Conventions. Functions keep the names of the source, in snake case; a method whose name another
-- function of the same module has carries the type's name (`new_liquidity`, `is_collateral_active`).
-- A method that changes its receiver returns the new value. A fraction is its bits, the number times
-- 2^60; the fields ending in `_sf` and `_bsf` are bits as they are in the source. Machine integers are
-- natural numbers with the largest value of their type written out where an operation can exceed it;
-- the release profile checks overflows, so that plain arithmetic that overflows is a panic. A public
-- key is a number, and the default key is 0. Arrays are lists, and an index out of bounds panics. Log
-- messages, padding and reserved bytes are left out, but for the padding of an order, which is compared.
--
-- The reserves that an instruction loads are a function of their keys, so that two loaders of one account
-- see one reserve; an iterator of loaders is the list of their keys, and an account that is borrowed
-- while it is held is an error. An error of the framework that is not a `LendingError` aborts the
-- instruction as a panic does, and is one here. Parameters stand for what is not part of the
-- repository: what Borsh reads from bytes, the derivation of an address from seeds, and what the check of
-- token extensions finds in a token account. Long functions are cut into parts, each named for what it
-- does and mapped to its lines; a lazy `or_else` whose second part could panic is written as one.
--
-- Bounds and fuel. The only loop that is not on a list is that of `pow_fraction`, which halves a u32
-- exponent: it runs on 32 units of fuel, one for each bit.
--
-- Not modelled: account loading, token transfers and cross-program calls, which only the runtime can
-- carry out; the serde and Borsh representations; the oracle prices (utils/prices) and the handlers,
-- which sequence the operations and checks modelled here with transfers.
pub mod Base
pub mod Crates
pub mod Fraction
pub mod LastUpdate
pub mod WithdrawalCap
pub mod BorrowRateCurve
pub mod Reserve
pub mod LendingMarket
pub mod Obligation
pub mod Orders
pub mod Liquidation
pub mod Operations
pub mod Config
pub mod Checks
