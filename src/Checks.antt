-- ===== src/Checks.antt =====
-- programs/klend/src/lending_market/lending_checks.rs: the checks that the handlers make on accounts
-- before an operation, and on balances after a transfer.
mod Accounts
mod Balances
mod Tests
