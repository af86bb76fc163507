-- ===== src/Operations.antt =====
-- programs/klend/src/lending_market/lending_operations.rs: the operations that the instruction
-- handlers call on reserves, obligations and the market.
mod Accounts
mod Checks
mod Values
mod Trackers
mod Tiers
mod Pool
mod Loans
mod Pledges
mod Refresh
mod RefreshBorrows
mod Groups
mod Liquidate
mod Losses
mod Effects
mod Redeeming
mod Lending
mod Referrals
mod Forgiving
mod Shares
mod Health
mod Freshness
mod Tests
