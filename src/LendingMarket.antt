-- ===== src/LendingMarket.antt =====
-- programs/klend/src/state/lending_market.rs: the parameters of a market and its elevation groups,
-- the modes in which an obligation borrows one token against a few others at a higher LTV.
mod State
mod Groups
pub mod Sample
mod Tests
unfoldable pub use State.*
