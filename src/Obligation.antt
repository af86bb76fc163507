-- ===== src/Obligation.antt =====
-- programs/klend/src/state/obligation.rs: what a user has deposited and borrowed, what it is worth,
-- and the orders on it.
mod Positions
mod Orders
mod State
mod Entries
mod Values
pub mod Interest
pub mod Slots
pub mod Removals
pub mod Limits
mod Conditions
pub mod Sample
mod Tests
unfoldable pub use Orders.*
unfoldable pub use State.*
unfoldable pub use Entries.*
unfoldable pub use Values.*
unfoldable pub use Conditions.{stop_loss_distance, evaluate_stop_loss, evaluate_take_profit}
pub use Positions.{ObligationCollateral, ObligationLiquidity}
unfoldable pub use Positions.{
  is_collateral_active, is_liquidity_active, new_obligation_collateral, new_obligation_liquidity,
  deposit as deposit_entry, borrow as borrow_entry, accrue_interest as accrue_loan_interest,
}
