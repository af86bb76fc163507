-- ===== src/Liquidation.antt =====
-- programs/klend/src/state/liquidation_operations.rs: the terms of a liquidation.
mod Defs
mod Bonus
mod Reasons
mod Calculate
mod Individual
mod MarketWide
mod Justified
pub mod Amounts
pub mod Limits
pub mod Settled
mod Deleveraging
mod Tests
unfoldable pub use Defs.*
unfoldable pub use Bonus.*
unfoldable pub use Reasons.*
unfoldable pub use Calculate.*
