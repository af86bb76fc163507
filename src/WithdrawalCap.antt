-- ===== src/WithdrawalCap.antt =====
-- programs/klend/src/lending_market/withdrawal_cap_operations.rs, over `WithdrawalCaps` of
-- programs/klend/src/state/reserve.rs: how much may leave a reserve in one interval.
mod Defs
mod Tests
mod Bound
mod Trace
unfoldable pub use Defs.*
pub use Bound.*
pub use Trace.*
