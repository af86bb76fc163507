-- ===== src/Orders.antt =====
-- programs/klend/src/state/order_operations.rs: setting, checking and finding the orders of an
-- obligation.
mod Defs
mod Removal
mod Tests
unfoldable pub use Defs.*
