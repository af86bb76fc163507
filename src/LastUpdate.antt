-- ===== src/LastUpdate.antt =====
-- programs/klend/src/state/last_update.rs: when a reserve or an obligation was last refreshed, and
-- which checks its prices passed. A flag byte is a number.
mod Defs
mod Tests
mod Staleness
unfoldable pub use Defs.*
pub use Staleness.*
