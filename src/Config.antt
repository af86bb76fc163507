-- ===== src/Config.antt =====
-- The configuration of a reserve: lending_market/config_items.rs, and `update_reserve_config` and
-- `validate_reserve_config_integrity` of lending_market/lending_operations.rs.
mod Items
mod Modes
mod Update
mod Integrity
mod Authority
mod Soundness
mod Tests
