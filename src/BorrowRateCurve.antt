-- ===== src/BorrowRateCurve.antt =====
-- programs/klend/src/utils/borrow_rate_curve.rs: the piecewise linear curve that gives the borrow
-- rate of a reserve at its utilization. The array of 11 points is a list.
mod Defs
mod Tests
mod Validity
mod Rate
unfoldable pub use Defs.*
pub use Validity.*
pub use Rate.*
