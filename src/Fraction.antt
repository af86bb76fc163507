-- ===== src/Fraction.antt =====
-- programs/klend/src/utils/fraction.rs: `FractionExtra` for `Fraction`, and `BigFraction`. A
-- `Fraction` is its bits, a number below 2^128 in units of 2^-60; a `BigFraction` is its U256.
mod Defs
mod Tests
mod Rounding
mod Display
unfoldable pub use Defs.*
pub use Rounding.*
pub use Display.*
