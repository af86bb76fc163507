-- ===== src/Reserve.antt =====
-- programs/klend/src/state/reserve.rs: a pool of one token, its liquidity, its collateral token and
-- the exchange between the two, interest, fees and limits.
mod Token
mod Config
mod Fees
mod Interest
mod Liquidity
mod Collateral
mod State
mod Loans
mod Growth
pub mod Sample
mod Tests
pub mod Borrowing
mod Steps
pub mod Compounding
pub mod Accounting
pub mod Deposits
mod Exchange
unfoldable pub use Token.*
unfoldable pub use Config.*
unfoldable pub use Fees.*
unfoldable pub use Interest.*
unfoldable pub use Liquidity.*
unfoldable pub use Collateral.*
unfoldable pub use State.*
unfoldable pub use Loans.*
