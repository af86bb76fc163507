-- ===== src/Base.antt =====
-- The names that the modules of the library share: those of the libraries, passed on, and those of
-- the children. Machine integers are native numbers; a value of a checked operation is a `Result`.
mod Tests
mod Outcome
mod Lists
mod Slots
mod Division
pub mod Int
pub use Tests.*
pub use Outcome.*
pub use Lists.*
pub use Slots.*
pub use Division.*
pub use Prim.Native.Nat.{ℕ, zero, suc, ◌+◌, ◌-◌, ◌*◌, ◌/◌, ◌%◌, ◌^◌, ◌≤◌, ◌<◌, min, max}
pub use mathlib.Core.Path.{◌≡◌, refl, sym, ap, ◌∙◌}
pub use mathlib.Core.Logic.{◌≢◌, ◌↔◌, ◌⊎◌, inl, inr}
pub use mathlib.Core.Bool.{Bool, true, false, not, ◌&&◌, ◌||◌}
pub use mathlib.Core.Option.{Option, none, some}
pub use mathlib.Core.List.{List, [], ◌∷◌, ◌++◌, map}
pub use native.Mathlib.Omega.{arith}
