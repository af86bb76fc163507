-- ===== src/Fraction/Display.antt =====
-- The decimals that `FractionDisplay` prints.
use kamino_lending.Base.{arith, ok, ℕ, ◌*◌, ◌+◌, ◌/◌, ◌<◌, ◌≡◌, ◌≤◌}
use kamino_lending.Crates.{half, one}
use kamino_lending.Fraction.Defs.{Fraction, display_parts}

-- The printed number has four decimals, and is the value rounded half up to four decimals, but for
-- less than a hundredth of a decimal that the two shifts drop.
pub display_parts_near :
    (f : Fraction) {whole decimals : ℕ}
    → display_parts f ≡ ok (whole, decimals)
    → (decimals < 10_000)
      × ((whole * 10_000 + decimals) * one ≤ f * 10_000 + half)
      × (f * 10_000 + half < (whole * 10_000 + decimals + 1) * one + one / 100)
unfolding display_parts
display_parts_near f e = ground arith
