-- ===== src/Fraction/Tests.antt =====
-- Runs of utils/fraction.rs on concrete values, and its theorems at them.
use kamino_lending.Base.{LendingError, err, none, ok, panic, refl, some, ◌*◌, ◌+◌, ◌/◌, ◌^◌, ◌≡◌}
use kamino_lending.Crates.{half, one}
use kamino_lending.Crates.Exact.{exact}
use kamino_lending.Fraction.Defs.{
  big_div, big_from_num, big_mul, display_parts, div_ceil, fraction_of_big, pow_fraction,
}

-- 1.5 to the fifth, and an overflow.
pow_runs :
    (pow_fraction (one + half) 5 ≡ some (243 * one / 32)) × (pow_fraction (2 ^ 40 * one) 2 ≡ none)
unfolding pow_fraction
pow_runs = (refl, refl)

-- 2 / 3 in units of 2^-60, rounded up, and a division by zero.
div_ceil_runs : (div_ceil 2 3 ≡ ok (2 * one / 3 + 1)) × (div_ceil 2 0 ≡ panic)
unfolding div_ceil
div_ceil_runs = (refl, refl)

-- 12.34567 is printed as 12.3457.
display_runs : display_parts (1_234_567 * one / 100_000 + 1) ≡ ok (12, 3457)
unfolding display_parts
display_runs = refl

big_runs :
    (big_mul (big_from_num 3) (big_from_num 5) ≡ ok (big_from_num 15))
    × (big_div (big_from_num 15) (big_from_num 5) ≡ ok (big_from_num 3))
    × (fraction_of_big (2 ^ 128) ≡ err LendingError.integer_overflow)
unfolding big_mul big_div big_from_num fraction_of_big
big_runs = (refl, refl, refl)
