-- ===== src/Fraction/Rounding.antt =====
-- How the operations of utils/fraction.rs round, against the exact quotients.
use kamino_lending.Base.{
  arith, ceil-le, div-le, le-mul_ceil, mul_ceil-lt, ok, some, u128_max, u256_max, u32_max, u64_max,
  ℕ, ◌*◌, ◌+◌, ◌-◌, ◌/◌, ◌<◌, ◌≡◌, ◌≤◌,
}
use kamino_lending.Crates.{Crates, IsExact, half, one}
use kamino_lending.Crates.Exact.{Crates-eq-exact}
use kamino_lending.Fraction.Defs.{
  Fraction, bps_u128_to_fraction, div_ceil, from_bps, from_percent, full_mul_int_ratio,
  mul_int_ratio, pct_u128_to_fraction, to_bps, to_ceil, to_floor, to_percent, to_round,
}
use native.Mathlib.Nat.{div-le_self}

module _ ⦃c : Crates⦄ (laws : IsExact c) where
  -- `div_ceil` succeeds whenever the rounded-up quotient is a fraction, and returns the least
  -- fraction that is not below the exact quotient.
  pub div_ceil_least :
      (a b : ℕ)
      → a ≤ u128_max
      → 0 < b
      → b ≤ u128_max
      → a * one ≤ u128_max * b
      → (r : ℕ) × (div_ceil a b ≡ ok r) × (a * one ≤ r * b) × (r * b < a * one + b)
  unfolding div_ceil
  div_ceil_least a b ha hb hb' fits =
      let q : (a * one + (b - 1)) / b ≤ u128_max = ceil-le (a * one) b u128_max hb fits in
      rw (Crates-eq-exact c laws) (
        (a * one + (b - 1)) / b,
        ground arith,
        le-mul_ceil (a * one) b hb,
        mul_ceil-lt (a * one) b hb,
      )

  -- Rounding up, down and to the nearest: the three results and how they enclose the value.
  pub rounding_bounds :
      (dst a : ℕ) {low near high : ℕ}
      → to_floor dst a ≡ ok low
      → to_round dst a ≡ ok near
      → to_ceil dst a ≡ ok high
      → (low * one ≤ a)
        × (a ≤ high * one)
        × (high ≤ low + 1)
        × (low ≤ near)
        × (near ≤ high)
        × (near * one ≤ a + half)
        × (a < near * one + half)
  unfolding to_floor to_round to_ceil
  rounding_bounds dst a = rw (Crates-eq-exact c laws) (λ lo mid hi. ground arith)

  -- Where the 128-bit product fits, both ways to scale by a ratio agree.
  pub full_mul_int_ratio-eq-mul_int_ratio :
      (a n d : ℕ) {r : ℕ} → mul_int_ratio a n d ≡ ok r → full_mul_int_ratio a n d ≡ ok r
  unfolding mul_int_ratio full_mul_int_ratio
  full_mul_int_ratio-eq-mul_int_ratio a n d =
      rw (Crates-eq-exact c laws) (λ e. ground (arith, div-le_self (a * n) d))

  -- The 256-bit product keeps the exact quotient, also where the 128-bit product overflows.
  pub full_mul_int_ratio_floor :
      (a n d : ℕ)
      → a * n ≤ u256_max
      → 0 < d
      → a * n < (u128_max + 1) * d
      → full_mul_int_ratio a n d ≡ ok (a * n / d)
  unfolding full_mul_int_ratio
  full_mul_int_ratio_floor a n d wide pos_d fits =
      let q : a * n / d ≤ u128_max = div-le (a * n) u128_max pos_d fits in
      let q' : a * n / d ≤ u256_max = omega arith in rw (Crates-eq-exact c laws) (ground arith)

  -- A rate in basis points comes back from its fraction.
  pub to_bps-from_bps :
      (n : ℕ)
      → n ≤ u32_max
      → (f : Fraction) × (from_bps n ≡ ok f) × (to_bps u32_max f ≡ ok (some n))
  unfolding from_bps to_bps
  to_bps-from_bps n h = rw (Crates-eq-exact c laws) (n * one / 10_000, ground arith, ground arith)

  -- So does a percentage.
  pub to_percent-from_percent :
      (n : ℕ)
      → n ≤ u64_max
      → (f : Fraction) × (from_percent n ≡ ok f) × (to_percent u64_max f ≡ ok (some n))
  unfolding from_percent to_percent
  to_percent-from_percent n h =
      rw (Crates-eq-exact c laws) (n * one / 100, ground arith, ground arith)

  -- The constant versions agree with the others, also at 100 %, which they treat apart.
  pub const_rates :
      (n : ℕ) → (bps_u128_to_fraction n ≡ from_bps n) × (pct_u128_to_fraction n ≡ from_percent n)
  unfolding bps_u128_to_fraction pct_u128_to_fraction from_bps from_percent
  const_rates n = rw (Crates-eq-exact c laws) (ground arith)
