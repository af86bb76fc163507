-- ===== src/Fraction/Defs.antt =====
-- The operations of utils/fraction.rs over the number crates.
use kamino_lending.Base.{
  LendingError, Option, Result, false, if◌then◌else◌, ltb, none, ok, ok_or, some, suc, true,
  u128_max, unwrap, zero, ℕ, ◌%◌, ◌*◌, ◌+◌, ◌/◌, ◌==◌, ◌>>=◌, ◌^◌,
}
use kamino_lending.Crates.{Crates, checked, difference, one}

abbrev pub Fraction : Type 0
Fraction = ℕ

abbrev pub BigFraction : Type 0
BigFraction = ℕ

-- Fraction::FRAC_NBITS
abbrev pub frac_nbits : ℕ
frac_nbits = 60

module _ ⦃c : Crates⦄ where
  open c use {
    mul, mul_int, div_int, checked_mul, from_num, floor, ceil, round, to_num, checked_to_num,
    u256_add, u256_sub, u256_mul, u256_div, u256_shl, u256_shr, u256_to_u128,
  }

  abbrev bind? : Option ℕ → (ℕ → Option ℕ) → Option ℕ
  bind? none f = none
  bind? (some a) f = f a

  -- The loop of `pow_fraction` and the product after it; the fuel bounds the rounds.
  pow_loop : ℕ → ℕ → ℕ → ℕ → Option ℕ
  pow_loop zero x y n = checked_mul x y
  pow_loop (suc fuel) x y n = elim (ltb 1 n) [
    | false ↦ checked_mul x y
    | true ↦
        bind? (if n % 2 == 1 then checked_mul x y else some y)
          λ y'. bind? (checked_mul x x) λ x'. pow_loop fuel x' y' (n / 2)
  ]

  unfoldable pub pow_fraction : Fraction → ℕ → Option Fraction
  unfolding pow_loop
  pow_fraction fraction power = if power == 0 then some one else pow_loop 32 fraction one power

  unfoldable pub bps_u128_to_fraction : ℕ → Result Fraction
  bps_u128_to_fraction bps =
      if bps == 10_000 then ok one else (from_num bps >>= λ f. div_int f 10_000)

  unfoldable pub pct_u128_to_fraction : ℕ → Result Fraction
  pct_u128_to_fraction percent =
      if percent == 100 then ok one else (from_num percent >>= λ f. div_int f 100)

  -- The first argument is the largest value of the destination type.
  unfoldable pub to_percent : ℕ → Fraction → Result (Option ℕ)
  to_percent dst f = do x ← mul_int f 100; r ← round x; ok (checked_to_num dst r)

  unfoldable pub to_bps : ℕ → Fraction → Result (Option ℕ)
  to_bps dst f = do x ← mul_int f 10_000; r ← round x; ok (checked_to_num dst r)

  unfoldable pub from_percent : ℕ → Result Fraction
  from_percent percent = do f ← from_num percent; div_int f 100

  unfoldable pub from_bps : ℕ → Result Fraction
  from_bps bps = do f ← from_num bps; div_int f 10_000

  unfoldable pub mul_int_ratio : Fraction → ℕ → ℕ → Result Fraction
  mul_int_ratio f numerator denominator = do x ← mul_int f numerator; div_int x denominator

  unfoldable pub full_mul_int_ratio : Fraction → ℕ → ℕ → Result Fraction
  full_mul_int_ratio f numerator denominator = do
    x ← u256_mul f numerator
    big_sf_res ← u256_div x denominator
    unwrap (u256_to_u128 big_sf_res)

  unfoldable pub div_ceil : Fraction → Fraction → Result Fraction
  div_ceil num_sf denum_sf = do
    less ← difference denum_sf 1
    sum ← u256_add (u256_shl num_sf frac_nbits) less
    res_sf_u256 ← u256_div sum denum_sf
    unwrap (u256_to_u128 res_sf_u256)

  unfoldable pub to_floor : ℕ → Fraction → Result ℕ
  to_floor dst f = to_num dst (floor f)

  unfoldable pub to_ceil : ℕ → Fraction → Result ℕ
  to_ceil dst f = do x ← ceil f; to_num dst x

  unfoldable pub to_round : ℕ → Fraction → Result ℕ
  to_round dst f = do x ← round f; to_num dst x

  unfoldable pub try_to_floor : ℕ → Fraction → Option ℕ
  try_to_floor dst f = checked_to_num dst (floor f)

  unfoldable pub try_to_ceil : ℕ → Fraction → Result (Option ℕ)
  try_to_ceil dst f = do x ← ceil f; ok (checked_to_num dst x)

  unfoldable pub try_to_round : ℕ → Fraction → Result (Option ℕ)
  try_to_round dst f = do x ← round f; ok (checked_to_num dst x)

  -- `TryFrom<BigFraction> for Fraction`
  unfoldable pub fraction_of_big : BigFraction → Result Fraction
  fraction_of_big value = ok_or (u256_to_u128 value) LendingError.integer_overflow

  -- `BigFraction::from_num`
  unfoldable pub big_from_num : ℕ → BigFraction
  big_from_num num = u256_shl num frac_nbits

  unfoldable pub big_add : BigFraction → BigFraction → Result BigFraction
  big_add a b = u256_add a b

  unfoldable pub big_sub : BigFraction → BigFraction → Result BigFraction
  big_sub a b = u256_sub a b

  unfoldable pub big_mul : BigFraction → BigFraction → Result BigFraction
  big_mul a b = do extra_scaled ← u256_mul a b; ok (u256_shr extra_scaled frac_nbits)

  -- `Div` by a `BigFraction` and `Div<Fraction>`: the same shift, then a division by the bits.
  unfoldable pub big_div : BigFraction → BigFraction → Result BigFraction
  big_div a b = u256_div (u256_shl a frac_nbits) b

  -- `Mul<T>` and `Div<T>` by an integer.
  unfoldable pub big_mul_int : BigFraction → ℕ → Result BigFraction
  big_mul_int a n = u256_mul a n

  unfoldable pub big_div_int : BigFraction → ℕ → Result BigFraction
  big_div_int a n = u256_div a n

-- `Display for FractionDisplay`: the integer and the four decimals that are printed.
unfoldable pub display_parts : Fraction → Result (ℕ × ℕ)
display_parts f = do
  sf ← checked u128_max (f + 2 ^ 60 / (10_000 * 2))
  let f_p = sf % 2 ^ 60
  ok (sf / 2 ^ 60, f_p / 2 ^ 30 * 10_000 / 2 ^ 30)
