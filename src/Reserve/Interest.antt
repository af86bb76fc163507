-- ===== src/Reserve/Interest.antt =====
-- `approximate_compounded_interest` (state/reserve.rs).
use kamino_lending.Base.{Result, if◌then◌else◌, leb, ok, suc, zero, ℕ, ◌*◌, ◌-◌, ◌>>=◌}
use kamino_lending.Crates.{Crates, one}
use kamino_lending.Fraction.{Fraction}

-- 2 slots a second (utils/consts.rs).
abbrev pub slots_per_year : ℕ
slots_per_year = 2 * 60 * 60 * 24 * 365

module _ ⦃c : Crates⦄ where
  open c use {add, mul, mul_int, div_int}

  -- Five slots and more: the first terms of the binomial series. The exponent is a u64, so the
  -- wrapping subtractions of 1 and 2 do not wrap.
  unfoldable pub interest_series : Fraction → ℕ → Result Fraction
  interest_series base exp = do
    base_power_two ← mul base base
    base_power_three ← mul base_power_two base
    first_term ← mul_int base exp
    second_1 ← mul_int base_power_two exp
    second_2 ← mul_int second_1 (exp - 1)
    second_term ← div_int second_2 2
    third_1 ← mul_int base_power_three exp
    third_2 ← mul_int third_1 (exp - 1)
    third_3 ← mul_int third_2 (exp - 2)
    third_term ← div_int third_3 6
    sum_1 ← add one first_term
    sum_2 ← add sum_1 second_term
    add sum_2 third_term

  -- The products of one to four slots.
  unfoldable pub interest_product : Fraction → ℕ → Result Fraction
  interest_product base zero = ok one
  interest_product base (suc zero) = add one base
  interest_product base (suc (suc zero)) = do x ← add one base; mul x x
  interest_product base (suc (suc (suc zero))) = do x ← add one base; y ← mul x x; mul y x
  interest_product base (suc (suc (suc (suc n)))) = do
    x ← add one base
    pow_two ← mul x x
    mul pow_two pow_two

  unfoldable pub approximate_compounded_interest : Fraction → ℕ → Result Fraction
  unfolding interest_series interest_product
  approximate_compounded_interest rate elapsed_slots = do
    base ← div_int rate slots_per_year
    (if leb elapsed_slots 4
        then interest_product base elapsed_slots
        else interest_series base elapsed_slots)
