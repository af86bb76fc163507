-- ===== src/Reserve/Loans.antt =====
-- The methods of `Reserve` (state/reserve.rs) that compute the terms of a borrow, a repayment and a
-- withdrawal of fees.
use kamino_lending.Reserve.State.{Reserve}
use kamino_lending.Base.{
  Bool, LendingError, Result, guard, if◌then◌else◌, ltb, min, not, ok, u64_max, ℕ, ◌+◌, ◌==◌, ◌>>=◌,
  ◌>>◌,
}
use kamino_lending.Crates.{Crates, checked, difference, one}
use kamino_lending.Fraction.{Fraction, to_ceil, to_floor}
use kamino_lending.Reserve.Config.{get_borrow_factor}
use kamino_lending.Reserve.Fees.{FeeCalculation, calculate_borrow_fees}
use kamino_lending.Reserve.Liquidity.{ReferrerTokenState, mint_factor}

-- `CalculateBorrowResult` and `CalculateRepayResult` (state/types.rs)
pub record CalculateBorrowResult : Type 0 where
  pub borrow_amount_f : Fraction
  pub receive_amount : ℕ
  pub borrow_fee : ℕ
  pub referrer_fee : ℕ

pub record CalculateRepayResult : Type 0 where
  pub settle_amount : Fraction
  pub repay_amount : ℕ

module _ ⦃c : Crates⦄ where
  open c use {add, mul, div, mul_int, div_int, from_num}

  unfoldable pub borrow_factor_f : Reserve → Bool → Result Fraction
  unfolding get_borrow_factor
  borrow_factor_f r is_in_elevation_group =
      if is_in_elevation_group then ok one else get_borrow_factor r.config

  -- `calculate_borrow` for `u64::MAX`: as much as the limits allow, the fees included.
  unfoldable pub borrow_maximum :
      Reserve → Fraction → Fraction → ℕ → Bool → Bool → Result CalculateBorrowResult
  borrow_maximum r max_debt_value remaining_reserve_borrow referral_fee_bps is_in_elevation_group
        has_referrer =
      do
        decimals ← mint_factor r.liquidity
        scaled ← mul_int max_debt_value decimals
        at_price ← div scaled r.liquidity.market_price_sf
        factor ← borrow_factor_f r is_in_elevation_group
        at_factor ← div at_price factor
        available ← from_num r.liquidity.available_amount
        let borrow_amount_f = min (min at_factor remaining_reserve_borrow) available
        fees ←
            calculate_borrow_fees r.config.fees borrow_amount_f FeeCalculation.inclusive
              referral_fee_bps has_referrer
        borrow_amount ← to_floor u64_max borrow_amount_f
        after_fee ← difference borrow_amount fees.0
        receive_amount ← difference after_fee fees.1
        ok (record {
          borrow_amount_f = borrow_amount_f;
          receive_amount = receive_amount;
          borrow_fee = fees.0;
          referrer_fee = fees.1;
        })

  -- `calculate_borrow` for any other amount: the fees come on top.
  unfoldable pub borrow_exactly :
      Reserve → ℕ → Fraction → ℕ → Bool → Bool → Result CalculateBorrowResult
  borrow_exactly r receive_amount max_debt_value referral_fee_bps is_in_elevation_group
        has_referrer =
      do
        decimals ← mint_factor r.liquidity
        receive_f ← from_num receive_amount
        fees ←
            calculate_borrow_fees r.config.fees receive_f FeeCalculation.exclusive referral_fee_bps
              has_referrer
        fee_sum ← checked u64_max (fees.0 + fees.1)
        fee_f ← from_num fee_sum
        borrow_amount_f ← add receive_f fee_f
        value ← mul borrow_amount_f r.liquidity.market_price_sf
        value_in_tokens ← div_int value decimals
        factor ← borrow_factor_f r is_in_elevation_group
        debt_value ← mul value_in_tokens factor
        guard (not (ltb max_debt_value debt_value)) LendingError.borrow_too_large
        ok (record {
          borrow_amount_f = borrow_amount_f;
          receive_amount = receive_amount;
          borrow_fee = fees.0;
          referrer_fee = fees.1;
        })

  unfoldable pub calculate_borrow :
      Reserve → ℕ → Fraction → Fraction → ℕ → Bool → Bool → Result CalculateBorrowResult
  calculate_borrow r amount_to_borrow max_debt_value remaining_reserve_borrow referral_fee_bps
        is_in_elevation_group has_referrer =
      if amount_to_borrow == u64_max
      then borrow_maximum r max_debt_value remaining_reserve_borrow referral_fee_bps
          is_in_elevation_group has_referrer
      else borrow_exactly r amount_to_borrow max_debt_value referral_fee_bps is_in_elevation_group
          has_referrer

  unfoldable pub calculate_repay : ℕ → Fraction → Result CalculateRepayResult
  unfolding to_ceil
  calculate_repay amount_to_repay borrowed_amount = do
    settle_amount ←
        (if amount_to_repay == u64_max
          then ok borrowed_amount
          else (from_num amount_to_repay >>= λ f. ok (min f borrowed_amount)))
    repay_amount ← to_ceil u64_max settle_amount
    ok (record { settle_amount = settle_amount; repay_amount = repay_amount })

  unfoldable pub calculate_redeem_fees : Reserve → Result ℕ
  unfolding to_floor
  calculate_redeem_fees r = do
    fees ← to_floor u64_max r.liquidity.accumulated_protocol_fees_sf
    ok (min r.liquidity.available_amount fees)

  unfoldable pub get_withdraw_referrer_fees : Reserve → ReferrerTokenState → Result ℕ
  unfolding to_floor
  get_withdraw_referrer_fees r state = do
    let unclaimed_sf = min state.amount_unclaimed_sf r.liquidity.accumulated_referrer_fees_sf
    unclaimed ← to_floor u64_max unclaimed_sf
    ok (min unclaimed r.liquidity.available_amount)
