-- ===== src/Obligation/Positions.antt =====
-- `ObligationCollateral` and `ObligationLiquidity` (state/obligation.rs), the entries of an
-- obligation. The padding is left out.
use kamino_lending.Base.{
  Bool, LendingError, Result, err, if◌then◌else◌, ltb, not, ok, ok_or, u64_max, ℕ, ◌==◌, ◌>>=◌,
}
use kamino_lending.Crates.{Crates, checked_add_int, checked_sub_int}
use kamino_lending.Fraction.{BigFraction, Fraction}
use kamino_lending.Reserve.{Pubkey}

pub record ObligationCollateral : Type 0 where
  pub deposit_reserve : Pubkey
  pub deposited_amount : ℕ
  pub market_value_sf : ℕ
  pub borrowed_amount_against_this_collateral_in_elevation_group : ℕ

pub record ObligationLiquidity : Type 0 where
  pub borrow_reserve : Pubkey
  pub cumulative_borrow_rate_bsf : ℕ
  pub borrowed_amount_sf : ℕ
  pub market_value_sf : ℕ
  pub borrow_factor_adjusted_market_value_sf : ℕ
  pub borrowed_amount_outside_elevation_groups : ℕ

-- `ObligationCollateral::new`; the default is the one of the default key.
unfoldable pub new_obligation_collateral : Pubkey → ObligationCollateral
new_obligation_collateral deposit_reserve = record {
  deposit_reserve = deposit_reserve;
  deposited_amount = 0;
  market_value_sf = 0;
  borrowed_amount_against_this_collateral_in_elevation_group = 0;
}

unfoldable pub deposit : ObligationCollateral → ℕ → Result ObligationCollateral
deposit t collateral_amount = do
  amount ←
      ok_or (checked_add_int u64_max t.deposited_amount collateral_amount)
        LendingError.math_overflow
  ok (record t { deposited_amount = amount })

unfoldable pub withdraw : ObligationCollateral → ℕ → Result ObligationCollateral
withdraw t collateral_amount = do
  amount ← ok_or (checked_sub_int t.deposited_amount collateral_amount) LendingError.math_overflow
  ok (record t { deposited_amount = amount })

-- `ObligationCollateral::is_active`
unfoldable pub is_collateral_active : ObligationCollateral → Bool
is_collateral_active t = not (t.deposit_reserve == 0)

-- `ObligationLiquidity::new`; the default is the one of the default key and rate.
unfoldable pub new_obligation_liquidity : Pubkey → BigFraction → ObligationLiquidity
new_obligation_liquidity borrow_reserve cumulative_borrow_rate_bf = record {
  borrow_reserve = borrow_reserve;
  cumulative_borrow_rate_bsf = cumulative_borrow_rate_bf;
  borrowed_amount_sf = 0;
  market_value_sf = 0;
  borrow_factor_adjusted_market_value_sf = 0;
  borrowed_amount_outside_elevation_groups = 0;
}

-- `ObligationLiquidity::is_active`
unfoldable pub is_liquidity_active : ObligationLiquidity → Bool
is_liquidity_active t = not (t.borrow_reserve == 0)

module _ ⦃c : Crates⦄ where
  open c use {add, sub, u256_mul, u256_div, u256_to_u128}

  unfoldable pub repay : ObligationLiquidity → Fraction → Result ObligationLiquidity
  repay t settle_amount = do
    amount ← sub t.borrowed_amount_sf settle_amount
    ok (record t { borrowed_amount_sf = amount })

  unfoldable pub borrow : ObligationLiquidity → Fraction → Result ObligationLiquidity
  borrow t borrow_amount = do
    amount ← add t.borrowed_amount_sf borrow_amount
    ok (record t { borrowed_amount_sf = amount })

  -- The debt in proportion to the two rates.
  unfoldable pub scale_debt : ObligationLiquidity → BigFraction → Result ObligationLiquidity
  scale_debt t new_cumulative_borrow_rate = do
    product ← u256_mul t.borrowed_amount_sf new_cumulative_borrow_rate
    quotient ← u256_div product t.cumulative_borrow_rate_bsf
    amount ← ok_or (u256_to_u128 quotient) LendingError.math_overflow
    ok (record t {
      borrowed_amount_sf = amount;
      cumulative_borrow_rate_bsf = new_cumulative_borrow_rate;
    })

  unfoldable pub accrue_interest : ObligationLiquidity → BigFraction → Result ObligationLiquidity
  unfolding scale_debt
  accrue_interest t new_cumulative_borrow_rate =
      if ltb new_cumulative_borrow_rate t.cumulative_borrow_rate_bsf
      then err LendingError.negative_interest_rate
      else (if new_cumulative_borrow_rate == t.cumulative_borrow_rate_bsf
          then ok t
          else scale_debt t new_cumulative_borrow_rate)
