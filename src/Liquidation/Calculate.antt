-- ===== src/Liquidation/Calculate.antt =====
-- The order in which the reasons for a liquidation are tried, and the terms of the whole
-- (state/liquidation_operations.rs).
use kamino_lending.Liquidation.Reasons.{
  CalculateLiquidationResult, LiquidationCheckInputs, LiquidationParams,
  check_individual_autodeleverage_obligation, check_liquidate_obligation,
  check_market_wide_autodeleverage_obligation, check_obligation_order_execution, or_else,
}
use kamino_lending.Base.{
  Bool, LendingError, Result, false, guard, if◌then◌else◌, ltb, min, not, ok, ok_or, true, ℕ, ◌&&◌,
  ◌==◌, ◌>>=◌, ◌>>◌, ◌||◌,
}
use kamino_lending.Crates.{Crates, one}
use kamino_lending.Fraction.{Fraction}
use kamino_lending.Obligation.{ObligationCollateral, ObligationLiquidity}
use kamino_lending.Liquidation.Defs.{
  LiquidationReason, calculate_liquidation_amounts, max_liquidatable_borrowed_amount,
}

-- `matches!` on the reason.
abbrev pub is_ltv_exceeded : LiquidationReason → Bool
is_ltv_exceeded LiquidationReason.ltv_exceeded = true
is_ltv_exceeded LiquidationReason.individual_deleveraging = false
is_ltv_exceeded LiquidationReason.market_wide_deleveraging = false
is_ltv_exceeded (LiquidationReason.obligation_order i) = false

abbrev pub is_order : LiquidationReason → Bool
is_order LiquidationReason.ltv_exceeded = false
is_order LiquidationReason.individual_deleveraging = false
is_order LiquidationReason.market_wide_deleveraging = false
is_order (LiquidationReason.obligation_order i) = true

module _ ⦃c : Crates⦄ where
  open c use {add, mul, div, from_num}

  unfoldable pub get_liquidation_params :
      LiquidationCheckInputs → Bool → Bool → Result LiquidationParams
  unfolding check_liquidate_obligation check_individual_autodeleverage_obligation
      check_market_wide_autodeleverage_obligation check_obligation_order_execution
  get_liquidation_params inputs is_debt_reserve_highest_borrow_factor
        is_collateral_reserve_lowest_liquidation_ltv =
      do
        found ←
            or_else
              (or_else
                (or_else (check_liquidate_obligation inputs)
                  (check_individual_autodeleverage_obligation inputs))
                (check_market_wide_autodeleverage_obligation inputs))
              (check_obligation_order_execution inputs)
        params ← ok_or found LendingError.obligation_healthy
        let reason = params.liquidation_reason
        guard (not (is_ltv_exceeded reason && not is_debt_reserve_highest_borrow_factor))
            LendingError.liquidation_borrow_factor_priority
        guard
            (not (
              (is_ltv_exceeded reason || is_order reason)
              && not is_collateral_reserve_lowest_liquidation_ltv))
            LendingError.liquidation_lowest_liquidation_ltv_priority
        ok params

  -- The amount of debt to liquidate: all of a debt of little value, else what the close factor and
  -- the liquidator allow.
  unfoldable pub debt_liquidation_amount :
      LiquidationCheckInputs
      → ObligationLiquidity
      → LiquidationParams
      → Fraction
      → Bool
      → Result Fraction
  debt_liquidation_amount inputs liquidity params amount is_below_min =
      let market = inputs.lending_market in
      if is_below_min
      then (do
        guard (not (ltb amount liquidity.borrowed_amount_sf))
            LendingError.repay_too_small_for_full_liquidation
        ok liquidity.borrowed_amount_sf)
      else (do
        most ←
            max_liquidatable_borrowed_amount inputs.obligation
              market.liquidation_max_debt_close_factor_pct
              market.max_liquidatable_debt_market_value_at_once liquidity params.user_ltv
              market.insolvency_risk_unhealthy_ltv_pct params.liquidation_reason
        ok (min most amount))

  unfoldable pub calculate_liquidation :
      LiquidationCheckInputs
      → ℕ
      → ObligationLiquidity
      → ObligationCollateral
      → Bool
      → Bool
      → Result CalculateLiquidationResult
  unfolding get_liquidation_params debt_liquidation_amount
  calculate_liquidation inputs debt_amount_to_liquidate liquidity coll
        is_debt_reserve_highest_borrow_factor is_collateral_reserve_lowest_liquidation_ltv =
      do
        guard (not (inputs.obligation.deposited_value_sf == 0))
            LendingError.invalid_obligation_collateral
        params ←
            get_liquidation_params inputs is_debt_reserve_highest_borrow_factor
              is_collateral_reserve_lowest_liquidation_ltv
        bonus_multiplier ← add params.liquidation_bonus_rate one
        requested ← from_num debt_amount_to_liquidate
        let amount = min requested liquidity.borrowed_amount_sf
        threshold ← from_num inputs.lending_market.min_full_liquidation_value_threshold
        let is_below_min =
            not (is_order params.liquidation_reason) && ltb liquidity.market_value_sf threshold
        amount_f ← debt_liquidation_amount inputs liquidity params amount is_below_min
        ratio ← div amount_f liquidity.borrowed_amount_sf
        value ← mul liquidity.market_value_sf ratio
        total ← mul value bonus_multiplier
        amounts ← calculate_liquidation_amounts total coll amount_f is_below_min
        ok (record {
          settle_amount = amounts.0;
          repay_amount = amounts.1;
          withdraw_amount = amounts.2;
          liquidation_bonus_rate = params.liquidation_bonus_rate;
          liquidation_reason = params.liquidation_reason;
        })
