-- ===== src/Liquidation/Tests.antt =====
-- Runs of liquidation_operations.rs, and its theorems on a concrete obligation.
use kamino_lending.Orders.{find_applicable_obligation_order}
use kamino_lending.LendingMarket.{is_market_autodeleverage_enabled}
use kamino_lending.Reserve.Sample.{config, pool}
use kamino_lending.Obligation.Sample.{pledge, position_of_user, user_loan}
use kamino_lending.Base.{
  LendingError, arith, err, false, none, ok, refl, true, u16_max, min, value_or, ◌*◌, ◌+◌, ◌-◌, ◌/◌,
  ◌≡◌, ◌≤◌, ◌⊎◌,
}
use kamino_lending.Crates.{one}
use kamino_lending.Crates.Exact.{exact, exact-IsExact}
use kamino_lending.Fraction.{from_bps, from_percent, to_ceil, to_floor}
use kamino_lending.Liquidation.Individual.{IsJustified}
use kamino_lending.Liquidation.Justified.{get_liquidation_params-IsJustified}
use kamino_lending.Liquidation.Calculate.{
  calculate_liquidation, get_liquidation_params, is_ltv_exceeded, is_order,
}
use kamino_lending.Liquidation.Reasons.{
  CalculateLiquidationResult, LiquidationCheckInputs, LiquidationParams,
}
use kamino_lending.LendingMarket.Sample.{market}
use kamino_lending.Obligation.{
  evaluate_stop_loss, get_condition_type, is_marked_for_deleveraging, unhealthy_loan_to_value,
  no_bf_loan_to_value, loan_to_value, get_opportunity_type,
}
use kamino_lending.Liquidation.Defs.{
  LiquidationReason, calculate_liquidation_amounts, get_secs_since_deleveraging_started,
  max_liquidatable_borrowed_amount,
}
use kamino_lending.Liquidation.Bonus.{
  calculate_autodeleverage_bonus_rate, calculate_autodeleverage_threshold,
  calculate_liquidation_bonus, calculate_protocol_liquidation_fee,
}
use kamino_lending.Liquidation.Amounts.{AreFair, calculate_liquidation_amounts_lem}
use kamino_lending.Liquidation.Limits.{
  calculate_liquidation_bonus_solvent, calculate_protocol_liquidation_fee_bounds,
}
use kamino_lending.Liquidation.Deleveraging.{
  calculate_autodeleverage_bonus_rate_lem, calculate_autodeleverage_threshold_falls,
}

-- Value above, equal to and below that of the collateral, and dust.
liquidation_runs :
    (calculate_liquidation_amounts (600 * one) pledge (90 * one) false ≡ ok (45 * one, 45, 300))
    × (calculate_liquidation_amounts (600 * one) pledge (90 * one) true ≡ ok (90 * one, 90, 300))
    × (calculate_liquidation_amounts (300 * one) pledge (90 * one) true ≡ ok (90 * one, 90, 300))
    × (calculate_liquidation_amounts (75 * one) pledge (90 * one) false ≡ ok (90 * one, 90, 75))
    × (calculate_liquidation_amounts (one / 2) pledge 1 true ≡ ok (1, 1, 1))
    × (get_secs_since_deleveraging_started 3600 3599 ≡ none)
    × (max_liquidatable_borrowed_amount position_of_user 20 500 user_loan
          (one / 2)
          95
          (LiquidationReason.obligation_order 1)
        ≡ ok (50 * one))
unfolding calculate_liquidation_amounts get_secs_since_deleveraging_started to_ceil to_floor
    max_liquidatable_borrowed_amount get_opportunity_type
liquidation_runs = (refl, refl, refl, refl, refl, refl, refl)

calculate_liquidation_amounts_lem_example :
    AreFair (600 * one) pledge (90 * one) false (45 * one) 45 300
unfolding calculate_liquidation_amounts to_ceil
calculate_liquidation_amounts_lem_example =
    calculate_liquidation_amounts_lem exact-IsExact (600 * one) pledge (90 * one) false (45 * one)
      45 300 refl

calculate_liquidation_bonus_solvent_example :
    (23058430092136939 + 9 * one / 10 ≤ one)
    × (9 * one / 10 * (one + 23058430092136939) ≤ one * one)
    × (23058430092136939 ≤ u16_max * one / 10_000)
unfolding calculate_liquidation_bonus from_bps
calculate_liquidation_bonus_solvent_example =
    calculate_liquidation_bonus_solvent exact-IsExact config config (89 * one / 100) (9 * one / 10)
      (9 * one / 10) u16_max 23058430092136939 (omega arith) refl

calculate_protocol_liquidation_fee_bounds_example : (1 ≤ 10) × (10 ≤ 1000)
unfolding calculate_protocol_liquidation_fee from_percent to_ceil
calculate_protocol_liquidation_fee_bounds_example =
    calculate_protocol_liquidation_fee_bounds exact-IsExact 1000 (one / 9) 10 10 (omega arith)
      (omega arith) refl

calculate_autodeleverage_bonus_rate_lem_example :
    (6917529027641080 ≤ 9223372036854772)
    × (9223372036854772 ≤ 1000 * one / 10_000)
    × (9223372036854772 ≤ u16_max * one / 10_000)
    × (9223372036854772 ≤ one - one / 2)
    × (6917529027641080
        ≡ min
            (min (min 1000 u16_max * one / 10_000) (one - one / 2))
            (50 * one / 10_000 + 10 * one / 10_000 * one / one))
unfolding calculate_autodeleverage_bonus_rate from_bps
calculate_autodeleverage_bonus_rate_lem_example =
    calculate_autodeleverage_bonus_rate_lem exact-IsExact 10 1000 u16_max one (3 * one) (one / 2)
      6917529027641080 9223372036854772 (omega arith) refl refl

calculate_autodeleverage_threshold_falls_example :
    (1147387481384734112 ≤ 1150154492995790544)
    × (1150154492995790544 ≤ one)
    × (1150154492995790544
        ≡ one - pool.config.deleveraging_threshold_decrease_bps_per_day * one / 10_000 * one / one)
unfolding calculate_autodeleverage_threshold from_bps
calculate_autodeleverage_threshold_falls_example =
    calculate_autodeleverage_threshold_falls exact-IsExact pool one (2 * one) 1150154492995790544
      1147387481384734112 (omega arith) refl refl

-- The LTV of 250 / 300 has passed the unhealthy one of 240 / 300.
abbrev unhealthy_inputs : LiquidationCheckInputs
unhealthy_inputs = record {
  lending_market = market;
  collateral_reserve = pool;
  debt_reserve = pool;
  obligation = record position_of_user { borrow_factor_adjusted_debt_value_sf = 250 * one };
  timestamp = 1000;
  max_allowed_ltv_override_pct_opt = none;
}

abbrev no_params : LiquidationParams
no_params = record {
  user_ltv = 0;
  liquidation_bonus_rate = 0;
  liquidation_reason = LiquidationReason.ltv_exceeded;
}

abbrev unhealthy_params : LiquidationParams
unhealthy_params = value_or no_params (get_liquidation_params unhealthy_inputs true true)

abbrev no_result : CalculateLiquidationResult
no_result = record {
  settle_amount = 0;
  repay_amount = 0;
  withdraw_amount = 0;
  liquidation_bonus_rate = 0;
  liquidation_reason = LiquidationReason.ltv_exceeded;
}

abbrev unhealthy_result : CalculateLiquidationResult
unhealthy_result =
    value_or no_result (calculate_liquidation unhealthy_inputs 40 user_loan pledge true true)

unhealthy_amounts :
    (unhealthy_result.settle_amount ≡ 23058430092136939500)
    × (unhealthy_result.repay_amount ≡ 20)
    × (unhealthy_result.withdraw_amount ≡ 20)
unfolding calculate_liquidation loan_to_value no_bf_loan_to_value unhealthy_loan_to_value
    calculate_liquidation_bonus from_bps max_liquidatable_borrowed_amount from_percent
    calculate_liquidation_amounts to_ceil to_floor
unhealthy_amounts = (refl, refl, refl)

get_liquidation_params-IsJustified_example :
    IsJustified unhealthy_inputs unhealthy_params
    × ((is_ltv_exceeded unhealthy_params.liquidation_reason ≡ false)
        ⊎ ((true ≡ true) × (true ≡ true)))
    × ((is_order unhealthy_params.liquidation_reason ≡ false) ⊎ (true ≡ true))
unfolding get_liquidation_params loan_to_value no_bf_loan_to_value unhealthy_loan_to_value
    calculate_liquidation_bonus from_bps
get_liquidation_params-IsJustified_example =
    get_liquidation_params-IsJustified unhealthy_inputs true true unhealthy_params refl

healthy_refused :
    get_liquidation_params (record unhealthy_inputs { obligation = position_of_user }) true true
    ≡ err LendingError.obligation_healthy
unfolding get_liquidation_params loan_to_value no_bf_loan_to_value unhealthy_loan_to_value
    is_marked_for_deleveraging is_market_autodeleverage_enabled find_applicable_obligation_order
    get_condition_type evaluate_stop_loss
healthy_refused = refl
