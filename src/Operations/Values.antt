-- ===== src/Operations/Values.antt =====
-- Market values, and the conditions that hold after an operation on an obligation (the module `utils`
-- of lending_operations.rs).
use kamino_lending.Base.{
  LendingError, Option, Result, guard, if◌then◌else◌, leb, ltb, none, not, ok, some, ℕ, ◌&&◌, ◌==◌,
  ◌>>=◌, ◌>>◌,
}
use kamino_lending.Crates.{Crates}
use kamino_lending.Fraction.{Fraction, from_percent}
use kamino_lending.Reserve.{
  Reserve, borrow_factor_f, collateral_exchange_rate, fraction_collateral_to_liquidity, mint_factor,
}
use kamino_lending.LendingMarket.{
  ElevationGroup, LendingMarket, elevation_group_none, get_elevation_group,
}
use kamino_lending.Obligation.{
  Obligation, ObligationCollateral, ObligationLiquidity, active_deposits_count, loan_to_value,
  unhealthy_loan_to_value,
}

-- A position may be empty, but not of less value than the least.
abbrev pub above_least : Fraction → Fraction → Result (Unit {0})
above_least value least =
    guard (not (ltb 0 value && ltb value least)) LendingError.net_value_remaining_too_small

module _ ⦃c : Crates⦄ where
  open c use {add, sub, mul, div, div_int, from_num}

  unfoldable pub calculate_market_value_from_liquidity_amount : Reserve → Fraction → Result Fraction
  calculate_market_value_from_liquidity_amount r liquidity_amount = do
    mint_decimal_factor ← mint_factor r.liquidity
    value ← mul liquidity_amount r.liquidity.market_price_sf
    div_int value mint_decimal_factor

  unfoldable pub calculate_obligation_collateral_market_value :
      Reserve → ObligationCollateral → Result Fraction
  unfolding calculate_market_value_from_liquidity_amount
  calculate_obligation_collateral_market_value r t = do
    rate ← collateral_exchange_rate r
    deposited ← from_num t.deposited_amount
    liquidity_amount ← fraction_collateral_to_liquidity rate deposited
    calculate_market_value_from_liquidity_amount r liquidity_amount

  unfoldable pub calculate_obligation_liquidity_market_value :
      Reserve → ObligationLiquidity → Result Fraction
  unfolding calculate_market_value_from_liquidity_amount
  calculate_obligation_liquidity_market_value r t =
      calculate_market_value_from_liquidity_amount r t.borrowed_amount_sf

  unfoldable pub post_deposit_obligation_invariants :
      Fraction → Obligation → Reserve → Fraction → Fraction → Result (Unit {0})
  unfolding calculate_market_value_from_liquidity_amount
  post_deposit_obligation_invariants amount o r previous_collateral_asset_mv
        min_accepted_net_value =
      do
        asset_mv ← calculate_market_value_from_liquidity_amount r amount
        new_total_deposited_mv ← add o.deposited_value_sf asset_mv
        new_collateral_asset_mv ← add previous_collateral_asset_mv asset_mv
        new_ltv ← div o.borrow_factor_adjusted_debt_value_sf new_total_deposited_mv
        above_least new_collateral_asset_mv min_accepted_net_value
        (if o.deposited_value_sf == 0
            then ok tt
            else (loan_to_value o >>= λ ltv.
                guard (not (ltb ltv new_ltv)) LendingError.worse_ltv_blocked))

  -- The deposit that is left of the asset, where it had a value.
  unfoldable pub rest_is_enough : Fraction → Fraction → Fraction → Result (Unit {0})
  rest_is_enough previous asset_mv min_accepted_net_value =
      if previous == 0
      then ok tt
      else (do rest ← sub previous asset_mv; above_least rest min_accepted_net_value)

  -- What is left of the obligation is healthy.
  unfoldable pub stays_healthy : Obligation → Fraction → Fraction → ℕ → Result (Unit {0})
  stays_healthy o asset_mv new_total_deposited_mv reserve_liquidation_threshold_pct = do
    guard (not (leb new_total_deposited_mv o.borrowed_assets_market_value_sf))
        LendingError.liabilities_bigger_than_assets
    new_ltv ← div o.borrow_factor_adjusted_debt_value_sf new_total_deposited_mv
    threshold ← from_percent reserve_liquidation_threshold_pct
    lost ← mul asset_mv threshold
    new_unhealthy_borrow_value ← sub o.unhealthy_borrow_value_sf lost
    new_unhealthy_ltv ← div new_unhealthy_borrow_value new_total_deposited_mv
    guard (not (leb new_unhealthy_ltv new_ltv && not (new_ltv == 0)))
        LendingError.worse_ltv_than_unhealthy_ltv

  unfoldable pub post_withdraw_obligation_invariants :
      Fraction → Obligation → Reserve → ℕ → Fraction → Fraction → Result (Unit {0})
  unfolding calculate_market_value_from_liquidity_amount rest_is_enough stays_healthy
  post_withdraw_obligation_invariants amount o r reserve_liquidation_threshold_pct
        previous_collateral_asset_mv min_accepted_net_value =
      do
        asset_mv ← calculate_market_value_from_liquidity_amount r amount
        new_total_deposited_mv ← sub o.deposited_value_sf asset_mv
        rest_is_enough previous_collateral_asset_mv asset_mv min_accepted_net_value
        guard (not (new_total_deposited_mv == 0 && ltb 0 o.borrow_factor_adjusted_debt_value_sf))
            LendingError.liabilities_bigger_than_assets
        (if new_total_deposited_mv == 0
            then ok tt
            else stays_healthy o asset_mv new_total_deposited_mv reserve_liquidation_threshold_pct)

  -- The LTV has not risen above the one before, and is below the unhealthy LTV.
  unfoldable pub not_worse : Obligation → Fraction → Result (Unit {0})
  not_worse o initial_ltv = if o.deposited_value_sf == 0 then ok tt else (do
    new_unhealthy_ltv ← unhealthy_loan_to_value o
    new_ltv ← loan_to_value o
    guard (not (ltb initial_ltv new_ltv)) LendingError.worse_ltv_blocked
    guard (not (leb new_unhealthy_ltv new_ltv)) LendingError.worse_ltv_than_unhealthy_ltv)

  unfoldable pub post_repay_and_withdraw_obligation_enforcements :
      Obligation → Reserve → Fraction → Result (Unit {0})
  unfolding not_worse
  post_repay_and_withdraw_obligation_enforcements o withdraw_reserve initial_ltv_before_repay = do
    let owes = ltb 0 o.borrow_factor_adjusted_debt_value_sf
    guard (not (o.lowest_reserve_deposit_max_ltv_pct == 0 && owes))
        LendingError.zero_max_ltv_assets_in_deposits
    guard
        (not (
          ltb o.lowest_reserve_deposit_max_ltv_pct withdraw_reserve.config.loan_to_value_pct
          && owes))
        LendingError.lowest_ltv_assets_priority
    not_worse o initial_ltv_before_repay
    guard (not (o.deposited_value_sf == 0 && owes)) LendingError.liabilities_bigger_than_assets

  -- An obligation in a group has no more deposits than the group allows.
  unfoldable pub check_collateral_count : Option ElevationGroup → Obligation → Result (Unit {0})
  check_collateral_count none o = ok tt
  check_collateral_count (some g) o =
      guard (leb (active_deposits_count o) g.max_reserves_as_collateral)
        LendingError.obligation_collateral_exceeds_elevation_group_limit

  unfoldable pub post_deposit_and_withdraw_obligation_enforcements :
      Obligation → Reserve → LendingMarket → Fraction → Result (Unit {0})
  unfolding not_worse check_collateral_count
  post_deposit_and_withdraw_obligation_enforcements o withdraw_reserve market initial_ltv = do
    let owes = ltb 0 o.borrow_factor_adjusted_debt_value_sf
    guard (not (o.lowest_reserve_deposit_max_ltv_pct == 0 && owes))
        LendingError.zero_max_ltv_assets_in_deposits
    guard
        (not (
          ltb o.lowest_reserve_deposit_max_ltv_pct withdraw_reserve.config.loan_to_value_pct
          && owes))
        LendingError.lowest_ltv_assets_priority
    not_worse o initial_ltv
    guard (not (o.deposited_value_sf == 0 && owes)) LendingError.liabilities_bigger_than_assets
    group ← get_elevation_group o.elevation_group market
    check_collateral_count group o

  unfoldable pub post_borrow_obligation_invariants :
      Fraction → Obligation → Reserve → Fraction → Fraction → Result (Unit {0})
  unfolding calculate_market_value_from_liquidity_amount
  post_borrow_obligation_invariants amount o r liquidity_asset_mv min_accepted_net_value = do
    asset_mv ← calculate_market_value_from_liquidity_amount r amount
    factor ← borrow_factor_f r (not (o.elevation_group == elevation_group_none))
    weighed ← mul asset_mv factor
    new_total_bf_debt_mv ← add o.borrow_factor_adjusted_debt_value_sf weighed
    new_total_no_bf_debt_mv ← add o.borrowed_assets_market_value_sf asset_mv
    new_liquidity_asset_mv ← add liquidity_asset_mv asset_mv
    above_least new_liquidity_asset_mv min_accepted_net_value
    new_ltv ← div new_total_bf_debt_mv o.deposited_value_sf
    unhealthy_ltv ← unhealthy_loan_to_value o
    guard (not (ltb unhealthy_ltv new_ltv)) LendingError.worse_ltv_than_unhealthy_ltv
    guard (not (leb o.deposited_value_sf new_total_no_bf_debt_mv))
        LendingError.liabilities_bigger_than_assets

  unfoldable pub post_repay_obligation_invariants :
      Fraction → Obligation → Reserve → Fraction → Fraction → Result (Unit {0})
  unfolding calculate_market_value_from_liquidity_amount rest_is_enough
  post_repay_obligation_invariants amount o r liquidity_asset_mv min_accepted_net_value = do
    asset_mv ← calculate_market_value_from_liquidity_amount r amount
    factor ← borrow_factor_f r (not (o.elevation_group == elevation_group_none))
    weighed ← mul asset_mv factor
    new_total_bf_debt_mv ← sub o.borrow_factor_adjusted_debt_value_sf weighed
    rest_is_enough liquidity_asset_mv asset_mv min_accepted_net_value
    (if o.deposited_value_sf == 0 then ok tt else (do
      new_ltv ← div new_total_bf_debt_mv o.deposited_value_sf
      ltv ← loan_to_value o
      guard (not (ltb ltv new_ltv)) LendingError.worse_ltv_blocked))
