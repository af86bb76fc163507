-- ===== src/Liquidation/Reasons.antt =====
-- The reasons for a liquidation, and the terms of each (state/liquidation_operations.rs).
use kamino_lending.Base.{
  Bool, Option, Result, contains, get_elem?, if◌then◌else◌, leb, ltb, none, not, ok, some, u16_max,
  unwrap, unwrap_ok, ℕ, ◌&&◌, ◌-◌, ◌==◌, ◌>>=◌, ◌||◌,
}
use kamino_lending.Crates.{Crates}
use kamino_lending.Fraction.{Fraction, from_percent}
use kamino_lending.Reserve.{
  Reserve, ReserveConfig, borrow_limit_crossed, deposit_limit_crossed, is_autodeleverage_enabled,
}
use kamino_lending.LendingMarket.{
  ElevationGroup, LendingMarket, elevation_group_at, elevation_group_none,
  is_market_autodeleverage_enabled, is_obligation_order_execution_enabled,
}
use kamino_lending.Obligation.{
  Obligation, is_marked_for_deleveraging, loan_to_value, no_bf_loan_to_value,
  unhealthy_loan_to_value,
}
use kamino_lending.Orders.{find_applicable_obligation_order}
use kamino_lending.Liquidation.Defs.{LiquidationReason, get_secs_since_deleveraging_started}
use kamino_lending.Liquidation.Bonus.{
  calculate_autodeleverage_bonus_rate, calculate_autodeleverage_threshold,
  calculate_liquidation_bonus, calculate_order_execution_bonus_rate, to_days_fractional,
}

-- `LiquidationCheckInputs`, `LiquidationParams` and `CalculateLiquidationResult` (state/types.rs)
pub record LiquidationCheckInputs : Type 0 where
  pub lending_market : LendingMarket
  pub collateral_reserve : Reserve
  pub debt_reserve : Reserve
  pub obligation : Obligation
  pub timestamp : ℕ
  pub max_allowed_ltv_override_pct_opt : Option ℕ

pub record LiquidationParams : Type 0 where
  pub user_ltv : Fraction
  pub liquidation_bonus_rate : Fraction
  pub liquidation_reason : LiquidationReason

pub record CalculateLiquidationResult : Type 0 where
  pub settle_amount : Fraction
  pub repay_amount : ℕ
  pub withdraw_amount : ℕ
  pub liquidation_bonus_rate : Fraction
  pub liquidation_reason : LiquidationReason

-- `o.or_else(f)`
abbrev pub or_else :
    Result (Option LiquidationParams)
    → Result (Option LiquidationParams)
    → Result (Option LiquidationParams)
or_else first second = first >>= λ params. elim params [ some p ↦ ok (some p) | none ↦ second ]

-- The cap on the bonus that a group sets, where it sets one.
unfoldable pub group_max_bonus : ElevationGroup → ReserveConfig → ReserveConfig → ℕ
group_max_bonus group coll_config debt_config =
    if ltb coll_config.max_liquidation_bonus_bps group.max_liquidation_bonus_bps
      || ltb debt_config.max_liquidation_bonus_bps group.max_liquidation_bonus_bps
      || group.max_liquidation_bonus_bps == 0
    then u16_max
    else group.max_liquidation_bonus_bps

unfoldable pub get_emode_max_liquidation_bonus :
    LendingMarket → ReserveConfig → ReserveConfig → Obligation → Result ℕ
unfolding group_max_bonus
get_emode_max_liquidation_bonus market coll_config debt_config o =
    if not (o.elevation_group == elevation_group_none)
      && contains coll_config.elevation_groups o.elevation_group
      && contains debt_config.elevation_groups o.elevation_group
    then (do
      found ← unwrap_ok (elevation_group_at market o.elevation_group)
      group ← unwrap found
      ok (group_max_bonus group coll_config debt_config))
    else ok u16_max

-- `max_by_key` on the maximal bonus and its daily increase, which prefers the last of equals.
unfoldable pub select_config : ReserveConfig → ReserveConfig → ReserveConfig
select_config coll_config debt_config =
    if ltb debt_config.max_liquidation_bonus_bps coll_config.max_liquidation_bonus_bps
      || (debt_config.max_liquidation_bonus_bps == coll_config.max_liquidation_bonus_bps
          && ltb debt_config.deleveraging_bonus_increase_bps_per_day
              coll_config.deleveraging_bonus_increase_bps_per_day)
    then coll_config
    else debt_config

-- The stamp of a limit that is crossed, and the seconds since its margin call period ended.
unfoldable pub secs_since_limit_crossed : Bool → ℕ → ℕ → ℕ → Option ℕ
unfolding get_secs_since_deleveraging_started
secs_since_limit_crossed crossed stamp margin_call_period_secs timestamp =
    if crossed
    then (if stamp == 0
        then none
        else get_secs_since_deleveraging_started margin_call_period_secs (timestamp - stamp))
    else none

module _ ⦃c : Crates⦄ where
  open c use {add, mul, div, from_num}

  unfoldable pub max_allowed_ltv_of : Obligation → Option ℕ → Result Fraction
  max_allowed_ltv_of o none = unhealthy_loan_to_value o
  max_allowed_ltv_of o (some pct) = do user ← unhealthy_loan_to_value o; from_percent pct

  unfoldable pub check_liquidate_obligation :
      LiquidationCheckInputs → Result (Option LiquidationParams)
  unfolding max_allowed_ltv_of get_emode_max_liquidation_bonus
  check_liquidate_obligation inputs = do
    let o = inputs.obligation
    let coll_config = inputs.collateral_reserve.config
    let debt_config = inputs.debt_reserve.config
    user_ltv ← loan_to_value o
    user_no_bf_ltv ← no_bf_loan_to_value o
    max_allowed_ltv ← max_allowed_ltv_of o inputs.max_allowed_ltv_override_pct_opt
    (if leb max_allowed_ltv user_ltv
        then (do
          emode_max ←
              get_emode_max_liquidation_bonus inputs.lending_market coll_config debt_config o
          bonus ←
              calculate_liquidation_bonus coll_config debt_config max_allowed_ltv user_ltv
                user_no_bf_ltv emode_max
          ok (
              some (record {
                user_ltv = user_ltv;
                liquidation_bonus_rate = bonus;
                liquidation_reason = LiquidationReason.ltv_exceeded;
              })))
        else ok none)

  -- The terms of an individual auto-deleveraging, given the seconds since it started.
  unfoldable pub individual_terms :
      LiquidationCheckInputs → Fraction → Option ℕ → Result (Option LiquidationParams)
  unfolding select_config get_emode_max_liquidation_bonus
  individual_terms inputs user_ltv none = ok none
  individual_terms inputs user_ltv (some secs) = do
    let o = inputs.obligation
    let coll_config = inputs.collateral_reserve.config
    let debt_config = inputs.debt_reserve.config
    let config = select_config coll_config debt_config
    days ← to_days_fractional secs
    emode_max ← get_emode_max_liquidation_bonus inputs.lending_market coll_config debt_config o
    no_bf_ltv ← no_bf_loan_to_value o
    bonus ←
        calculate_autodeleverage_bonus_rate config.deleveraging_bonus_increase_bps_per_day
          config.max_liquidation_bonus_bps emode_max days no_bf_ltv
    ok (
        some (record {
          user_ltv = user_ltv;
          liquidation_bonus_rate = bonus;
          liquidation_reason = LiquidationReason.individual_deleveraging;
        }))

  unfoldable pub check_individual_autodeleverage_obligation :
      LiquidationCheckInputs → Result (Option LiquidationParams)
  unfolding individual_terms
  check_individual_autodeleverage_obligation inputs =
      let o = inputs.obligation in
      let market = inputs.lending_market in
      let started = inputs.timestamp - o.autodeleverage_margin_call_started_timestamp in
      if not (is_marked_for_deleveraging o)
      then ok none
      else (if not (is_market_autodeleverage_enabled market)
          then ok none
          else (if market.individual_autodeleverage_margin_call_period_secs == 0
              then ok none
              else (do
                user_ltv ← loan_to_value o
                target_ltv ← from_percent o.autodeleverage_target_ltv_pct
                (if leb user_ltv target_ltv
                    then ok none
                    else individual_terms inputs user_ltv (
                        get_secs_since_deleveraging_started
                          market.individual_autodeleverage_margin_call_period_secs started)))))

  unfoldable pub get_autodeleverage_liquidation_params :
      Reserve → Obligation → ℕ → Result (Option LiquidationParams)
  get_autodeleverage_liquidation_params r o secs_since_deleveraging_started = do
    days ← to_days_fractional secs_since_deleveraging_started
    threshold ← calculate_autodeleverage_threshold r days
    user_ltv ← loan_to_value o
    (if leb threshold user_ltv
        then (do
          no_bf_ltv ← no_bf_loan_to_value o
          bonus ←
              calculate_autodeleverage_bonus_rate r.config.deleveraging_bonus_increase_bps_per_day
                r.config.max_liquidation_bonus_bps u16_max days no_bf_ltv
          ok (
              some (record {
                user_ltv = user_ltv;
                liquidation_bonus_rate = bonus;
                liquidation_reason = LiquidationReason.market_wide_deleveraging;
              })))
        else ok none)

  unfoldable pub get_secs_since_autodeleverage_obligation_collateral_deposit_limit_crossed :
      Reserve → ℕ → Result (Option ℕ)
  unfolding secs_since_limit_crossed
  get_secs_since_autodeleverage_obligation_collateral_deposit_limit_crossed r timestamp = do
    crossed ← deposit_limit_crossed r
    ok (
        secs_since_limit_crossed crossed r.liquidity.deposit_limit_crossed_timestamp
          r.config.deleveraging_margin_call_period_secs timestamp)

  unfoldable pub get_secs_since_autodeleverage_obligation_debt_borrow_limit_crossed :
      Reserve → ℕ → Result (Option ℕ)
  unfolding secs_since_limit_crossed
  get_secs_since_autodeleverage_obligation_debt_borrow_limit_crossed r timestamp = do
    crossed ← borrow_limit_crossed r
    ok (
        secs_since_limit_crossed crossed r.liquidity.borrow_limit_crossed_timestamp
          r.config.deleveraging_margin_call_period_secs timestamp)

  unfoldable pub terms_if_started :
      Reserve → Obligation → Option ℕ → Result (Option LiquidationParams)
  unfolding get_autodeleverage_liquidation_params
  terms_if_started r o none = ok none
  terms_if_started r o (some secs) = get_autodeleverage_liquidation_params r o secs

  -- One side of `check_market_wide_autodeleverage_obligation`: the collateral's deposit limit, or
  -- the debt's borrow limit.
  unfoldable pub deposit_side : LiquidationCheckInputs → Result (Option LiquidationParams)
  unfolding terms_if_started
      get_secs_since_autodeleverage_obligation_collateral_deposit_limit_crossed
  deposit_side inputs =
      let r = inputs.collateral_reserve in
      if is_autodeleverage_enabled r.config
      then (get_secs_since_autodeleverage_obligation_collateral_deposit_limit_crossed r
            inputs.timestamp
          >>= λ secs. terms_if_started r inputs.obligation secs)
      else ok none

  unfoldable pub borrow_side : LiquidationCheckInputs → Result (Option LiquidationParams)
  unfolding terms_if_started get_secs_since_autodeleverage_obligation_debt_borrow_limit_crossed
  borrow_side inputs =
      let r = inputs.debt_reserve in
      if is_autodeleverage_enabled r.config
      then (get_secs_since_autodeleverage_obligation_debt_borrow_limit_crossed r inputs.timestamp
          >>= λ secs. terms_if_started r inputs.obligation secs)
      else ok none

  unfoldable pub check_market_wide_autodeleverage_obligation :
      LiquidationCheckInputs → Result (Option LiquidationParams)
  unfolding deposit_side borrow_side
  check_market_wide_autodeleverage_obligation inputs =
      if not (is_market_autodeleverage_enabled inputs.lending_market)
      then ok none
      else or_else (deposit_side inputs) (borrow_side inputs)

  unfoldable pub order_terms :
      LiquidationCheckInputs → Option (ℕ × Fraction) → Result (Option LiquidationParams)
  order_terms inputs none = ok none
  order_terms inputs (some hit) = do
    let o = inputs.obligation
    order ← unwrap (get_elem? o.orders hit.0)
    (if not (is_obligation_order_execution_enabled inputs.lending_market) then ok none else (do
      user_ltv ← loan_to_value o
      no_bf_ltv ← no_bf_loan_to_value o
      bonus ← calculate_order_execution_bonus_rate order hit.1 no_bf_ltv
      ok (
          some (record {
            user_ltv = user_ltv;
            liquidation_bonus_rate = bonus;
            liquidation_reason = LiquidationReason.obligation_order hit.0;
          }))))

  unfoldable pub check_obligation_order_execution :
      LiquidationCheckInputs → Result (Option LiquidationParams)
  unfolding order_terms
  check_obligation_order_execution inputs = do
    hit ←
        find_applicable_obligation_order inputs.collateral_reserve inputs.debt_reserve
          inputs.obligation
    order_terms inputs hit
