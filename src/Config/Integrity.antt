-- ===== src/Config/Integrity.antt =====
-- `validate_reserve_config_integrity` (lending_operations.rs), in the groups of its checks.
use kamino_lending.Base.{
  Bool, LendingError, List, Option, Result, [], false, guard, if◌then◌else◌, leb, ltb, none, not,
  ok, some, true, u64_max, ℕ, ◌&&◌, ◌==◌, ◌>>=◌, ◌>>◌, ◌||◌, ◌∷◌,
}
use kamino_lending.Crates.{one}
use kamino_lending.BorrowRateCurve.{validate}
use kamino_lending.Reserve.{
  AssetTier, Pubkey, ReserveConfig, get_asset_tier, is_autodeleverage_enabled, is_token_info_valid,
  is_twap_config_valid, status_of,
}
use kamino_lending.LendingMarket.{ElevationGroup, LendingMarket, get_elevation_group}

abbrev is_represented {ℓ} : {A : Type ℓ} → Option A → Bool
is_represented none = false
is_represented (some a) = true

abbrev pub require : Bool → Result (Unit {0})
require condition = guard condition LendingError.invalid_config

unfoldable pub check_ratios : ReserveConfig → Result (Unit {0})
check_ratios config = do
  require (is_represented (status_of config.status))
  require (not (leb 100 config.loan_to_value_pct))
  require (not (ltb 10_000 config.max_liquidation_bonus_bps))
  require (
      not (
        ltb config.liquidation_threshold_pct config.loan_to_value_pct
        || ltb 100 config.liquidation_threshold_pct))
  require (not (leb one config.fees.borrow_fee_sf))
  require (not (ltb 100 config.protocol_liquidation_fee_pct))
  require (not (ltb 100 config.protocol_order_execution_fee_pct))
  require (not (ltb 100 config.protocol_take_rate_pct))

unfoldable pub check_bonuses : ReserveConfig → Result (Unit {0})
check_bonuses config = do
  require (not (leb 100 config.bad_debt_liquidation_bonus_bps))
  require (not (ltb config.max_liquidation_bonus_bps config.min_liquidation_bonus_bps))
  require (not (ltb config.borrow_factor_pct 100))

unfoldable pub check_deleveraging : ReserveConfig → Result (Unit {0})
check_deleveraging config =
    if is_autodeleverage_enabled config
    then (do
      require (not (config.deleveraging_margin_call_period_secs == 0))
      require (not (config.deleveraging_threshold_decrease_bps_per_day == 0))
      require (not (config.deleveraging_bonus_increase_bps_per_day == 0)))
    else ok tt

abbrev pub is_isolated_debt : AssetTier → Bool
is_isolated_debt AssetTier.regular = false
is_isolated_debt AssetTier.isolated_collateral = false
is_isolated_debt AssetTier.isolated_debt = true

abbrev pub is_isolated_collateral : AssetTier → Bool
is_isolated_collateral AssetTier.regular = false
is_isolated_collateral AssetTier.isolated_collateral = true
is_isolated_collateral AssetTier.isolated_debt = false

unfoldable pub check_tier_and_limits : ReserveConfig → Result (Unit {0})
check_tier_and_limits config = do
  tier ← get_asset_tier config
  require (
      not (
        is_isolated_debt tier
        && not (config.loan_to_value_pct == 0 && config.liquidation_threshold_pct == 0)))
  require (not (is_isolated_collateral tier && not (config.borrow_limit == 0)))
  require (
      not (
        not (config.borrow_limit_outside_elevation_group == u64_max)
        && ltb config.borrow_limit config.borrow_limit_outside_elevation_group))

-- A group in which the reserve is collateral.
unfoldable pub check_collateral_group : ReserveConfig → ElevationGroup → Result (Unit {0})
check_collateral_group config g = do
  require (not (ltb config.max_liquidation_bonus_bps g.max_liquidation_bonus_bps))
  require (not (ltb g.liquidation_threshold_pct config.liquidation_threshold_pct))
  require (not (ltb g.ltv_pct config.loan_to_value_pct))
  require (not (ltb g.liquidation_threshold_pct g.ltv_pct))
  require (not (ltb 100 g.liquidation_threshold_pct))

unfoldable pub check_config_group :
    ReserveConfig → Pubkey → Option ElevationGroup → Result (Unit {0})
unfolding check_collateral_group
check_config_group config reserve_address none = ok tt
check_config_group config reserve_address (some g) = do
  require (not (g.debt_reserve == 0))
  (if g.debt_reserve == reserve_address then ok tt else check_collateral_group config g)
  require (not (g.max_reserves_as_collateral == 0))

-- The loop over the groups of the configuration.
unfoldable pub check_config_groups :
    ReserveConfig → LendingMarket → Pubkey → List ℕ → Result (Unit {0})
unfolding check_config_group
check_config_groups config market reserve_address [] = ok tt
check_config_groups config market reserve_address (id ∷ ids) = do
  group ← get_elevation_group id market
  check_config_group config reserve_address group
  check_config_groups config market reserve_address ids

unfoldable pub validate_reserve_config_integrity :
    ReserveConfig → LendingMarket → Pubkey → Result (Unit {0})
unfolding check_ratios check_bonuses check_deleveraging check_tier_and_limits check_config_groups
validate_reserve_config_integrity config market reserve_address = do
  check_ratios config
  guard (is_token_info_valid config.token_info) LendingError.invalid_oracle_config
  guard (is_twap_config_valid config.token_info) LendingError.invalid_twap_config
  check_bonuses config
  check_deleveraging config
  check_tier_and_limits config
  check_config_groups config market reserve_address config.elevation_groups
  require (not (ltb 100 config.utilization_limit_block_borrowing_above_pct))
  validate config.borrow_rate_curve
