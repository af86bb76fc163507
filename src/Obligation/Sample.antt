-- ===== src/Obligation/Sample.antt =====
-- A concrete obligation for the tests: one deposit, one loan and two orders.
use kamino_lending.Base.{[], replicate, ◌*◌, ◌/◌, ◌∷◌}
use kamino_lending.Crates.{one}
use kamino_lending.Crates.Exact.{exact}
use kamino_lending.Obligation.Positions.{ObligationCollateral, ObligationLiquidity}
use kamino_lending.Obligation.Orders.{ObligationOrder}
use kamino_lending.Obligation.State.{Obligation}

-- A loan of 100 tokens at a cumulative rate of 1.
abbrev pub user_loan : ObligationLiquidity
user_loan = record {
  borrow_reserve = 41;
  cumulative_borrow_rate_bsf = one;
  borrowed_amount_sf = 100 * one;
  market_value_sf = 100 * one;
  borrow_factor_adjusted_market_value_sf = 120 * one;
  borrowed_amount_outside_elevation_groups = 100;
}

abbrev pub no_loan : ObligationLiquidity
no_loan = record {
  borrow_reserve = 0;
  cumulative_borrow_rate_bsf = 0;
  borrowed_amount_sf = 0;
  market_value_sf = 0;
  borrow_factor_adjusted_market_value_sf = 0;
  borrowed_amount_outside_elevation_groups = 0;
}

abbrev pub pledge : ObligationCollateral
pledge = record {
  deposit_reserve = 51;
  deposited_amount = 300;
  market_value_sf = 300 * one;
  borrowed_amount_against_this_collateral_in_elevation_group = 0;
}

abbrev pub no_pledge : ObligationCollateral
no_pledge = record {
  deposit_reserve = 0;
  deposited_amount = 0;
  market_value_sf = 0;
  borrowed_amount_against_this_collateral_in_elevation_group = 0;
}

abbrev pub order : ObligationOrder
order = record {
  condition_threshold_sf = one / 2;
  opportunity_parameter_sf = 50 * one;
  min_execution_bonus_bps = 10;
  max_execution_bonus_bps = 100;
  condition_type = 1;
  opportunity_type = 0;
  padding1 = replicate 10 0;
  padding2 = replicate 5 0;
}

abbrev pub position_of_user : Obligation
position_of_user = record {
  tag = 0;
  last_update = record { slot = 7; stale = 0; price_status = 0 };
  lending_market = 21;
  owner = 61;
  deposits = pledge ∷ replicate 7 no_pledge;
  lowest_reserve_deposit_liquidation_ltv = 80;
  deposited_value_sf = 300 * one;
  borrows = user_loan ∷ replicate 4 no_loan;
  borrow_factor_adjusted_debt_value_sf = 120 * one;
  borrowed_assets_market_value_sf = 100 * one;
  allowed_borrow_value_sf = 225 * one;
  unhealthy_borrow_value_sf = 240 * one;
  deposits_asset_tiers = 0 ∷ replicate 7 255;
  borrows_asset_tiers = 0 ∷ replicate 4 255;
  elevation_group = 0;
  num_of_obsolete_deposit_reserves = 0;
  has_debt = 1;
  referrer = 0;
  borrowing_disabled = 0;
  autodeleverage_target_ltv_pct = 0;
  lowest_reserve_deposit_max_ltv_pct = 75;
  num_of_obsolete_borrow_reserves = 0;
  highest_borrow_factor_pct = 120;
  autodeleverage_margin_call_started_timestamp = 0;
  orders = order ∷ order ∷ [];
}
