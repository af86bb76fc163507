-- ===== src/LendingMarket/Sample.antt =====
-- A concrete market for the tests: one elevation group.
use kamino_lending.Base.{replicate, ◌∷◌}
use kamino_lending.LendingMarket.State.{ElevationGroup, LendingMarket, min_net_value_in_obligation}

abbrev pub group : ElevationGroup
group = record {
  max_liquidation_bonus_bps = 300;
  id = 1;
  ltv_pct = 90;
  liquidation_threshold_pct = 92;
  allow_new_loans = 1;
  max_reserves_as_collateral = 2;
  debt_reserve = 41;
}

abbrev pub empty_group : ElevationGroup
empty_group = record {
  max_liquidation_bonus_bps = 0;
  id = 0;
  ltv_pct = 0;
  liquidation_threshold_pct = 0;
  allow_new_loans = 0;
  max_reserves_as_collateral = 255;
  debt_reserve = 0;
}

abbrev pub market : LendingMarket
market = record {
  version = 1;
  bump_seed = 255;
  lending_market_owner = 81;
  lending_market_owner_cached = 81;
  quote_currency = replicate 32 0;
  referral_fee_bps = 2000;
  emergency_mode = 0;
  autodeleverage_enabled = 0;
  borrow_disabled = 0;
  price_refresh_trigger_to_max_age_pct = 50;
  liquidation_max_debt_close_factor_pct = 20;
  insolvency_risk_unhealthy_ltv_pct = 95;
  min_full_liquidation_value_threshold = 2;
  max_liquidatable_debt_market_value_at_once = 500_000;
  global_allowed_borrow_value = 45_000_000;
  risk_council = 82;
  elevation_groups = group ∷ replicate 31 empty_group;
  min_net_value_in_obligation_sf = min_net_value_in_obligation;
  min_value_skip_liquidation_ltv_checks = 0;
  name = replicate 32 0;
  min_value_skip_liquidation_bf_checks = 0;
  individual_autodeleverage_margin_call_period_secs = 3600;
  min_initial_deposit_amount = 100_000;
  obligation_order_execution_enabled = 0;
  immutable = 0;
  obligation_order_creation_enabled = 1;
}
