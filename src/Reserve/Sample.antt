-- ===== src/Reserve/Sample.antt =====
-- A concrete pool, and what becomes of it, for the tests.
use kamino_lending.Base.{replicate, u16_max, ℕ, ◌*◌, ◌∷◌}
use kamino_lending.Base.Int.{pos}
use kamino_lending.Crates.{one}
use kamino_lending.Crates.Exact.{exact}
use kamino_lending.BorrowRateCurve.{point}
use kamino_lending.WithdrawalCap.{WithdrawalCaps}
use kamino_lending.Reserve.Config.{ReserveConfig}
use kamino_lending.Reserve.Token.{TokenInfo, null_pubkey}
use kamino_lending.Reserve.Liquidity.{ReferrerTokenState, ReserveLiquidity}
use kamino_lending.Reserve.Collateral.{CollateralExchangeRate, ReserveCollateral}
use kamino_lending.Reserve.Loans.{CalculateBorrowResult, CalculateRepayResult}
use kamino_lending.Reserve.State.{DepositLiquidityResult, Reserve}

abbrev pub caps : WithdrawalCaps
caps = record {
  config_capacity = pos 0;
  current_total = pos 0;
  last_interval_start_timestamp = 0;
  config_interval_length_seconds = 0;
}

abbrev pub token_info : TokenInfo
token_info = record {
  name = 65 ∷ replicate 31 0;
  heuristic = record { lower = 0; upper = 0; exp = 0 };
  max_twap_divergence_bps = 0;
  max_age_price_seconds = 60;
  max_age_twap_seconds = 0;
  scope_configuration = record {
    price_feed = null_pubkey;
    price_chain = replicate 4 u16_max;
    twap_chain = replicate 4 u16_max;
  };
  switchboard_configuration = record { price_aggregator = 0; twap_aggregator = 0 };
  pyth_configuration = record { price = 71 };
  block_price_usage = 0;
}

abbrev pub config : ReserveConfig
config = record {
  status = 0;
  asset_tier = 0;
  host_fixed_interest_rate_bps = 100;
  protocol_order_execution_fee_pct = 0;
  protocol_take_rate_pct = 20;
  protocol_liquidation_fee_pct = 10;
  loan_to_value_pct = 75;
  liquidation_threshold_pct = 80;
  min_liquidation_bonus_bps = 200;
  max_liquidation_bonus_bps = 1000;
  bad_debt_liquidation_bonus_bps = 99;
  deleveraging_margin_call_period_secs = 3600;
  deleveraging_threshold_decrease_bps_per_day = 24;
  fees = record { borrow_fee_sf = 11529215046068469; flash_loan_fee_sf = 11529215046068469 };
  borrow_rate_curve = record { points = point 0 100 ∷ replicate 10 (point 10_000 10_000) };
  borrow_factor_pct = 120;
  deposit_limit = 5000;
  borrow_limit = 900;
  token_info = token_info;
  deposit_withdrawal_cap = caps;
  debt_withdrawal_cap = caps;
  elevation_groups = replicate 20 0;
  disable_usage_as_coll_outside_emode = 0;
  utilization_limit_block_borrowing_above_pct = 0;
  autodeleverage_enabled = 0;
  borrow_limit_outside_elevation_group = 1000;
  borrow_limit_against_this_collateral_in_elevation_group = replicate 32 0;
  deleveraging_bonus_increase_bps_per_day = 10;
}

abbrev pub pool_liquidity : ReserveLiquidity
pool_liquidity = record {
  mint_pubkey = 11;
  supply_vault = 12;
  fee_vault = 13;
  available_amount = 1000;
  borrowed_amount_sf = 576460752303423500345;
  market_price_sf = one;
  market_price_last_updated_ts = 0;
  mint_decimals = 6;
  deposit_limit_crossed_timestamp = 0;
  borrow_limit_crossed_timestamp = 0;
  cumulative_borrow_rate_bsf = one;
  accumulated_protocol_fees_sf = 11529215046068469767;
  accumulated_referrer_fees_sf = 2305843009213693952;
  pending_referrer_fees_sf = 1152921504606846976;
  absolute_referral_rate_sf = 0;
  token_program = 14;
}

abbrev pub pool : Reserve
pool = record {
  version = 1;
  last_update = record { slot = 7; stale = 0; price_status = 0 };
  lending_market = 21;
  farm_collateral = 0;
  farm_debt = 0;
  liquidity = pool_liquidity;
  collateral = record { mint_pubkey = 15; mint_total_supply = 1400; supply_vault = 16 };
  config = config;
  borrowed_amount_outside_elevation_group = 0;
  borrowed_amounts_against_this_reserve_in_elevation_groups = replicate 32 0;
}

abbrev pub rate : CollateralExchangeRate
rate = record { collateral_supply = 1400; liquidity = 1714394277350381465650 }

abbrev pub terms : DepositLiquidityResult
terms = record { liquidity_amount = 100; collateral_amount = 94 }

abbrev pub with_available : ℕ → ReserveLiquidity
with_available n = record pool_liquidity { available_amount = n }

abbrev pub with_collateral : ℕ → ReserveCollateral
with_collateral n = record pool.collateral { mint_total_supply = n }

abbrev pub deposited : Reserve
deposited = record pool { liquidity = with_available 1100; collateral = with_collateral 1494 }

abbrev pub redeemed : Reserve
redeemed = record pool { liquidity = with_available 788; collateral = with_collateral 1200 }

abbrev pub returned : Reserve
returned = record pool { liquidity = with_available 1001; collateral = with_collateral 1400 }

abbrev pub borrowed : ReserveLiquidity
borrowed = record pool_liquidity {
  available_amount = 750;
  borrowed_amount_sf = 864691128455135244444;
}

abbrev pub repayment : CalculateRepayResult
repayment = record { settle_amount = 230584300921369395200; repay_amount = 200 }

abbrev pub repaid : ReserveLiquidity
repaid = record pool_liquidity {
  available_amount = 1200;
  borrowed_amount_sf = 345876451382054105145;
}

abbrev pub grown : ReserveLiquidity
grown = record pool_liquidity {
  borrowed_amount_sf = 576463128636739250345;
  cumulative_borrow_rate_bsf = 1152926257273478476;
  accumulated_protocol_fees_sf = 11529717731812354767;
  pending_referrer_fees_sf = 1152967203328111975;
  absolute_referral_rate_sf = 23058430092136939;
}

abbrev pub loan : CalculateBorrowResult
loan = record {
  borrow_amount_f = 349335215895874633728;
  receive_amount = 300;
  borrow_fee = 2;
  referrer_fee = 1;
}

abbrev pub lent : ReserveLiquidity
lent = record pool_liquidity { available_amount = 697; borrowed_amount_sf = 925795968199298134073 }

abbrev pub referrer_share : ℕ
referrer_share = 24

abbrev pub referrer : ReferrerTokenState
referrer = record {
  referrer = 31;
  mint = 11;
  amount_unclaimed_sf = one;
  amount_cumulative_sf = 3 * one;
  bump = 254;
}
