-- ===== src/LendingMarket/State.antt =====
-- `LendingMarket` and `ElevationGroup` (state/lending_market.rs). The 32 elevation groups are a list;
-- the reserved bytes and the padding are left out.
use kamino_lending.Base.{
  Bool, LendingError, List, Option, Result, err, get_elem?, guard, if◌then◌else◌, ltb, none, not,
  ok, ok_or, replicate, set, some, u8_max, unwrap, ℕ, ◌-◌, ◌==◌, ◌>>=◌, ◌>>◌,
}
use kamino_lending.Reserve.{Pubkey}
use kamino_lending.Crates.{difference}

-- utils/consts.rs
abbrev pub elevation_group_none : ℕ
elevation_group_none = 0

abbrev pub max_num_elevation_groups : ℕ
max_num_elevation_groups = 32

abbrev pub program_version : ℕ
program_version = 1

pub record ElevationGroup : Type 0 where
  pub max_liquidation_bonus_bps : ℕ
  pub id : ℕ
  pub ltv_pct : ℕ
  pub liquidation_threshold_pct : ℕ
  pub allow_new_loans : ℕ
  pub max_reserves_as_collateral : ℕ
  pub debt_reserve : Pubkey

pub record LendingMarket : Type 0 where
  pub version : ℕ
  pub bump_seed : ℕ
  pub lending_market_owner : Pubkey
  pub lending_market_owner_cached : Pubkey
  pub quote_currency : List ℕ
  pub referral_fee_bps : ℕ
  pub emergency_mode : ℕ
  pub autodeleverage_enabled : ℕ
  pub borrow_disabled : ℕ
  pub price_refresh_trigger_to_max_age_pct : ℕ
  pub liquidation_max_debt_close_factor_pct : ℕ
  pub insolvency_risk_unhealthy_ltv_pct : ℕ
  pub min_full_liquidation_value_threshold : ℕ
  pub max_liquidatable_debt_market_value_at_once : ℕ
  pub global_allowed_borrow_value : ℕ
  pub risk_council : Pubkey
  pub elevation_groups : List ElevationGroup
  pub min_net_value_in_obligation_sf : ℕ
  pub min_value_skip_liquidation_ltv_checks : ℕ
  pub name : List ℕ
  pub min_value_skip_liquidation_bf_checks : ℕ
  pub individual_autodeleverage_margin_call_period_secs : ℕ
  pub min_initial_deposit_amount : ℕ
  pub obligation_order_execution_enabled : ℕ
  pub immutable : ℕ
  pub obligation_order_creation_enabled : ℕ

pub record InitLendingMarketParams : Type 0 where
  pub bump_seed : ℕ
  pub lending_market_owner : Pubkey
  pub quote_currency : List ℕ

-- `ElevationGroup::default`
unfoldable pub default_elevation_group : ElevationGroup
default_elevation_group = record {
  max_liquidation_bonus_bps = 0;
  id = 0;
  ltv_pct = 0;
  liquidation_threshold_pct = 0;
  allow_new_loans = 0;
  max_reserves_as_collateral = u8_max;
  debt_reserve = 0;
}

unfoldable pub new_loans_disabled : ElevationGroup → Bool
new_loans_disabled group = group.allow_new_loans == 0

unfoldable pub get_index : ElevationGroup → Result ℕ
get_index group = difference group.id 1

-- MIN_NET_VALUE_IN_OBLIGATION, the nearest number of bits to 0.000001.
abbrev pub min_net_value_in_obligation : ℕ
min_net_value_in_obligation = 1152921504607

-- `LendingMarket::default`
unfoldable pub default_lending_market : LendingMarket
unfolding default_elevation_group
default_lending_market = record {
  version = 0;
  bump_seed = 0;
  lending_market_owner = 0;
  lending_market_owner_cached = 0;
  quote_currency = replicate 32 0;
  referral_fee_bps = 0;
  emergency_mode = 0;
  autodeleverage_enabled = 0;
  borrow_disabled = 0;
  price_refresh_trigger_to_max_age_pct = 0;
  liquidation_max_debt_close_factor_pct = 20;
  insolvency_risk_unhealthy_ltv_pct = 95;
  min_full_liquidation_value_threshold = 2;
  max_liquidatable_debt_market_value_at_once = 500_000;
  global_allowed_borrow_value = 45_000_000;
  risk_council = 0;
  elevation_groups = replicate 32 default_elevation_group;
  min_net_value_in_obligation_sf = min_net_value_in_obligation;
  min_value_skip_liquidation_ltv_checks = 0;
  name = replicate 32 0;
  min_value_skip_liquidation_bf_checks = 0;
  individual_autodeleverage_margin_call_period_secs = 0;
  min_initial_deposit_amount = 100_000;
  obligation_order_execution_enabled = 0;
  immutable = 0;
  obligation_order_creation_enabled = 0;
}

-- `LendingMarket::init`
unfoldable pub init_lending_market : InitLendingMarketParams → LendingMarket
unfolding default_lending_market
init_lending_market params = record default_lending_market {
  version = program_version;
  bump_seed = params.bump_seed;
  lending_market_owner = params.lending_market_owner;
  quote_currency = params.quote_currency;
}

-- `LendingMarket::get_elevation_group`: the group of id i stands at the index i − 1.
unfoldable pub elevation_group_at : LendingMarket → ℕ → Result (Option ElevationGroup)
elevation_group_at market id =
    if id == elevation_group_none
    then ok none
    else (ok_or (get_elem? market.elevation_groups (id - 1)) LendingError.invalid_elevation_group
        >>= λ group. ok (some group))

-- A write beyond the groups panics.
unfoldable pub set_elevation_group : LendingMarket → ElevationGroup → Result LendingMarket
unfolding get_index
set_elevation_group market group =
    if group.id == elevation_group_none
    then err LendingError.invalid_elevation_group_config
    else (do
      i ← get_index group
      old ← unwrap (get_elem? market.elevation_groups i)
      ok (record market { elevation_groups = set market.elevation_groups i group }))

unfoldable pub is_borrowing_disabled : LendingMarket → Bool
is_borrowing_disabled market = not (market.borrow_disabled == 0)

-- `LendingMarket::is_autodeleverage_enabled`
unfoldable pub is_market_autodeleverage_enabled : LendingMarket → Bool
is_market_autodeleverage_enabled market = not (market.autodeleverage_enabled == 0)

unfoldable pub is_obligation_order_execution_enabled : LendingMarket → Bool
is_obligation_order_execution_enabled market = not (market.obligation_order_execution_enabled == 0)

unfoldable pub is_obligation_order_creation_enabled : LendingMarket → Bool
is_obligation_order_creation_enabled market = not (market.obligation_order_creation_enabled == 0)

unfoldable pub is_immutable : LendingMarket → Bool
is_immutable market = not (market.immutable == 0)

-- A group that is used must be configured.
unfoldable pub check_group : Option ElevationGroup → Result (Option ElevationGroup)
check_group none = ok none
check_group (some group) = do
  guard (not (group.liquidation_threshold_pct == 0)) LendingError.invalid_elevation_group
  guard (not (group.ltv_pct == 0)) LendingError.invalid_elevation_group
  ok (some group)

-- `get_elevation_group` of lending_operations.rs
unfoldable pub get_elevation_group : ℕ → LendingMarket → Result (Option ElevationGroup)
unfolding elevation_group_at check_group
get_elevation_group id market =
    if ltb max_num_elevation_groups id
    then err LendingError.invalid_elevation_group
    else (elevation_group_at market id >>= check_group)
