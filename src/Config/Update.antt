-- ===== src/Config/Update.antt =====
-- `update_reserve_config` (lending_operations.rs): an update of one field of a reserve. The arms of its
-- match are functions on groups of modes, which answer `none` for the others.
use kamino_lending.Config.Items.{
  Borsh, accept_anything, check_asset_tier, check_bool, check_gte, check_lte, check_not_negative,
  check_status, check_valid_bps, check_valid_pct, set_item, skip_bytes,
}
use kamino_lending.Config.Modes.{UpdateConfigMode}
use kamino_lending.Base.{List, Option, Result, none, ok, some, unwrap, ℕ, ◌>>=◌}
use kamino_lending.Crates.{one}
use kamino_lending.LastUpdate.{mark_stale}
use kamino_lending.WithdrawalCap.{WithdrawalCaps}
use kamino_lending.Reserve.{Reserve, ReserveConfig, TokenInfo}

-- Ratios, fees and limits.
unfoldable pub update_risk :
    Borsh → UpdateConfigMode → ReserveConfig → List ℕ → Option (Result ReserveConfig)
unfolding set_item
update_risk borsh UpdateConfigMode.update_loan_to_value_pct config source =
    some (
      set_item borsh.u8 check_valid_pct source λ value. record config { loan_to_value_pct = value })
update_risk borsh UpdateConfigMode.update_max_liquidation_bonus_bps config source = some (
    set_item borsh.u16 check_valid_bps source
      λ value. record config { max_liquidation_bonus_bps = value })
update_risk borsh UpdateConfigMode.update_liquidation_threshold_pct config source = some (
    set_item borsh.u8 check_valid_pct source
      λ value. record config { liquidation_threshold_pct = value })
update_risk borsh UpdateConfigMode.update_protocol_liquidation_fee config source = some (
    set_item borsh.u8 check_valid_pct source
      λ value. record config { protocol_liquidation_fee_pct = value })
update_risk borsh UpdateConfigMode.update_protocol_order_execution_fee config source = some (
    set_item borsh.u8 check_valid_pct source
      λ value. record config { protocol_order_execution_fee_pct = value })
update_risk borsh UpdateConfigMode.update_protocol_take_rate config source = some (
    set_item borsh.u8 check_valid_pct source
      λ value. record config { protocol_take_rate_pct = value })
update_risk borsh UpdateConfigMode.update_fees_borrow_fee config source = some (
    set_item borsh.u64 (check_lte one) source
      λ value. record config { fees = record config.fees { borrow_fee_sf = value } })
update_risk borsh UpdateConfigMode.update_fees_flash_loan_fee config source = some (
    set_item borsh.u64 (check_lte one) source
      λ value. record config { fees = record config.fees { flash_loan_fee_sf = value } })
update_risk borsh UpdateConfigMode.update_deposit_limit config source =
    some
      (set_item borsh.u64 accept_anything source λ value. record config { deposit_limit = value })
update_risk borsh UpdateConfigMode.update_borrow_limit config source =
    some (set_item borsh.u64 accept_anything source λ value. record config { borrow_limit = value })
update_risk borsh _ config source = none

-- The information of the token.
unfoldable pub update_token_info :
    Borsh → UpdateConfigMode → TokenInfo → List ℕ → Option (Result TokenInfo)
unfolding set_item
update_token_info borsh UpdateConfigMode.update_token_info_lower_heuristic info source = some (
    set_item borsh.u64 accept_anything source
      λ value. record info { heuristic = record info.heuristic { lower = value } })
update_token_info borsh UpdateConfigMode.update_token_info_upper_heuristic info source = some (
    set_item borsh.u64 accept_anything source
      λ value. record info { heuristic = record info.heuristic { upper = value } })
update_token_info borsh UpdateConfigMode.update_token_info_exp_heuristic info source = some (
    set_item borsh.u64 accept_anything source
      λ value. record info { heuristic = record info.heuristic { exp = value } })
update_token_info borsh UpdateConfigMode.update_token_info_twap_divergence info source = some (
    set_item borsh.u64 check_valid_bps source
      λ value. record info { max_twap_divergence_bps = value })
update_token_info borsh UpdateConfigMode.update_token_info_scope_chain info source = some (
    set_item borsh.chain accept_anything source λ value. record info {
      scope_configuration = record info.scope_configuration { price_chain = value };
    })
update_token_info borsh UpdateConfigMode.update_token_info_scope_twap info source = some (
    set_item borsh.chain accept_anything source λ value. record info {
      scope_configuration = record info.scope_configuration { twap_chain = value };
    })
update_token_info borsh UpdateConfigMode.update_token_info_name info source =
    some (set_item borsh.bytes_32 accept_anything source λ value. record info { name = value })
update_token_info borsh UpdateConfigMode.update_token_info_price_max_age info source = some (
    set_item borsh.u64 accept_anything source
      λ value. record info { max_age_price_seconds = value })
update_token_info borsh UpdateConfigMode.update_token_info_twap_max_age info source = some (
    set_item borsh.u64 accept_anything source λ value. record info { max_age_twap_seconds = value })
update_token_info borsh UpdateConfigMode.update_scope_price_feed info source = some (
    set_item borsh.key accept_anything source λ value. record info {
      scope_configuration = record info.scope_configuration { price_feed = value };
    })
update_token_info borsh UpdateConfigMode.update_pyth_price info source = some (
    set_item borsh.key accept_anything source λ value. record info {
      pyth_configuration = record info.pyth_configuration { price = value };
    })
update_token_info borsh UpdateConfigMode.update_switchboard_feed info source = some (
    set_item borsh.key accept_anything source λ value. record info {
      switchboard_configuration = record info.switchboard_configuration {
        price_aggregator = value;
      };
    })
update_token_info borsh UpdateConfigMode.update_switchboard_twap_feed info source = some (
    set_item borsh.key accept_anything source λ value. record info {
      switchboard_configuration = record info.switchboard_configuration { twap_aggregator = value };
    })
update_token_info borsh UpdateConfigMode.update_block_price_usage info source =
    some (set_item borsh.u8 check_bool source λ value. record info { block_price_usage = value })
update_token_info borsh _ info source = none

-- Bonuses, deleveraging, tiers and groups.
unfoldable pub update_liquidation :
    Borsh → UpdateConfigMode → ReserveConfig → List ℕ → Option (Result ReserveConfig)
unfolding set_item
update_liquidation borsh UpdateConfigMode.update_bad_debt_liquidation_bonus_bps config source =
    some (
      set_item borsh.u16 (check_lte 100) source
        λ value. record config { bad_debt_liquidation_bonus_bps = value })
update_liquidation borsh UpdateConfigMode.update_min_liquidation_bonus_bps config source = some (
    set_item borsh.u16 check_valid_bps source
      λ value. record config { min_liquidation_bonus_bps = value })
update_liquidation borsh UpdateConfigMode.update_deleveraging_margin_call_period config source =
    some (
      set_item borsh.u64 accept_anything source
        λ value. record config { deleveraging_margin_call_period_secs = value })
update_liquidation borsh UpdateConfigMode.update_borrow_factor config source =
    some (
      set_item borsh.u64 (check_gte 100) source
        λ value. record config { borrow_factor_pct = value })
update_liquidation borsh UpdateConfigMode.update_asset_tier config source =
    some (set_item borsh.u8 check_asset_tier source λ value. record config { asset_tier = value })
update_liquidation borsh UpdateConfigMode.update_elevation_group config source = some (
    set_item borsh.groups accept_anything source
      λ value. record config { elevation_groups = value })
update_liquidation borsh UpdateConfigMode.update_deleveraging_threshold_decrease_bps_per_day config
      source =
    some (
      set_item borsh.u64 accept_anything source
        λ value. record config { deleveraging_threshold_decrease_bps_per_day = value })
update_liquidation borsh UpdateConfigMode.update_reserve_status config source =
    some (set_item borsh.u8 check_status source λ value. record config { status = value })
update_liquidation borsh UpdateConfigMode.update_borrow_limit_outside_elevation_group config
      source =
    some (
      set_item borsh.u64 accept_anything source
        λ value. record config { borrow_limit_outside_elevation_group = value })
update_liquidation borsh
      UpdateConfigMode.update_borrow_limits_in_elevation_group_against_this_reserve config source =
    some (
      set_item borsh.limits accept_anything source
        λ value. record config { borrow_limit_against_this_collateral_in_elevation_group = value })
update_liquidation borsh _ config source = none

-- The last fields of the configuration.
unfoldable pub update_flags :
    Borsh → UpdateConfigMode → ReserveConfig → List ℕ → Option (Result ReserveConfig)
unfolding set_item
update_flags borsh UpdateConfigMode.update_disable_usage_as_collateral_outside_emode config source =
    some (
      set_item borsh.u8 check_bool source
        λ value. record config { disable_usage_as_coll_outside_emode = value })
update_flags borsh UpdateConfigMode.update_block_borrowing_above_utilization_pct config source =
    some (
      set_item borsh.u8 check_valid_pct source
        λ value. record config { utilization_limit_block_borrowing_above_pct = value })
update_flags borsh UpdateConfigMode.update_host_fixed_interest_rate_bps config source = some (
    set_item borsh.u16 check_valid_bps source
      λ value. record config { host_fixed_interest_rate_bps = value })
update_flags borsh UpdateConfigMode.update_autodeleverage_enabled config source =
    some (
      set_item borsh.u8 check_bool source λ value. record config { autodeleverage_enabled = value })
update_flags borsh UpdateConfigMode.update_deleveraging_bonus_increase_bps_per_day config source =
    some (
      set_item borsh.u64 accept_anything source
        λ value. record config { deleveraging_bonus_increase_bps_per_day = value })
update_flags borsh _ config source = none

-- The capacity, and after its 8 bytes the length of the interval.
unfoldable pub update_cap : Borsh → WithdrawalCaps → List ℕ → Result WithdrawalCaps
unfolding set_item
update_cap borsh caps source = do
  capped ←
      set_item borsh.i64 check_not_negative source λ value. record caps { config_capacity = value }
  rest ← skip_bytes 8 source
  set_item borsh.u64 accept_anything rest
      λ value. record capped { config_interval_length_seconds = value }

-- The whole configuration, but for the four fields that only the administrator may change.
unfoldable pub update_entire : Borsh → ReserveConfig → List ℕ → Result ReserveConfig
unfolding set_item
update_entire borsh config source = set_item borsh.config accept_anything source λ value.
    record value {
      protocol_take_rate_pct = config.protocol_take_rate_pct;
      protocol_liquidation_fee_pct = config.protocol_liquidation_fee_pct;
      host_fixed_interest_rate_bps = config.host_fixed_interest_rate_bps;
      protocol_order_execution_fee_pct = config.protocol_order_execution_fee_pct;
    }

-- The curve, the whole configuration and the caps.
unfoldable pub update_structures :
    Borsh → UpdateConfigMode → ReserveConfig → List ℕ → Option (Result ReserveConfig)
unfolding set_item update_cap update_entire
update_structures borsh UpdateConfigMode.update_borrow_rate_curve config source = some (
    set_item borsh.curve accept_anything source
      λ value. record config { borrow_rate_curve = value })
update_structures borsh UpdateConfigMode.update_entire_reserve_config config source =
    some (update_entire borsh config source)
update_structures borsh UpdateConfigMode.update_debt_withdrawal_cap config source = some (
    update_cap borsh config.debt_withdrawal_cap source >>= λ caps.
    ok (record config { debt_withdrawal_cap = caps }))
update_structures borsh UpdateConfigMode.update_deposit_withdrawal_cap config source = some (
    update_cap borsh config.deposit_withdrawal_cap source >>= λ caps.
    ok (record config { deposit_withdrawal_cap = caps }))
update_structures borsh _ config source = none

unfoldable pub update_farm : Borsh → UpdateConfigMode → Reserve → List ℕ → Option (Result Reserve)
unfolding set_item
update_farm borsh UpdateConfigMode.update_farm_collateral r source =
    some (set_item borsh.key accept_anything source λ value. record r { farm_collateral = value })
update_farm borsh UpdateConfigMode.update_farm_debt r source =
    some (set_item borsh.key accept_anything source λ value. record r { farm_debt = value })
update_farm borsh _ r source = none

abbrev pub or_next {ℓ} : {A : Type ℓ} → Option A → Option A → Option A
or_next none second = second
or_next (some a) second = some a

abbrev pub in_token_info : ReserveConfig → Option (Result TokenInfo) → Option (Result ReserveConfig)
in_token_info config none = none
in_token_info config (some result) =
    some (result >>= λ info. ok (record config { token_info = info }))

-- The update of a mode that concerns the configuration.
unfoldable pub update_config :
    Borsh → UpdateConfigMode → ReserveConfig → List ℕ → Option (Result ReserveConfig)
unfolding update_risk update_token_info update_structures update_liquidation update_flags
update_config borsh mode config source = or_next (update_risk borsh mode config source) (
    or_next (in_token_info config (update_token_info borsh mode config.token_info source)) (
      or_next (update_structures borsh mode config source) (
        or_next (update_liquidation borsh mode config source)
          (update_flags borsh mode config source))))

abbrev pub in_config : Reserve → Option (Result ReserveConfig) → Option (Result Reserve)
in_config r none = none
in_config r (some result) = some (result >>= λ config. ok (record r { config = config }))

-- A mode that no arm updates is a deprecated one, and panics.
unfoldable pub update_reserve_config : Borsh → Reserve → UpdateConfigMode → List ℕ → Result Reserve
unfolding update_config update_farm
update_reserve_config borsh r mode source = do
  result ← unwrap (
      or_next (in_config r (update_config borsh mode r.config source))
        (update_farm borsh mode r source))
  updated ← result
  ok (record updated { last_update = mark_stale updated.last_update })
