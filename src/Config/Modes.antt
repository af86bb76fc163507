-- ===== src/Config/Modes.antt =====
-- `UpdateConfigMode` (state/mod.rs), and who may make an update (lending_operations.rs).
use kamino_lending.Base.{Bool, false, if◌then◌else◌, true}
use kamino_lending.Reserve.{Pubkey}

pub data UpdateConfigMode : Type 0 where
  update_loan_to_value_pct update_max_liquidation_bonus_bps update_liquidation_threshold_pct
        update_protocol_liquidation_fee update_protocol_take_rate update_fees_borrow_fee
        update_fees_flash_loan_fee deprecated_update_fees_referral_fee_bps update_deposit_limit
        update_borrow_limit update_token_info_lower_heuristic update_token_info_upper_heuristic
        update_token_info_exp_heuristic update_token_info_twap_divergence
        update_token_info_scope_twap update_token_info_scope_chain update_token_info_name
        update_token_info_price_max_age update_token_info_twap_max_age update_scope_price_feed
        update_pyth_price update_switchboard_feed update_switchboard_twap_feed
        update_borrow_rate_curve update_entire_reserve_config update_debt_withdrawal_cap
        update_deposit_withdrawal_cap deprecated_update_debt_withdrawal_cap_current_total
        deprecated_update_deposit_withdrawal_cap_current_total update_bad_debt_liquidation_bonus_bps
        update_min_liquidation_bonus_bps update_deleveraging_margin_call_period update_borrow_factor
        update_asset_tier update_elevation_group update_deleveraging_threshold_decrease_bps_per_day
        deprecated_update_multiplier_side_boost deprecated_update_multiplier_tag_boost
        update_reserve_status update_farm_collateral update_farm_debt
        update_disable_usage_as_collateral_outside_emode
        update_block_borrowing_above_utilization_pct update_block_price_usage
        update_borrow_limit_outside_elevation_group
        update_borrow_limits_in_elevation_group_against_this_reserve
        update_host_fixed_interest_rate_bps update_autodeleverage_enabled
        update_deleveraging_bonus_increase_bps_per_day update_protocol_order_execution_fee :
      UpdateConfigMode

unfoldable pub is_update_reserve_config_mode_global_admin_only : UpdateConfigMode → Bool
is_update_reserve_config_mode_global_admin_only UpdateConfigMode.update_loan_to_value_pct = false
is_update_reserve_config_mode_global_admin_only UpdateConfigMode.update_max_liquidation_bonus_bps =
    false
is_update_reserve_config_mode_global_admin_only UpdateConfigMode.update_liquidation_threshold_pct =
    false
is_update_reserve_config_mode_global_admin_only UpdateConfigMode.update_protocol_liquidation_fee =
    true
is_update_reserve_config_mode_global_admin_only UpdateConfigMode.update_protocol_take_rate = true
is_update_reserve_config_mode_global_admin_only UpdateConfigMode.update_fees_borrow_fee = false
is_update_reserve_config_mode_global_admin_only UpdateConfigMode.update_fees_flash_loan_fee = false
is_update_reserve_config_mode_global_admin_only
      UpdateConfigMode.deprecated_update_fees_referral_fee_bps =
    false
is_update_reserve_config_mode_global_admin_only UpdateConfigMode.update_deposit_limit = false
is_update_reserve_config_mode_global_admin_only UpdateConfigMode.update_borrow_limit = false
is_update_reserve_config_mode_global_admin_only UpdateConfigMode.update_token_info_lower_heuristic =
    false
is_update_reserve_config_mode_global_admin_only UpdateConfigMode.update_token_info_upper_heuristic =
    false
is_update_reserve_config_mode_global_admin_only UpdateConfigMode.update_token_info_exp_heuristic =
    false
is_update_reserve_config_mode_global_admin_only UpdateConfigMode.update_token_info_twap_divergence =
    false
is_update_reserve_config_mode_global_admin_only UpdateConfigMode.update_token_info_scope_twap =
    false
is_update_reserve_config_mode_global_admin_only UpdateConfigMode.update_token_info_scope_chain =
    false
is_update_reserve_config_mode_global_admin_only UpdateConfigMode.update_token_info_name = false
is_update_reserve_config_mode_global_admin_only UpdateConfigMode.update_token_info_price_max_age =
    false
is_update_reserve_config_mode_global_admin_only UpdateConfigMode.update_token_info_twap_max_age =
    false
is_update_reserve_config_mode_global_admin_only UpdateConfigMode.update_scope_price_feed = false
is_update_reserve_config_mode_global_admin_only UpdateConfigMode.update_pyth_price = false
is_update_reserve_config_mode_global_admin_only UpdateConfigMode.update_switchboard_feed = false
is_update_reserve_config_mode_global_admin_only UpdateConfigMode.update_switchboard_twap_feed =
    false
is_update_reserve_config_mode_global_admin_only UpdateConfigMode.update_borrow_rate_curve = false
is_update_reserve_config_mode_global_admin_only UpdateConfigMode.update_entire_reserve_config =
    false
is_update_reserve_config_mode_global_admin_only UpdateConfigMode.update_debt_withdrawal_cap = false
is_update_reserve_config_mode_global_admin_only UpdateConfigMode.update_deposit_withdrawal_cap =
    false
is_update_reserve_config_mode_global_admin_only
      UpdateConfigMode.deprecated_update_debt_withdrawal_cap_current_total =
    false
is_update_reserve_config_mode_global_admin_only
      UpdateConfigMode.deprecated_update_deposit_withdrawal_cap_current_total =
    false
is_update_reserve_config_mode_global_admin_only
      UpdateConfigMode.update_bad_debt_liquidation_bonus_bps =
    false
is_update_reserve_config_mode_global_admin_only UpdateConfigMode.update_min_liquidation_bonus_bps =
    false
is_update_reserve_config_mode_global_admin_only
      UpdateConfigMode.update_deleveraging_margin_call_period =
    false
is_update_reserve_config_mode_global_admin_only UpdateConfigMode.update_borrow_factor = false
is_update_reserve_config_mode_global_admin_only UpdateConfigMode.update_asset_tier = false
is_update_reserve_config_mode_global_admin_only UpdateConfigMode.update_elevation_group = false
is_update_reserve_config_mode_global_admin_only
      UpdateConfigMode.update_deleveraging_threshold_decrease_bps_per_day =
    false
is_update_reserve_config_mode_global_admin_only
      UpdateConfigMode.deprecated_update_multiplier_side_boost =
    false
is_update_reserve_config_mode_global_admin_only
      UpdateConfigMode.deprecated_update_multiplier_tag_boost =
    false
is_update_reserve_config_mode_global_admin_only UpdateConfigMode.update_reserve_status = false
is_update_reserve_config_mode_global_admin_only UpdateConfigMode.update_farm_collateral = false
is_update_reserve_config_mode_global_admin_only UpdateConfigMode.update_farm_debt = false
is_update_reserve_config_mode_global_admin_only
      UpdateConfigMode.update_disable_usage_as_collateral_outside_emode =
    false
is_update_reserve_config_mode_global_admin_only
      UpdateConfigMode.update_block_borrowing_above_utilization_pct =
    false
is_update_reserve_config_mode_global_admin_only UpdateConfigMode.update_block_price_usage = false
is_update_reserve_config_mode_global_admin_only
      UpdateConfigMode.update_borrow_limit_outside_elevation_group =
    false
is_update_reserve_config_mode_global_admin_only
      UpdateConfigMode.update_borrow_limits_in_elevation_group_against_this_reserve =
    false
is_update_reserve_config_mode_global_admin_only
      UpdateConfigMode.update_host_fixed_interest_rate_bps =
    true
is_update_reserve_config_mode_global_admin_only UpdateConfigMode.update_autodeleverage_enabled =
    false
is_update_reserve_config_mode_global_admin_only
      UpdateConfigMode.update_deleveraging_bonus_increase_bps_per_day =
    false
is_update_reserve_config_mode_global_admin_only
      UpdateConfigMode.update_protocol_order_execution_fee =
    true

-- The key that has to sign: the administrator's, or that of the owner of the market.
unfoldable pub allowed_signer_update_reserve_config : UpdateConfigMode → Pubkey → Pubkey → Pubkey
unfolding is_update_reserve_config_mode_global_admin_only
allowed_signer_update_reserve_config mode lending_market_owner global_admin =
    if is_update_reserve_config_mode_global_admin_only mode
    then global_admin
    else lending_market_owner
