-- ===== src/Reserve/Config.antt =====
-- `ReserveConfig`, `ReserveFees` and `ReserveStatus` (state/reserve.rs). The reserved bytes and the
-- padding are left out.
use kamino_lending.Base.{
  Bool, List, Option, Result, if◌then◌else◌, max, none, not, ok, some, unwrap, ℕ, ◌==◌, ◌>>=◌,
}
use kamino_lending.Crates.{Crates, one}
use kamino_lending.Fraction.{Fraction, from_percent}
use kamino_lending.BorrowRateCurve.{BorrowRateCurve}
use kamino_lending.WithdrawalCap.{WithdrawalCaps}
use kamino_lending.Reserve.Token.{TokenInfo}

pub record ReserveFees : Type 0 where
  pub borrow_fee_sf : ℕ
  pub flash_loan_fee_sf : ℕ

pub data ReserveStatus : Type 0 where
  active obsolete hidden : ReserveStatus

pub data AssetTier : Type 0 where
  regular isolated_collateral isolated_debt : AssetTier

pub record ReserveConfig : Type 0 where
  pub status : ℕ
  pub asset_tier : ℕ
  pub host_fixed_interest_rate_bps : ℕ
  pub protocol_order_execution_fee_pct : ℕ
  pub protocol_take_rate_pct : ℕ
  pub protocol_liquidation_fee_pct : ℕ
  pub loan_to_value_pct : ℕ
  pub liquidation_threshold_pct : ℕ
  pub min_liquidation_bonus_bps : ℕ
  pub max_liquidation_bonus_bps : ℕ
  pub bad_debt_liquidation_bonus_bps : ℕ
  pub deleveraging_margin_call_period_secs : ℕ
  pub deleveraging_threshold_decrease_bps_per_day : ℕ
  pub fees : ReserveFees
  pub borrow_rate_curve : BorrowRateCurve
  pub borrow_factor_pct : ℕ
  pub deposit_limit : ℕ
  pub borrow_limit : ℕ
  pub token_info : TokenInfo
  pub deposit_withdrawal_cap : WithdrawalCaps
  pub debt_withdrawal_cap : WithdrawalCaps
  pub elevation_groups : List ℕ
  pub disable_usage_as_coll_outside_emode : ℕ
  pub utilization_limit_block_borrowing_above_pct : ℕ
  pub autodeleverage_enabled : ℕ
  pub borrow_limit_outside_elevation_group : ℕ
  pub borrow_limit_against_this_collateral_in_elevation_group : List ℕ
  pub deleveraging_bonus_increase_bps_per_day : ℕ

-- `AssetTier::try_from`
unfoldable pub asset_tier_of : ℕ → Option AssetTier
asset_tier_of n =
    if n == 0
    then some regular
    else (if n == 1
        then some isolated_collateral
        else (if n == 2 then some isolated_debt else none))

unfoldable pub get_asset_tier : ReserveConfig → Result AssetTier
unfolding asset_tier_of
get_asset_tier config = unwrap (asset_tier_of config.asset_tier)

-- `ReserveStatus::try_from`
unfoldable pub status_of : ℕ → Option ReserveStatus
status_of n =
    if n == 0
    then some active
    else (if n == 1 then some obsolete else (if n == 2 then some hidden else none))

-- `ReserveConfig::status`
unfoldable pub get_status : ReserveConfig → Result ReserveStatus
unfolding status_of
get_status config = unwrap (status_of config.status)

unfoldable pub is_autodeleverage_enabled : ReserveConfig → Bool
is_autodeleverage_enabled config = not (config.autodeleverage_enabled == 0)

unfoldable pub get_borrow_factor : ⦃c : Crates⦄ → ReserveConfig → Result Fraction
get_borrow_factor config = do pct ← from_percent config.borrow_factor_pct; ok (max one pct)
