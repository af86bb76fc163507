-- ===== src/Liquidation/Bonus.antt =====
-- The bonus of a liquidation (state/liquidation_operations.rs), and the protocol's share of it.
use kamino_lending.Base.{Result, if◌then◌else◌, leb, ltb, max, min, ok, u64_max, ℕ, ◌>>=◌}
use kamino_lending.Crates.{Crates, one}
use kamino_lending.Fraction.{Fraction, from_bps, from_percent, to_ceil}
use kamino_lending.Reserve.{Reserve, ReserveConfig}
use kamino_lending.Obligation.{ObligationOrder, execution_bonus_rate_range}
use kamino_lending.Liquidation.Defs.{
  bad_debt_threshold, min_autodeleverage_bonus_bps, seconds_per_day,
}

module _ ⦃c : Crates⦄ where
  open c use {add, sub, mul, div, div_int, saturating_sub, from_num}

  -- The bonus of an obligation that is close to bad debt or in it.
  unfoldable pub bad_debt_bonus : ReserveConfig → ReserveConfig → Fraction → Result Fraction
  bad_debt_bonus coll_config debt_config user_no_bf_ltv = do
    let bps =
        min coll_config.bad_debt_liquidation_bonus_bps debt_config.bad_debt_liquidation_bonus_bps
    bonus ← from_bps bps
    (if ltb user_no_bf_ltv one
        then (sub one user_no_bf_ltv >>= λ diff. ok (max bonus diff))
        else ok bonus)

  unfoldable pub regular_bonus :
      ReserveConfig → ReserveConfig → Fraction → Fraction → Fraction → ℕ → Result Fraction
  regular_bonus coll_config debt_config max_allowed_ltv user_ltv user_no_bf_ltv
        emode_max_liquidation_bonus_bps =
      do
        unhealthy_factor ← sub user_ltv max_allowed_ltv
        let max_reserve_bps =
            max coll_config.max_liquidation_bonus_bps debt_config.max_liquidation_bonus_bps
        let max_bonus_bps = min max_reserve_bps emode_max_liquidation_bonus_bps
        max_bonus ← from_bps max_bonus_bps
        let min_bonus_bps =
            max coll_config.min_liquidation_bonus_bps debt_config.min_liquidation_bonus_bps
        min_reserve_bonus ← from_bps min_bonus_bps
        let min_bonus = max min_reserve_bonus unhealthy_factor
        let collared_bonus = min min_bonus max_bonus
        diff_to_bad_debt ← sub one user_no_bf_ltv
        ok (min collared_bonus diff_to_bad_debt)

  unfoldable pub calculate_liquidation_bonus :
      ReserveConfig → ReserveConfig → Fraction → Fraction → Fraction → ℕ → Result Fraction
  unfolding bad_debt_bonus regular_bonus
  calculate_liquidation_bonus coll_config debt_config max_allowed_ltv user_ltv user_no_bf_ltv
        emode_max_liquidation_bonus_bps =
      if leb bad_debt_threshold user_no_bf_ltv
      then bad_debt_bonus coll_config debt_config user_no_bf_ltv
      else regular_bonus coll_config debt_config max_allowed_ltv user_ltv user_no_bf_ltv
          emode_max_liquidation_bonus_bps

  -- utils/secs.rs
  unfoldable pub to_days_fractional : ℕ → Result Fraction
  to_days_fractional secs = do f ← from_num secs; div_int f seconds_per_day

  unfoldable pub calculate_autodeleverage_threshold : Reserve → Fraction → Result Fraction
  calculate_autodeleverage_threshold r days_since_deleveraging_started = do
    daily ← from_bps r.config.deleveraging_threshold_decrease_bps_per_day
    reduction ← mul daily days_since_deleveraging_started
    ok (saturating_sub one reduction)

  unfoldable pub calculate_autodeleverage_bonus_rate :
      ℕ → ℕ → ℕ → Fraction → Fraction → Result Fraction
  calculate_autodeleverage_bonus_rate increase_bps_per_day reserve_max_bonus_bps
        emode_max_liquidation_bonus_bps days_since_deleveraging_started user_no_bf_ltv =
      do
        static_min ← from_bps min_autodeleverage_bonus_bps
        daily ← from_bps increase_bps_per_day
        grown ← mul daily days_since_deleveraging_started
        bonus ← add static_min grown
        configured_max ← from_bps (min reserve_max_bonus_bps emode_max_liquidation_bonus_bps)
        let effective_max = min configured_max (saturating_sub one user_no_bf_ltv)
        ok (if ltb effective_max bonus then effective_max else bonus)

  unfoldable pub interpolate_bonus_rate : Fraction → Fraction × Fraction → Result Fraction
  interpolate_bonus_rate normalized_distance_from_threshold range = do
    width ← sub range.1 range.0
    part ← mul normalized_distance_from_threshold width
    add range.0 part

  unfoldable pub calculate_order_execution_bonus_rate :
      ObligationOrder → Fraction → Fraction → Result Fraction
  unfolding interpolate_bonus_rate
  calculate_order_execution_bonus_rate order normalized_distance user_no_bf_ltv = do
    range ← execution_bonus_rate_range order
    interpolated ← interpolate_bonus_rate normalized_distance range
    let diff_to_bad_debt = saturating_sub one user_no_bf_ltv
    ok (if ltb diff_to_bad_debt interpolated then diff_to_bad_debt else interpolated)

  unfoldable pub calculate_protocol_liquidation_fee : ℕ → Fraction → ℕ → Result ℕ
  calculate_protocol_liquidation_fee amount_liquidated liquidation_bonus_rate
        protocol_liquidation_fee_pct =
      do
        protocol_fee_rate ← from_percent protocol_liquidation_fee_pct
        amount_f ← from_num amount_liquidated
        bonus_multiplier ← add liquidation_bonus_rate one
        without_bonus ← div amount_f bonus_multiplier
        bonus ← sub amount_f without_bonus
        protocol_fee_f ← mul bonus protocol_fee_rate
        protocol_fee ← to_ceil u64_max protocol_fee_f
        ok (max protocol_fee 1)
