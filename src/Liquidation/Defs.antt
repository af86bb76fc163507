-- ===== src/Liquidation/Defs.antt =====
-- The computations of state/liquidation_operations.rs: how much of a loan a liquidation settles, what
-- it costs and takes, and the bonus. The log messages are left out.
use kamino_lending.Base.{
  Bool, Option, Result, get_elem?, if◌then◌else◌, ltb, min, ok, u128_max, u64_max, unwrap, ℕ, ◌&&◌,
  ◌*◌, ◌==◌, ◌>>=◌,
}
use kamino_lending.Crates.{Crates, checked_sub_int, one}
use kamino_lending.Fraction.{Fraction, from_percent, to_ceil, to_floor}
use kamino_lending.Obligation.{
  Obligation, ObligationCollateral, ObligationLiquidity, ObligationOrder, OpportunityType,
  get_opportunity_type,
}

-- `LiquidationReason` (state/types.rs)
pub data LiquidationReason : Type 0 where
  ltv_exceeded individual_deleveraging market_wide_deleveraging : LiquidationReason
  obligation_order : ℕ → LiquidationReason

-- utils/consts.rs
abbrev pub dust_lamport_threshold : ℕ
dust_lamport_threshold = 1

abbrev pub min_autodeleverage_bonus_bps : ℕ
min_autodeleverage_bonus_bps = 50

abbrev pub seconds_per_day : ℕ
seconds_per_day = 60 * 60 * 24

-- The nearest number of bits to 0.99.
abbrev pub bad_debt_threshold : Fraction
bad_debt_threshold = 1141392289560778506

-- `get_secs_since_deleveraging_started`: nothing before the margin call period is over.
unfoldable pub get_secs_since_deleveraging_started : ℕ → ℕ → Option ℕ
get_secs_since_deleveraging_started deleveraging_margin_call_period_secs
      secs_since_margin_call_started =
    checked_sub_int secs_since_margin_call_started deleveraging_margin_call_period_secs

module _ ⦃c : Crates⦄ where
  open c use {add, sub, mul, div, div_int, saturating_sub, from_num}

  -- The amount that an order allows of one loan.
  unfoldable pub order_size_amount : ObligationOrder → OpportunityType → Fraction
  order_size_amount order OpportunityType.deleverage_single_debt_amount =
      order.opportunity_parameter_sf
  order_size_amount order OpportunityType.deleverage_all_debt = u128_max

  -- `max_liquidatable_borrowed_amount` where an order is the reason.
  unfoldable pub order_liquidatable_amount : Obligation → ObligationLiquidity → ℕ → Result Fraction
  unfolding order_size_amount
  order_liquidatable_amount o liquidity i = do
    order ← unwrap (get_elem? o.orders i)
    opportunity ← get_opportunity_type order
    ok (min (order_size_amount order opportunity) liquidity.borrowed_amount_sf)

  unfoldable pub close_factor : ℕ → Fraction → ℕ → Result Fraction
  close_factor liquidation_max_debt_close_factor_pct user_ltv insolvency_risk_ltv_pct = do
    risky_ltv ← from_percent insolvency_risk_ltv_pct
    (if ltb risky_ltv user_ltv then ok one else from_percent liquidation_max_debt_close_factor_pct)

  -- `max_liquidatable_borrowed_amount` for the other reasons.
  unfoldable pub value_liquidatable_amount :
      Obligation → ℕ → ℕ → ObligationLiquidity → Fraction → ℕ → Result Fraction
  unfolding close_factor
  value_liquidatable_amount o liquidation_max_debt_close_factor_pct
        market_max_liquidatable_debt_value_at_once liquidity user_ltv insolvency_risk_ltv_pct =
      do
        rate ← close_factor liquidation_max_debt_close_factor_pct user_ltv insolvency_risk_ltv_pct
        market_max ← from_num market_max_liquidatable_debt_value_at_once
        calculated ← mul o.borrowed_assets_market_value_sf rate
        let max_liquidatable_mv = min (min calculated liquidity.market_value_sf) market_max
        ratio ← div max_liquidatable_mv liquidity.market_value_sf
        mul liquidity.borrowed_amount_sf ratio

  unfoldable pub max_liquidatable_borrowed_amount :
      Obligation → ℕ → ℕ → ObligationLiquidity → Fraction → ℕ → LiquidationReason → Result Fraction
  unfolding order_liquidatable_amount value_liquidatable_amount
  max_liquidatable_borrowed_amount o close_pct market_max liquidity user_ltv insolvency_pct
        (LiquidationReason.obligation_order i) =
      order_liquidatable_amount o liquidity i
  max_liquidatable_borrowed_amount o close_pct market_max liquidity user_ltv insolvency_pct
        LiquidationReason.ltv_exceeded =
      value_liquidatable_amount o close_pct market_max liquidity user_ltv insolvency_pct
  max_liquidatable_borrowed_amount o close_pct market_max liquidity user_ltv insolvency_pct
        LiquidationReason.individual_deleveraging =
      value_liquidatable_amount o close_pct market_max liquidity user_ltv insolvency_pct
  max_liquidatable_borrowed_amount o close_pct market_max liquidity user_ltv insolvency_pct
        LiquidationReason.market_wide_deleveraging =
      value_liquidatable_amount o close_pct market_max liquidity user_ltv insolvency_pct

  -- The collateral does not cover the value: all of it is taken, for its share of the debt.
  unfoldable pub amounts_above :
      Fraction → ObligationCollateral → Fraction → Bool → Result (Fraction × ℕ × ℕ)
  amounts_above value t amount is_below_min = do
    repay_ratio ← div t.market_value_sf value
    repay_amount_f ← mul amount repay_ratio
    let settle_amount = if is_below_min then amount else repay_amount_f
    repay_amount ← to_ceil u64_max settle_amount
    ok (settle_amount, repay_amount, t.deposited_amount)

  unfoldable pub amounts_equal : ObligationCollateral → Fraction → Result (Fraction × ℕ × ℕ)
  amounts_equal t amount = do
    repay_amount ← to_ceil u64_max amount
    ok (amount, repay_amount, t.deposited_amount)

  unfoldable pub amounts_below :
      Fraction → ObligationCollateral → Fraction → Bool → Result (Fraction × ℕ × ℕ)
  amounts_below value t amount is_below_min = do
    repay_amount ← to_ceil u64_max amount
    withdraw_pct ← div value t.market_value_sf
    deposited_f ← from_num t.deposited_amount
    withdraw_amount_f ← mul deposited_f withdraw_pct
    withdraw_amount ←
        (if is_below_min && ltb withdraw_amount_f (dust_lamport_threshold * one)
          then ok dust_lamport_threshold
          else to_floor u64_max withdraw_amount_f)
    ok (amount, repay_amount, withdraw_amount)

  -- The settled amount, what it costs, and the collateral that is taken.
  unfoldable pub calculate_liquidation_amounts :
      Fraction → ObligationCollateral → Fraction → Bool → Result (Fraction × ℕ × ℕ)
  unfolding amounts_above amounts_equal amounts_below
  calculate_liquidation_amounts value t amount is_below_min =
      if ltb t.market_value_sf value
      then amounts_above value t amount is_below_min
      else (if value == t.market_value_sf
          then amounts_equal t amount
          else amounts_below value t amount is_below_min)
