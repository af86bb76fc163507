-- ===== src/Obligation/Orders.antt =====
-- `ObligationOrder` (state/obligation.rs), and the two enumerations that it stores as bytes
-- (state/order_operations.rs).
use kamino_lending.Base.{
  Bool, List, Option, Result, if◌then◌else◌, none, not, ok, replicate, some, suc, unwrap, zero, ℕ,
  ◌==◌, ◌>>=◌,
}
use kamino_lending.Crates.{Crates}
use kamino_lending.Fraction.{Fraction, from_bps}

pub data ConditionType : Type 0 where
  never user_ltv_above user_ltv_below debt_coll_price_ratio_above debt_coll_price_ratio_below :
      ConditionType

pub data OpportunityType : Type 0 where
  deleverage_single_debt_amount deleverage_all_debt : OpportunityType

pub record ObligationOrder : Type 0 where
  pub condition_threshold_sf : ℕ
  pub opportunity_parameter_sf : ℕ
  pub min_execution_bonus_bps : ℕ
  pub max_execution_bonus_bps : ℕ
  pub condition_type : ℕ
  pub opportunity_type : ℕ
  pub padding1 : List ℕ
  pub padding2 : List ℕ

unfoldable pub default_order : ObligationOrder
default_order = record {
  condition_threshold_sf = 0;
  opportunity_parameter_sf = 0;
  min_execution_bonus_bps = 0;
  max_execution_bonus_bps = 0;
  condition_type = 0;
  opportunity_type = 0;
  padding1 = replicate 10 0;
  padding2 = replicate 5 0;
}

-- `ConditionType::try_from` and `OpportunityType::try_from`
unfoldable pub condition_type_of : ℕ → Option ConditionType
condition_type_of zero = some never
condition_type_of (suc zero) = some user_ltv_above
condition_type_of (suc (suc zero)) = some user_ltv_below
condition_type_of (suc (suc (suc zero))) = some debt_coll_price_ratio_above
condition_type_of (suc (suc (suc (suc zero)))) = some debt_coll_price_ratio_below
condition_type_of (suc (suc (suc (suc (suc n))))) = none

unfoldable pub opportunity_type_of : ℕ → Option OpportunityType
opportunity_type_of zero = some deleverage_single_debt_amount
opportunity_type_of (suc zero) = some deleverage_all_debt
opportunity_type_of (suc (suc n)) = none

-- `ObligationOrder::condition_type` and `ObligationOrder::opportunity_type`
unfoldable pub get_condition_type : ObligationOrder → Result ConditionType
unfolding condition_type_of
get_condition_type order = unwrap (condition_type_of order.condition_type)

unfoldable pub get_opportunity_type : ObligationOrder → Result OpportunityType
unfolding opportunity_type_of
get_opportunity_type order = unwrap (opportunity_type_of order.opportunity_type)

-- `ObligationOrder::is_active`
unfoldable pub is_order_active : ObligationOrder → Bool
is_order_active order = not (order.condition_type == 0)

module _ ⦃c : Crates⦄ where
  open c use {saturating_sub, from_num}

  -- The start and the end of `execution_bonus_rate_range`.
  unfoldable pub execution_bonus_rate_range : ObligationOrder → Result (Fraction × Fraction)
  execution_bonus_rate_range order = do
    start ← from_bps order.min_execution_bonus_bps
    end ← from_bps order.max_execution_bonus_bps
    ok (start, end)

  unfoldable pub use_deleverage_single_debt_amount_opportunity :
      ObligationOrder → ℕ → Result ObligationOrder
  unfolding default_order
  use_deleverage_single_debt_amount_opportunity order debt_repay_amount = do
    repaid ← from_num debt_repay_amount
    let updated = saturating_sub order.opportunity_parameter_sf repaid
    ok (if updated == 0 then default_order else record order { opportunity_parameter_sf = updated })

  -- The case of `consume` for a type of opportunity.
  unfoldable pub consume_as : OpportunityType → ObligationOrder → ℕ → Result ObligationOrder
  unfolding use_deleverage_single_debt_amount_opportunity
  consume_as OpportunityType.deleverage_single_debt_amount order n =
      use_deleverage_single_debt_amount_opportunity order n
  consume_as OpportunityType.deleverage_all_debt order n = ok order

  unfoldable pub consume : ObligationOrder → ℕ → Result ObligationOrder
  unfolding get_opportunity_type consume_as
  consume order debt_repay_amount = do
    opportunity ← get_opportunity_type order
    consume_as opportunity order debt_repay_amount
