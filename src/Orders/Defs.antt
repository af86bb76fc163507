-- ===== src/Orders/Defs.antt =====
-- The functions of state/order_operations.rs, on top of the conditions of `Obligation.Conditions`.
use kamino_lending.Base.{
  Bool, LendingError, List, Option, Result, [], all, equal, err, false, get_elem?, guard,
  if◌then◌else◌, leb, length, ltb, none, not, ok, set, some, suc, true, u128_max, unwrap, ℕ, ◌&&◌,
  ◌*◌, ◌==◌, ◌>>=◌, ◌>>◌, ◌∷◌,
}
use kamino_lending.Crates.{Crates, one}
use kamino_lending.Fraction.{Fraction}
use kamino_lending.Reserve.{Reserve}
use kamino_lending.LendingMarket.{LendingMarket, is_obligation_order_creation_enabled}
use kamino_lending.Obligation.{
  ConditionType, Obligation, ObligationOrder, OpportunityType, active_borrows_count,
  condition_type_of, default_order, evaluate_stop_loss, evaluate_take_profit,
  execution_bonus_rate_range, get_condition_type, get_opportunity_type, is_order_active,
  is_single_debt_single_coll, loan_to_value, opportunity_type_of, unhealthy_loan_to_value,
}

-- 0.000000000000001, 1000000000000000, 0.01, 1 and 0.1, to the nearest number of bits.
abbrev pub min_price_ratio : Fraction
min_price_ratio = 1153

abbrev pub max_price_ratio : Fraction
max_price_ratio = 1_000_000_000_000_000 * one

abbrev pub min_user_ltv : Fraction
min_user_ltv = 11529215046068470

abbrev pub execution_bonus_sanity_limit : Fraction
execution_bonus_sanity_limit = 115292150460684698

-- `order != &ObligationOrder::default()`, field by field.
unfoldable pub is_default_order : ObligationOrder → Bool
unfolding default_order
is_default_order order =
    order.condition_threshold_sf == default_order.condition_threshold_sf
    && order.opportunity_parameter_sf == default_order.opportunity_parameter_sf
    && order.min_execution_bonus_bps == default_order.min_execution_bonus_bps
    && order.max_execution_bonus_bps == default_order.max_execution_bonus_bps
    && order.condition_type == default_order.condition_type
    && order.opportunity_type == default_order.opportunity_type
    && equal order.padding1 default_order.padding1
    && equal order.padding2 default_order.padding2

-- The orders after the removal, and whether there were any.
unfoldable pub remove_orders : List ObligationOrder → List ObligationOrder × Bool
unfolding is_default_order default_order
remove_orders [] = ([], false)
remove_orders (order ∷ rest) =
    let rest' = remove_orders rest in
    if is_default_order order then (order ∷ rest'.0, rest'.1) else (default_order ∷ rest'.0, true)

unfoldable pub remove_all_orders : Obligation → Obligation × Bool
unfolding remove_orders
remove_all_orders o =
    let removed = remove_orders o.orders in (record o { orders = removed.0 }, removed.1)

-- `ConditionType::is_supported_by`
unfoldable pub is_condition_supported_by : ConditionType → Obligation → Bool
is_condition_supported_by ConditionType.never o = true
is_condition_supported_by ConditionType.user_ltv_above o = true
is_condition_supported_by ConditionType.user_ltv_below o = true
is_condition_supported_by ConditionType.debt_coll_price_ratio_above o = is_single_debt_single_coll o
is_condition_supported_by ConditionType.debt_coll_price_ratio_below o = is_single_debt_single_coll o

-- `Obligation::single_debt`: the only active borrow, if there is exactly one.
unfoldable pub has_single_debt : Obligation → Bool
has_single_debt o = active_borrows_count o == 1

-- `OpportunityType::is_supported_by`
unfoldable pub is_opportunity_supported_by : OpportunityType → Obligation → Bool
unfolding has_single_debt
is_opportunity_supported_by OpportunityType.deleverage_single_debt_amount o = has_single_debt o
is_opportunity_supported_by OpportunityType.deleverage_all_debt o = true

-- `!is_default_array(..)`
abbrev is_zeroed : List ℕ → Bool
is_zeroed xs = all (λ x. x == 0) xs

unfoldable pub check_threshold : Bool → Result (Unit {0})
check_threshold in_range = guard in_range LendingError.invalid_order_configuration

-- The first match of `validate_order`: whether the order goes on to the other checks.
unfoldable pub validate_condition : Option ConditionType → ObligationOrder → Result Bool
unfolding check_threshold is_default_order
validate_condition none order = err LendingError.invalid_order_configuration
validate_condition (some ConditionType.never) order = do
  guard (is_default_order order) LendingError.invalid_order_configuration
  ok false
validate_condition (some ConditionType.user_ltv_above) order = do
  check_threshold
      (leb min_user_ltv order.condition_threshold_sf && ltb order.condition_threshold_sf one)
  ok true
validate_condition (some ConditionType.user_ltv_below) order = do
  check_threshold
      (leb min_user_ltv order.condition_threshold_sf && ltb order.condition_threshold_sf one)
  ok true
validate_condition (some ConditionType.debt_coll_price_ratio_above) order = do
  check_threshold (
      leb min_price_ratio order.condition_threshold_sf
      && leb order.condition_threshold_sf max_price_ratio)
  ok true
validate_condition (some ConditionType.debt_coll_price_ratio_below) order = do
  check_threshold (
      leb min_price_ratio order.condition_threshold_sf
      && leb order.condition_threshold_sf max_price_ratio)
  ok true

-- The second match. Fraction::MAX has all 128 bits.
unfoldable pub validate_opportunity : Option OpportunityType → ObligationOrder → Result (Unit {0})
validate_opportunity none order = err LendingError.invalid_order_configuration
validate_opportunity (some OpportunityType.deleverage_single_debt_amount) order = do
  guard (not (order.opportunity_parameter_sf == 0)) LendingError.invalid_order_configuration
  guard (not (order.opportunity_parameter_sf == u128_max)) LendingError.invalid_order_configuration
validate_opportunity (some OpportunityType.deleverage_all_debt) order =
    guard (order.opportunity_parameter_sf == u128_max) LendingError.invalid_order_configuration

module _ ⦃c : Crates⦄ where
  open c use {mul, div}

  -- The checks of `validate_order` on an order that is not void.
  unfoldable pub validate_terms : ObligationOrder → Result (Unit {0})
  unfolding validate_opportunity
  validate_terms order = do
    validate_opportunity (opportunity_type_of order.opportunity_type) order
    range ← execution_bonus_rate_range order
    guard (not (ltb range.1 range.0)) LendingError.invalid_order_configuration
    guard (not (ltb execution_bonus_sanity_limit range.1)) LendingError.invalid_order_configuration
    guard (is_zeroed order.padding1 && is_zeroed order.padding2)
        LendingError.invalid_order_configuration

  unfoldable pub validate_order : ObligationOrder → Result (Unit {0})
  unfolding validate_condition validate_terms
  validate_order order = do
    goes_on ← validate_condition (condition_type_of order.condition_type) order
    (if goes_on then validate_terms order else ok tt)

  unfoldable pub calculate_price_ratio : Reserve → Reserve → Result Fraction
  calculate_price_ratio numerator_reserve denominator_reserve =
      div numerator_reserve.liquidity.market_price_sf denominator_reserve.liquidity.market_price_sf

  unfoldable pub evaluate_condition :
      ConditionType → Reserve → Reserve → Obligation → ObligationOrder → Result (Option Fraction)
  unfolding calculate_price_ratio
  evaluate_condition ConditionType.never coll debt_reserve o order = ok none
  evaluate_condition ConditionType.user_ltv_above coll debt_reserve o order = do
    ltv ← loan_to_value o
    unhealthy_ltv ← unhealthy_loan_to_value o
    evaluate_stop_loss ltv order.condition_threshold_sf unhealthy_ltv
  evaluate_condition ConditionType.user_ltv_below coll debt_reserve o order = do
    ltv ← loan_to_value o
    evaluate_take_profit ltv order.condition_threshold_sf
  evaluate_condition ConditionType.debt_coll_price_ratio_above coll debt_reserve o order = do
    price_ratio ← calculate_price_ratio debt_reserve coll
    unhealthy_ltv ← unhealthy_loan_to_value o
    scaled ← mul price_ratio unhealthy_ltv
    ltv ← loan_to_value o
    liquidation_ratio ← div scaled ltv
    evaluate_stop_loss price_ratio order.condition_threshold_sf liquidation_ratio
  evaluate_condition ConditionType.debt_coll_price_ratio_below coll debt_reserve o order = do
    price_ratio ← calculate_price_ratio debt_reserve coll
    evaluate_take_profit price_ratio order.condition_threshold_sf

  unfoldable pub evaluate_order_condition :
      Reserve → Reserve → Obligation → ObligationOrder → Result (Option Fraction)
  unfolding evaluate_condition
  evaluate_order_condition coll debt_reserve o order = do
    condition ← get_condition_type order
    evaluate_condition condition coll debt_reserve o order

  -- The index of the first order whose condition is met, and how far it is met. The first argument
  -- is the index of the first order of the list.
  unfoldable pub find_order :
      ℕ → List ObligationOrder → Reserve → Reserve → Obligation → Result (Option (ℕ × Fraction))
  unfolding evaluate_order_condition
  find_order i [] coll debt_reserve o = ok none
  find_order i (order ∷ rest) coll debt_reserve o =
      evaluate_order_condition coll debt_reserve o order >>= λ hit. elim hit [
        | some distance ↦ ok (some (i, distance))
        | none ↦ find_order (suc i) rest coll debt_reserve o
      ]

  unfoldable pub find_applicable_obligation_order :
      Reserve → Reserve → Obligation → Result (Option (ℕ × Fraction))
  unfolding find_order
  find_applicable_obligation_order coll debt_reserve o = find_order 0 o.orders coll debt_reserve o

-- `ObligationOrder::is_supported_by` (state/obligation.rs) for an order that is not void.
unfoldable pub are_terms_supported_by : ObligationOrder → Obligation → Result Bool
unfolding is_condition_supported_by is_opportunity_supported_by
are_terms_supported_by order o = do
  condition ← get_condition_type order
  (if is_condition_supported_by condition o
      then (get_opportunity_type order >>= λ opportunity.
          ok (is_opportunity_supported_by opportunity o))
      else ok false)

-- `ObligationOrder::is_supported_by`
unfoldable pub is_order_supported_by : ObligationOrder → Obligation → Result Bool
unfolding is_default_order are_terms_supported_by
is_order_supported_by order o =
    if is_default_order order then ok true else are_terms_supported_by order o

-- `any` stops at the first order that is not supported.
unfoldable pub all_supported : List ObligationOrder → Obligation → Result Bool
unfolding is_order_supported_by
all_supported [] o = ok true
all_supported (order ∷ rest) o = is_order_supported_by order o >>= λ supported. elim supported [
  | true ↦ all_supported rest o
  | false ↦ ok false
]

unfoldable pub check_orders_supported_after_user_operation : Obligation → Result (Unit {0})
unfolding all_supported
check_orders_supported_after_user_operation o = do
  supported ← all_supported o.orders o
  guard supported LendingError.operation_not_permitted_with_current_obligation_orders

unfoldable pub set_order_on_obligation :
    ⦃c : Crates⦄ → LendingMarket → Obligation → ℕ → ObligationOrder → Result Obligation
unfolding validate_order is_order_supported_by
set_order_on_obligation market o index order = do
  validate_order order
  supported ← is_order_supported_by order o
  guard supported LendingError.order_configuration_not_supported_by_obligation
  guard (not (leb (length o.orders) index)) LendingError.order_index_out_of_bounds
  previous ← unwrap (get_elem? o.orders index)
  guard
      (not (
        not (is_order_active previous)
        && is_order_active order
        && not (is_obligation_order_creation_enabled market)))
      LendingError.order_creation_disabled
  ok (record o { orders = set o.orders index order })
