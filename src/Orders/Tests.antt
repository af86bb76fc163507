-- ===== src/Orders/Tests.antt =====
-- The orders of a concrete obligation.
use kamino_lending.Fraction.{from_bps}
use kamino_lending.Obligation.{
  is_order_active, active_borrows_count, get_opportunity_type, get_condition_type,
  execution_bonus_rate_range, opportunity_type_of, condition_type_of,
}
use kamino_lending.Orders.Defs.{
  is_default_order, check_orders_supported_after_user_operation, remove_all_orders, remove_orders,
  set_order_on_obligation, validate_order,
}
use kamino_lending.Orders.Removal.{remove_all_orders_lem}
use kamino_lending.Base.{all, any, not, LendingError, err, false, ok, refl, true, ◌≡◌}
use kamino_lending.Crates.{one}
use kamino_lending.Crates.Exact.{exact}
use kamino_lending.LendingMarket.Sample.{market}
use kamino_lending.Obligation.Sample.{order, position_of_user}

remove_all_orders_lem_example :
    (all is_default_order (remove_all_orders position_of_user).0.orders ≡ true)
    × ((remove_all_orders position_of_user).1
        ≡ any (λ order. not (is_default_order order)) position_of_user.orders)
    × (check_orders_supported_after_user_operation (remove_all_orders position_of_user).0 ≡ ok tt)
    × ((remove_orders (remove_orders position_of_user.orders).0).1 ≡ false)
remove_all_orders_lem_example = remove_all_orders_lem position_of_user

orders_set :
    (set_order_on_obligation market position_of_user 0 order ≡ ok position_of_user)
    × (set_order_on_obligation market position_of_user 2 order
        ≡ err LendingError.order_index_out_of_bounds)
    × (validate_order (record order { condition_threshold_sf = one })
        ≡ err LendingError.invalid_order_configuration)
    × ((remove_all_orders position_of_user).1 ≡ true)
unfolding set_order_on_obligation remove_all_orders condition_type_of opportunity_type_of
    execution_bonus_rate_range from_bps get_condition_type get_opportunity_type active_borrows_count
    is_order_active
orders_set = (refl, refl, refl, refl)
