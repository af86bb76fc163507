-- ===== src/Orders/Removal.antt =====
-- What `remove_all_orders` leaves (state/order_operations.rs).
use kamino_lending.Orders.Defs.{
  all_supported, check_orders_supported_after_user_operation, is_default_order,
  is_order_supported_by, remove_all_orders, remove_orders,
}
use kamino_lending.Base.{
  Bool-cases, List, [], all, any, false, inl, inr, not, ok, refl, true, ◌∷◌, ◌≡◌,
}
use kamino_lending.Obligation.{Obligation, ObligationOrder, default_order}

supported_lem :
    (order : ObligationOrder) (o : Obligation)
    → is_default_order order ≡ true
    → is_order_supported_by order o ≡ ok true
unfolding is_order_supported_by
supported_lem order o unset = rw unset refl

default_lem : is_default_order default_order ≡ true
unfolding is_default_order default_order
default_lem = refl

removed_lem :
    (orders : List ObligationOrder) (o : Obligation)
    → all_supported (remove_orders orders).0 o ≡ ok true
unfolding remove_orders all_supported
removed_lem [] o = refl
removed_lem (order ∷ rest) o = elim (Bool-cases (is_default_order order)) [
  | inl unset ↦ rw unset (rw (supported_lem order o unset) (removed_lem rest o))
  | inr placed ↦ rw placed (rw (supported_lem default_order o default_lem) (removed_lem rest o))
]

kept :
    (order : ObligationOrder) (rest : List ObligationOrder)
    → is_default_order order ≡ true
    → remove_orders (order ∷ rest) ≡ (order ∷ (remove_orders rest).0, (remove_orders rest).1)
unfolding remove_orders
kept order rest unset = rw unset refl

replaced :
    (order : ObligationOrder) (rest : List ObligationOrder)
    → is_default_order order ≡ false
    → remove_orders (order ∷ rest) ≡ (default_order ∷ (remove_orders rest).0, true)
unfolding remove_orders
replaced order rest placed = rw placed refl

none_to_remove : remove_orders [] ≡ ([], false)
unfolding remove_orders
none_to_remove = refl

again : (orders : List ObligationOrder) → (remove_orders (remove_orders orders).0).1 ≡ false
again [] = rw none_to_remove (rw none_to_remove refl)
again (order ∷ rest) = elim (Bool-cases (is_default_order order)) [
  | inl unset ↦
      rw (kept order rest unset) (rw (kept order (remove_orders rest).0 unset) (again rest))
  | inr placed ↦
      rw (replaced order rest placed)
        (rw (kept default_order (remove_orders rest).0 default_lem) (again rest))
]

cleared : (orders : List ObligationOrder) → all is_default_order (remove_orders orders).0 ≡ true
cleared [] = rw none_to_remove refl
cleared (order ∷ rest) = elim (Bool-cases (is_default_order order)) [
  | inl unset ↦ rw (kept order rest unset) (rw unset (cleared rest))
  | inr placed ↦ rw (replaced order rest placed) (rw default_lem (cleared rest))
]

found :
    (orders : List ObligationOrder)
    → (remove_orders orders).1 ≡ any (λ order. not (is_default_order order)) orders
found [] = rw none_to_remove refl
found (order ∷ rest) = elim (Bool-cases (is_default_order order)) [
  | inl unset ↦ rw (kept order rest unset) (rw unset (found rest))
  | inr placed ↦ rw (replaced order rest placed) (rw placed refl)
]

-- Removing the orders of an obligation leaves none but default orders, and answers whether any was not.
-- Afterwards the check on the orders that borrows, deposits and repayments make accepts the obligation,
-- whatever it holds and owes, and removing its orders again finds none.
pub remove_all_orders_lem :
    (o : Obligation)
    → (all is_default_order (remove_all_orders o).0.orders ≡ true)
      × ((remove_all_orders o).1 ≡ any (λ order. not (is_default_order order)) o.orders)
      × (check_orders_supported_after_user_operation (remove_all_orders o).0 ≡ ok tt)
      × ((remove_orders (remove_orders o.orders).0).1 ≡ false)
unfolding check_orders_supported_after_user_operation remove_all_orders
remove_all_orders_lem o = (
  cleared o.orders,
  found o.orders,
  rw (removed_lem o.orders (record o { orders = (remove_orders o.orders).0 })) refl,
  again o.orders,
)
