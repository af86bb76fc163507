-- ===== src/Operations/Groups.antt =====
-- `request_elevation_group` (lending_operations.rs): the change of an obligation's elevation group.
use kamino_lending.Operations.Accounts.{
  Accounts, DepositStep, at, for_active_deposits, next_key, none_left, put,
}
use kamino_lending.Operations.Checks.{
  MaxReservesAsCollateralCheck, check_non_elevation_group_borrowing_enabled,
  check_obligation_fully_refreshed_and_not_null,
}
use kamino_lending.Operations.Trackers.{with_group_debt, with_tracked_debt}
use kamino_lending.Operations.Loans.{stale_obligation}
use kamino_lending.Operations.Refresh.{refresh_obligation_deposits}
use kamino_lending.Operations.RefreshBorrows.{DeriveAddress, refresh_obligation_borrows}
use kamino_lending.Base.{
  LendingError, List, Option, Result, [], contains, false, guard, if◌then◌else◌, leb, ltb, none,
  not, ok, some, true, ℕ, ◌-◌, ◌==◌, ◌>>=◌, ◌>>◌, ◌∷◌,
}
use kamino_lending.Crates.{Crates}
use kamino_lending.Fraction.{Fraction}
use kamino_lending.Reserve.{Pubkey, ReferrerTokenState}
use kamino_lending.LendingMarket.{
  ElevationGroup, LendingMarket, get_elevation_group, get_index, new_loans_disabled,
}
use kamino_lending.Obligation.{
  Obligation, ObligationCollateral, ObligationLiquidity, active_borrows_empty, is_collateral_active,
  is_liquidity_active, is_marked_for_deleveraging, loan_to_value,
}

-- A loop over the active borrows, each with the next key, which only reads the accounts.
unfoldable pub check_active_borrows :
    (ObligationLiquidity → Pubkey → Result (Unit {0}))
    → List ObligationLiquidity
    → List Pubkey
    → Result (Unit {0})
check_active_borrows check [] keys = none_left keys
check_active_borrows check (t ∷ ts) keys = elim (is_liquidity_active t) [
  | false ↦ check_active_borrows check ts keys
  | true ↦
      next_key keys >>= λ taken. check t taken.0 >>= λ done. check_active_borrows check ts taken.1
]

unfoldable pub check_active_deposits :
    (ObligationCollateral → Pubkey → Result (Unit {0}))
    → List ObligationCollateral
    → List Pubkey
    → Result (Unit {0})
check_active_deposits check [] keys = none_left keys
check_active_deposits check (t ∷ ts) keys = elim (is_collateral_active t) [
  | false ↦ check_active_deposits check ts keys
  | true ↦
      next_key keys >>= λ taken. check t taken.0 >>= λ done. check_active_deposits check ts taken.1
]

-- What `check_elevation_group_borrow_limit_constraints` asks of a borrow and its reserve.
unfoldable pub check_borrow_limit :
    Option ElevationGroup → Accounts → ObligationLiquidity → Pubkey → Result (Unit {0})
check_borrow_limit (some g) accounts t key = do
  guard (t.borrow_reserve == key) LendingError.invalid_account_input
  guard (contains (accounts key).config.elevation_groups g.id)
      LendingError.inconsistent_elevation_group
  guard (key == g.debt_reserve) LendingError.elevation_group_has_another_debt_reserve
check_borrow_limit none accounts t key = do
  guard (t.borrow_reserve == key) LendingError.invalid_account_input
  guard
      (leb (accounts key).borrowed_amount_outside_elevation_group
        (accounts key).config.borrow_limit_outside_elevation_group)
      LendingError.elevation_group_borrow_limit_exceeded

-- What it asks of a deposit and its reserve.
unfoldable pub check_deposit_limit :
    Option ElevationGroup → Accounts → ObligationCollateral → Pubkey → Result (Unit {0})
unfolding get_index
check_deposit_limit (some g) accounts t key = do
  guard (t.deposit_reserve == key) LendingError.invalid_account_input
  i ← get_index g
  guard (contains (accounts key).config.elevation_groups g.id)
      LendingError.inconsistent_elevation_group
  guard (not (key == g.debt_reserve)) LendingError.elevation_group_debt_reserve_as_collateral
  limit ← at (accounts key).config.borrow_limit_against_this_collateral_in_elevation_group i
  debt_against ← at (accounts key).borrowed_amounts_against_this_reserve_in_elevation_groups i
  guard (leb debt_against limit) LendingError.elevation_group_borrow_limit_exceeded
check_deposit_limit none accounts t key =
    guard (t.deposit_reserve == key) LendingError.invalid_account_input

unfoldable pub check_elevation_group_borrow_limit_constraints :
    Obligation → Option ElevationGroup → List Pubkey → List Pubkey → Accounts → Result (Unit {0})
unfolding check_active_borrows check_active_deposits check_borrow_limit check_deposit_limit
check_elevation_group_borrow_limit_constraints o group deposit_keys borrow_keys accounts = do
  check_active_borrows (check_borrow_limit group accounts) o.borrows borrow_keys
  check_active_deposits (check_deposit_limit group accounts) o.deposits deposit_keys
  (if active_borrows_empty o then ok tt else check_non_elevation_group_borrowing_enabled o)

-- The debt that a deposit tracks is taken out of its reserve's.
unfoldable pub untrack_deposit : ℕ → DepositStep
untrack_deposit i t key accounts = do
  guard (t.deposit_reserve == key) LendingError.invalid_account_input
  pre ← at (accounts key).borrowed_amounts_against_this_reserve_in_elevation_groups i
  ok (
    with_tracked_debt t 0,
    put accounts key (
        with_group_debt (accounts key) i
          (pre - t.borrowed_amount_against_this_collateral_in_elevation_group)),
  )

-- The debt that a borrow tracks outside the groups is taken out of its reserve's.
unfoldable pub untrack_borrows :
    List ObligationLiquidity → List Pubkey → Accounts → Result (List ObligationLiquidity × Accounts)
untrack_borrows [] keys accounts = none_left keys >>= λ done. ok ([], accounts)
untrack_borrows (t ∷ ts) keys accounts = elim (is_liquidity_active t) [
  | false ↦ untrack_borrows ts keys accounts >>= λ rest. ok (t ∷ rest.0, rest.1)
  | true ↦ next_key keys >>= λ taken.
      untrack_borrows ts taken.1 (
        put accounts taken.0 (record (accounts taken.0) {
          borrowed_amount_outside_elevation_group =
              (accounts taken.0).borrowed_amount_outside_elevation_group
              - t.borrowed_amount_outside_elevation_groups;
        }))
      >>= λ rest. ok (record t { borrowed_amount_outside_elevation_groups = 0 } ∷ rest.0, rest.1)
]

unfoldable pub reset_elevation_group_debts :
    Obligation
    → Option ElevationGroup
    → List Pubkey
    → List Pubkey
    → Accounts
    → Result (Obligation × Accounts)
unfolding for_active_deposits untrack_deposit untrack_borrows get_index
reset_elevation_group_debts o (some g) deposit_keys borrow_keys accounts = do
  i ← get_index g
  reset ← for_active_deposits (untrack_deposit i) o.deposits deposit_keys accounts
  none_left reset.1
  ok (record o { deposits = reset.0 }, reset.2)
reset_elevation_group_debts o none deposit_keys borrow_keys accounts = do
  reset ← untrack_borrows o.borrows borrow_keys accounts
  ok (record o { borrows = reset.0 }, reset.1)

-- A group that is entered must allow new loans, and name its debt and some collateral.
unfoldable pub check_entered_group : Option ElevationGroup → Result (Unit {0})
check_entered_group none = ok tt
check_entered_group (some g) = do
  guard (not (new_loans_disabled g)) LendingError.elevation_group_new_loans_disabled
  guard (not (g.debt_reserve == 0)) LendingError.elevation_group_without_debt_reserve
  guard (ltb 0 g.max_reserves_as_collateral)
      LendingError.elevation_group_max_collateral_reserve_zero

module _ ⦃c : Crates⦄ where
  open c use {div}

  unfoldable pub check_ltv_not_worse_if_marked_for_deleveraging :
      Obligation → Fraction → Fraction → Fraction → Result (Unit {0})
  check_ltv_not_worse_if_marked_for_deleveraging o initial_ltv debt_value deposited_value =
      if is_marked_for_deleveraging o
      then (do
        resulting_ltv ← div debt_value deposited_value
        guard (not (ltb initial_ltv resulting_ltv)) LendingError.worse_ltv_blocked)
      else ok tt

  -- The obligation, the reserves and the referrers' states.
  unfoldable pub request_elevation_group :
      DeriveAddress
      → Obligation
      → LendingMarket
      → ℕ
      → ℕ
      → List Pubkey
      → List Pubkey
      → Accounts
      → List Pubkey
      → (Pubkey → ReferrerTokenState)
      → Result (Obligation × Accounts × (Pubkey → ReferrerTokenState))
  unfolding check_obligation_fully_refreshed_and_not_null reset_elevation_group_debts
      check_entered_group refresh_obligation_borrows refresh_obligation_deposits
      check_ltv_not_worse_if_marked_for_deleveraging check_elevation_group_borrow_limit_constraints
  request_elevation_group derive o market slot new_elevation_group deposit_keys borrow_keys accounts
        state_keys states =
      do
        check_obligation_fully_refreshed_and_not_null o slot
        guard (not (o.elevation_group == new_elevation_group))
            LendingError.elevation_group_already_activated
        initial_ltv ← loan_to_value o
        old_group ← get_elevation_group o.elevation_group market
        reset ← reset_elevation_group_debts o old_group deposit_keys borrow_keys accounts
        group ← get_elevation_group new_elevation_group market
        check_entered_group group
        borrows ←
            refresh_obligation_borrows derive reset.0 market slot group borrow_keys reset.1
              state_keys states
        deposits ←
            refresh_obligation_deposits borrows.0 market slot MaxReservesAsCollateralCheck.perform
              group deposit_keys borrows.1.borrowed_amount_in_elevation_group borrows.2.accounts
        let debt_value = borrows.1.borrow_factor_adjusted_debt_value_f
        guard (not (ltb deposits.1.allowed_borrow_value_f debt_value))
            LendingError.unhealthy_elevation_group_ltv
        check_ltv_not_worse_if_marked_for_deleveraging deposits.0 initial_ltv debt_value
            deposits.1.deposited_value_f
        let o' = stale_obligation (record deposits.0 {
          elevation_group = new_elevation_group;
          borrowing_disabled = if deposits.1.borrowing_disabled then 1 else 0;
        })
        check_elevation_group_borrow_limit_constraints o' group deposit_keys borrow_keys deposits.2
        ok (o', deposits.2, borrows.2.states)
