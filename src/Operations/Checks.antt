-- ===== src/Operations/Checks.antt =====
-- The checks that operations start from (the module `utils` of lending_operations.rs), and the
-- freshness that each asks for.
use kamino_lending.Base.{
  LendingError, Option, Result, contains, guard, ltb, none, not, ok, some, ℕ, ◌&&◌, ◌==◌, ◌>>=◌,
  ◌>>◌,
}
use kamino_lending.LastUpdate.{LastUpdate, all_checks, is_stale, liquidation_checks, no_checks}
use kamino_lending.Reserve.{Pubkey, Reserve}
use kamino_lending.LendingMarket.{
  ElevationGroup, LendingMarket, elevation_group_none, get_elevation_group, new_loans_disabled,
  program_version,
}
use kamino_lending.Obligation.{
  Obligation, ObligationCollateral, ObligationLiquidity, active_deposits_empty,
}

-- `if last_update.is_stale(slot, flags)? { return err!(..) }`
unfoldable pub require_fresh : LastUpdate → ℕ → ℕ → LendingError → Result (Unit {0})
require_fresh u slot min_price_status code = do
  stale ← is_stale u slot min_price_status
  guard (not stale) code

-- `MaxReservesAsCollateralCheck` (state/types.rs)
pub data MaxReservesAsCollateralCheck : Type 0 where
  perform skip : MaxReservesAsCollateralCheck

unfoldable pub check_obligation_collateral_deposit_reserve :
    ObligationCollateral → Reserve → Pubkey → ℕ → Result (Unit {0})
unfolding require_fresh
check_obligation_collateral_deposit_reserve t r key slot = do
  guard (t.deposit_reserve == key) LendingError.invalid_account_input
  require_fresh r.last_update slot no_checks LendingError.reserve_stale
  guard (r.version == program_version) LendingError.reserve_deprecated

unfoldable pub check_obligation_liquidity_borrow_reserve :
    ObligationLiquidity → Reserve → Pubkey → ℕ → Result (Unit {0})
unfolding require_fresh
check_obligation_liquidity_borrow_reserve t r key slot = do
  guard (t.borrow_reserve == key) LendingError.invalid_account_input
  require_fresh r.last_update slot no_checks LendingError.reserve_stale
  guard (r.version == program_version) LendingError.reserve_deprecated

unfoldable pub check_elevation_group_borrowing_enabled :
    LendingMarket → Obligation → Result (Unit {0})
check_elevation_group_borrowing_enabled market o =
    get_elevation_group o.elevation_group market >>= λ group. elim group [
      | none ↦ ok tt
      | some g ↦ guard (not (new_loans_disabled g)) LendingError.elevation_group_new_loans_disabled
    ]

unfoldable pub check_non_elevation_group_borrowing_enabled : Obligation → Result (Unit {0})
check_non_elevation_group_borrowing_enabled o =
    guard (not (o.elevation_group == elevation_group_none && ltb 0 o.borrowing_disabled))
      LendingError.borrowing_disabled_outside_elevation_group

unfoldable pub check_same_elevation_group : Obligation → Reserve → Result (Unit {0})
check_same_elevation_group o r =
    guard
      (not (
        not (o.elevation_group == elevation_group_none)
        && not (contains r.config.elevation_groups o.elevation_group)))
      LendingError.inconsistent_elevation_group

unfoldable pub get_max_ltv_and_liquidation_threshold : Reserve → Option ElevationGroup → ℕ × ℕ
get_max_ltv_and_liquidation_threshold r none =
    (r.config.loan_to_value_pct, r.config.liquidation_threshold_pct)
get_max_ltv_and_liquidation_threshold r (some g) = (g.ltv_pct, g.liquidation_threshold_pct)

unfoldable pub check_obligation_fully_refreshed_and_not_null : Obligation → ℕ → Result (Unit {0})
unfolding require_fresh
check_obligation_fully_refreshed_and_not_null o slot = do
  require_fresh o.last_update slot all_checks LendingError.obligation_stale
  guard (not (active_deposits_empty o)) LendingError.obligation_deposits_empty
  guard (not (o.deposited_value_sf == 0)) LendingError.obligation_deposits_zero

unfoldable pub assert_obligation_liquidatable :
    Reserve → Reserve → Obligation → ℕ → ℕ → Result (Unit {0})
unfolding require_fresh
assert_obligation_liquidatable repay_reserve withdraw_reserve o liquidity_amount slot = do
  guard (not (liquidity_amount == 0)) LendingError.invalid_amount
  require_fresh repay_reserve.last_update slot liquidation_checks LendingError.reserve_stale
  require_fresh withdraw_reserve.last_update slot liquidation_checks LendingError.reserve_stale
  require_fresh o.last_update slot liquidation_checks LendingError.obligation_stale
  guard (not (o.deposited_value_sf == 0)) LendingError.obligation_deposits_zero
  guard (not (o.borrow_factor_adjusted_debt_value_sf == 0)) LendingError.obligation_borrows_zero
