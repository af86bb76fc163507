-- ===== src/Operations/Pledges.antt =====
-- Depositing collateral in an obligation and withdrawing it (lending_operations.rs).
use kamino_lending.Operations.Loans.{stale_obligation}
use kamino_lending.Operations.Accounts.{at}
use kamino_lending.Operations.Checks.{
  MaxReservesAsCollateralCheck, check_elevation_group_borrowing_enabled, check_same_elevation_group,
  get_max_ltv_and_liquidation_threshold, require_fresh,
}
use kamino_lending.Operations.Values.{
  post_deposit_obligation_invariants, post_withdraw_obligation_invariants,
}
use kamino_lending.Operations.Trackers.{
  update_elevation_group_debt_trackers_on_full_withdraw,
  update_elevation_group_debt_trackers_on_new_deposit,
}
use kamino_lending.Operations.Tiers.{validate_obligation_asset_tiers}
use kamino_lending.Operations.Pool.{marked_stale}
use kamino_lending.Base.{
  Bool, LendingError, Option, Result, false, guard, if◌then◌else◌, leb, ltb, min, not, ok, set,
  true, u64_max, ℕ, ◌&&◌, ◌==◌, ◌>>=◌, ◌>>◌,
}
use kamino_lending.Crates.{Crates}
use kamino_lending.Fraction.{Fraction, div_ceil, to_floor}
use kamino_lending.LastUpdate.{all_checks, no_checks}
use kamino_lending.Reserve.{
  Pubkey, Reserve, ReserveStatus, collateral_exchange_rate, fraction_collateral_to_liquidity,
  get_asset_tier, get_status,
}
use kamino_lending.LendingMarket.{
  ElevationGroup, LendingMarket, elevation_group_none, get_elevation_group,
}
use kamino_lending.Obligation.{
  LtvMaxWithdrawalCheck, Obligation, ObligationCollateral, WithdrawResult, active_borrows_empty,
  active_deposits_count, check_not_marked_for_deleveraging, deposit_entry,
  find_or_add_collateral_to_deposits, get_borrowed_amount_if_single_token, has_obsolete_reserves,
  max_withdraw_value, position_of_collateral_in_deposits, withdraw_collateral,
}
use kamino_lending.Orders.{check_orders_supported_after_user_operation}

module _ ⦃c : Crates⦄ where
  open c use {mul, mul_int, div, from_num}

  -- The entry is found or added; a new one is counted by the trackers. The obligation, the index,
  -- and the reserve.
  unfoldable pub open_pledge :
      Obligation
      → Reserve
      → Pubkey
      → Option ElevationGroup
      → MaxReservesAsCollateralCheck
      → Result (Obligation × ℕ × Reserve)
  unfolding update_elevation_group_debt_trackers_on_new_deposit
  open_pledge o r key group check = do
    let pre_deposit_count = active_deposits_count o
    total_borrowed ← get_borrowed_amount_if_single_token o
    tier ← get_asset_tier r.config
    entry ← find_or_add_collateral_to_deposits o key tier
    t ← at entry.0.deposits entry.1
    tracked ←
        (if entry.2
          then update_elevation_group_debt_trackers_on_new_deposit total_borrowed t
              pre_deposit_count group key r check
          else ok (t, r))
    ok (record entry.0 { deposits = set entry.0.deposits entry.1 tracked.0 }, entry.1, tracked.1)

  -- The guards of `deposit_obligation_collateral`: the group of the obligation.
  unfoldable pub check_deposit :
      LendingMarket → Reserve → Obligation → ℕ → ℕ → Result (Option ElevationGroup)
  unfolding require_fresh check_same_elevation_group get_max_ltv_and_liquidation_threshold
  check_deposit market r o slot collateral_amount = do
    guard (not (collateral_amount == 0)) LendingError.invalid_amount
    require_fresh r.last_update slot no_checks LendingError.reserve_stale
    require_fresh o.last_update slot no_checks LendingError.obligation_stale
    guard
        (not (
          ltb 0 r.config.disable_usage_as_coll_outside_emode
          && o.elevation_group == elevation_group_none
          && ltb 0 o.borrow_factor_adjusted_debt_value_sf))
        LendingError.deposit_disabled_outside_elevation_group
    check_same_elevation_group o r
    group ← get_elevation_group o.elevation_group market
    (if (get_max_ltv_and_liquidation_threshold r group).1 == 0
        then check_not_marked_for_deleveraging o
        else ok tt)
    ok group

  unfoldable pub deposit_obligation_collateral :
      LendingMarket
      → Reserve
      → Obligation
      → ℕ
      → ℕ
      → Pubkey
      → MaxReservesAsCollateralCheck
      → Result (Reserve × Obligation)
  unfolding check_deposit open_pledge validate_obligation_asset_tiers
      post_deposit_obligation_invariants
  deposit_obligation_collateral market r o slot collateral_amount key check = do
    group ← check_deposit market r o slot collateral_amount
    opened ← open_pledge o r key group check
    t ← at opened.0.deposits opened.1
    t' ← deposit_entry t collateral_amount
    let o₁ = record opened.0 { deposits = set opened.0.deposits opened.1 t' }
    check_orders_supported_after_user_operation o₁
    let o₂ = stale_obligation o₁
    let r' = marked_stale opened.2
    validate_obligation_asset_tiers o₂
    rate ← collateral_exchange_rate r'
    amount_f ← from_num collateral_amount
    liquidity_amount ← fraction_collateral_to_liquidity rate amount_f
    post_deposit_obligation_invariants liquidity_amount o₂ r' t'.market_value_sf
        market.min_net_value_in_obligation_sf
    ok (r', o₂)

  -- As much as the limit allows, for `u64::MAX`.
  unfoldable pub withdraw_most : ObligationCollateral → Fraction → Result ℕ
  withdraw_most t max_withdraw_value = do
    ratio ← div (min max_withdraw_value t.market_value_sf) t.market_value_sf
    amount_f ← mul_int ratio t.deposited_amount
    amount ← to_floor u64_max amount_f
    ok (min t.deposited_amount amount)

  abbrev exceeds : LtvMaxWithdrawalCheck → Fraction → Fraction → Bool
  exceeds LtvMaxWithdrawalCheck.liquidation_threshold most value = leb most value
  exceeds LtvMaxWithdrawalCheck.max_ltv most value = ltb most value

  -- The amount that is asked for, where its value is within the limit.
  unfoldable pub withdraw_exactly :
      ObligationCollateral → ℕ → Fraction → LtvMaxWithdrawalCheck → Result ℕ
  withdraw_exactly t collateral_amount max_withdraw_value check = do
    let amount = min collateral_amount t.deposited_amount
    amount_f ← from_num amount
    deposited_f ← from_num t.deposited_amount
    ratio ← div_ceil amount_f deposited_f
    value ← mul t.market_value_sf ratio
    guard (not (exceeds check max_withdraw_value value)) LendingError.withdraw_too_large
    ok amount

  -- The amount of a withdrawal from an obligation with debt.
  unfoldable pub withdraw_against_debt :
      Obligation → ObligationCollateral → ℕ → ℕ → ℕ → LtvMaxWithdrawalCheck → Result ℕ
  unfolding withdraw_most withdraw_exactly
  withdraw_against_debt o t collateral_amount max_ltv_pct threshold_pct check = do
    guard (not (o.deposited_value_sf == 0)) LendingError.obligation_deposits_zero
    most ← max_withdraw_value o t max_ltv_pct threshold_pct check
    guard (not (most == 0)) LendingError.maximum_withdraw_value_zero
    amount ←
        (if collateral_amount == u64_max
          then withdraw_most t most
          else withdraw_exactly t collateral_amount most check)
    guard (not (amount == 0)) LendingError.withdraw_too_small
    ok amount

  -- Without debt the deposit is the only limit.
  unfoldable pub withdraw_freely : ObligationCollateral → ℕ → ℕ
  withdraw_freely t collateral_amount =
      if collateral_amount == u64_max
      then t.deposited_amount
      else min t.deposited_amount collateral_amount

  abbrev pub is_status_active : ReserveStatus → Bool
  is_status_active ReserveStatus.active = true
  is_status_active ReserveStatus.obsolete = false
  is_status_active ReserveStatus.hidden = false

  -- The guards of `withdraw_obligation_collateral`, and the index of the deposit.
  unfoldable pub check_withdraw : LendingMarket → Reserve → Obligation → ℕ → ℕ → Pubkey → Result ℕ
  unfolding require_fresh check_elevation_group_borrowing_enabled
  check_withdraw market r o collateral_amount slot key = do
    guard (not (collateral_amount == 0)) LendingError.invalid_amount
    let required = if active_borrows_empty o then no_checks else all_checks
    require_fresh r.last_update slot required LendingError.reserve_stale
    require_fresh o.last_update slot required LendingError.obligation_stale
    i ← position_of_collateral_in_deposits o key
    t ← at o.deposits i
    guard (not (t.deposited_amount == 0)) LendingError.obligation_collateral_empty
    (if active_borrows_empty o then ok tt else check_elevation_group_borrowing_enabled market o)
    (if has_obsolete_reserves o
        then (get_status r.config >>= λ status.
            guard (not (is_status_active status)) LendingError.obligation_in_obsolete_reserve)
        else ok tt)
    ok i

  abbrev is_full : WithdrawResult → Bool
  is_full WithdrawResult.full = true
  is_full WithdrawResult.partial = false

  unfoldable pub withdraw_obligation_collateral :
      LendingMarket
      → Reserve
      → Obligation
      → ℕ
      → ℕ
      → Pubkey
      → LtvMaxWithdrawalCheck
      → Result (Reserve × Obligation × ℕ)
  unfolding check_withdraw withdraw_freely withdraw_against_debt
      get_max_ltv_and_liquidation_threshold update_elevation_group_debt_trackers_on_full_withdraw
      post_withdraw_obligation_invariants
  withdraw_obligation_collateral market r o collateral_amount slot key check = do
    i ← check_withdraw market r o collateral_amount slot key
    t ← at o.deposits i
    group ← get_elevation_group o.elevation_group market
    let ltvs = get_max_ltv_and_liquidation_threshold r group
    amount ←
        (if active_borrows_empty o
          then ok (withdraw_freely t collateral_amount)
          else withdraw_against_debt o t collateral_amount ltvs.0 ltvs.1 check)
    withdrawn ← withdraw_collateral o amount i
    let o' = stale_obligation withdrawn.0
    r' ←
        (if is_full withdrawn.1
          then update_elevation_group_debt_trackers_on_full_withdraw
              t.borrowed_amount_against_this_collateral_in_elevation_group o'.elevation_group r
          else ok r)
    rate ← collateral_exchange_rate r'
    amount_f ← from_num amount
    liquidity_amount ← fraction_collateral_to_liquidity rate amount_f
    t' ← at o'.deposits i
    post_withdraw_obligation_invariants liquidity_amount o' r' ltvs.1 t'.market_value_sf
        market.min_net_value_in_obligation_sf
    ok (r', o', amount)
