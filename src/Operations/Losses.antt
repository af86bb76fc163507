-- ===== src/Operations/Losses.antt =====
-- Losses that the depositors bear, and the marks for deleveraging (lending_operations.rs).
use kamino_lending.Operations.Accounts.{Accounts, at, put}
use kamino_lending.Operations.Checks.{require_fresh}
use kamino_lending.Operations.Trackers.{update_elevation_group_debt_trackers_on_repay}
use kamino_lending.Operations.Pool.{marked_stale}
use kamino_lending.Operations.Loans.{stale_obligation}
use kamino_lending.Base.{
  LendingError, List, Result, guard, if◌then◌else◌, leb, ltb, min, not, ok, u64_max, u8_max, ℕ,
  ◌&&◌, ◌==◌, ◌>>=◌, ◌>>◌,
}
use kamino_lending.Crates.{Crates}
use kamino_lending.Fraction.{Fraction, to_ceil}
use kamino_lending.LastUpdate.{all_checks}
use kamino_lending.Reserve.{Pubkey, Reserve, forgive_debt, total_supply}
use kamino_lending.LendingMarket.{LendingMarket}
use kamino_lending.Obligation.{
  Obligation, active_borrows_empty, active_deposits_empty, check_not_marked_for_deleveraging,
  find_liquidity_in_borrows, is_marked_for_deleveraging, mark_for_deleveraging, repay_borrow,
  unmark_for_deleveraging, update_has_debt,
}
use kamino_lending.Orders.{remove_all_orders}

-- NO_DELEVERAGING_MARKER (utils/consts.rs)
abbrev pub no_deleveraging_marker : ℕ
no_deleveraging_marker = u8_max

-- An obligation without debt has no orders.
unfoldable pub drop_orders_without_debt : Obligation → Obligation
drop_orders_without_debt o = if o.has_debt == 1 then o else (remove_all_orders o).0

module _ ⦃c : Crates⦄ where
  open c use {from_num}

  -- A reserve whose whole supply is forgiven becomes deprecated.
  unfoldable pub deprecate_if_lost : Reserve → Fraction → Result Reserve
  deprecate_if_lost r forgive_amount_f = do
    supply ← total_supply r.liquidity
    ok (if leb supply forgive_amount_f then record r { version = u64_max } else r)

  -- The accounts, the obligation and the amount that is forgiven.
  unfoldable pub socialize_loss :
      Accounts
      → Pubkey
      → Obligation
      → ℕ
      → ℕ
      → List Pubkey
      → Result (Accounts × Obligation × Fraction)
  unfolding require_fresh deprecate_if_lost update_elevation_group_debt_trackers_on_repay
      drop_orders_without_debt
  socialize_loss accounts key o liquidity_amount slot deposit_keys = do
    let r = accounts key
    require_fresh r.last_update slot all_checks LendingError.reserve_stale
    require_fresh o.last_update slot all_checks LendingError.obligation_stale
    guard (active_deposits_empty o) LendingError.cannot_socialize_obligation_with_collateral
    guard (not (active_deposits_empty o && active_borrows_empty o)) LendingError.obligation_empty
    i ← find_liquidity_in_borrows o key
    t ← at o.borrows i
    amount_f ← from_num liquidity_amount
    let forgive_amount_f = min amount_f t.borrowed_amount_sf
    r₁ ← deprecate_if_lost r forgive_amount_f
    forgive_amount ← to_ceil u64_max forgive_amount_f
    tracked ←
        update_elevation_group_debt_trackers_on_repay forgive_amount o i key r₁ deposit_keys
          accounts
    liquidity ← forgive_debt tracked.1.liquidity forgive_amount_f
    repaid ← repay_borrow tracked.0 forgive_amount_f i
    ok (
      put tracked.2 key (marked_stale (record tracked.1 { liquidity = liquidity })),
      stale_obligation (drop_orders_without_debt (update_has_debt repaid)),
      forgive_amount_f,
    )

unfoldable pub mark_obligation_for_deleveraging :
    LendingMarket → Obligation → ℕ → ℕ → Result Obligation
mark_obligation_for_deleveraging market o autodeleverage_target_ltv_pct timestamp =
    if autodeleverage_target_ltv_pct == no_deleveraging_marker
    then ok (if is_marked_for_deleveraging o then unmark_for_deleveraging o else o)
    else (do
      guard (not (ltb 100 autodeleverage_target_ltv_pct)) LendingError.invalid_config
      check_not_marked_for_deleveraging o
      guard (not (market.individual_autodeleverage_margin_call_period_secs == 0))
          LendingError.invalid_config
      mark_for_deleveraging o timestamp autodeleverage_target_ltv_pct)
