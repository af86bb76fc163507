-- ===== src/Operations/Trackers.antt =====
-- The trackers of the debt in and outside elevation groups (the module `utils` of
-- lending_operations.rs): what a reserve counts as borrowed against it by each group, what each
-- deposit counts of that, and what a reserve and a borrow count outside the groups.
use kamino_lending.Operations.Accounts.{
  Accounts, DepositStep, at, for_active_deposits, get_mut, put, require_keys_eq,
}
use kamino_lending.Operations.Checks.{MaxReservesAsCollateralCheck}
use kamino_lending.Base.{
  LendingError, List, Option, Result, guard, if◌then◌else◌, leb, none, not, ok, ok_or, set, some,
  u64_max, ℕ, ◌+◌, ◌-◌, ◌==◌, ◌>>=◌, ◌>>◌,
}
use kamino_lending.Crates.{checked, checked_add_int}
use kamino_lending.Reserve.{Pubkey, Reserve}
use kamino_lending.LendingMarket.{ElevationGroup, elevation_group_none, get_index}
use kamino_lending.Obligation.{Obligation, ObligationCollateral}

abbrev pub with_group_debt : Reserve → ℕ → ℕ → Reserve
with_group_debt r i n = record r {
  borrowed_amounts_against_this_reserve_in_elevation_groups =
      set r.borrowed_amounts_against_this_reserve_in_elevation_groups i n;
}

abbrev pub with_tracked_debt : ObligationCollateral → ℕ → ObligationCollateral
with_tracked_debt t n = record t { borrowed_amount_against_this_collateral_in_elevation_group = n }

-- One round of the loop on a borrow in the group of index `i`.
unfoldable pub track_borrow : ℕ → ℕ → Pubkey → DepositStep
track_borrow amount i held t key accounts = do
  require_keys_eq key t.deposit_reserve
  r ← get_mut accounts held key
  debt_limit ← at r.config.borrow_limit_against_this_collateral_in_elevation_group i
  prev ← at r.borrowed_amounts_against_this_reserve_in_elevation_groups i
  new ←
      ok_or (checked_add_int u64_max prev amount) LendingError.elevation_group_borrow_limit_exceeded
  guard (leb new debt_limit) LendingError.elevation_group_borrow_limit_exceeded
  tracked ← checked u64_max (t.borrowed_amount_against_this_collateral_in_elevation_group + amount)
  ok (with_tracked_debt t tracked, put accounts key (with_group_debt r i new))

-- A borrow outside the groups is counted by the reserve and by the entry at the index.
unfoldable pub track_borrow_outside : ℕ → Obligation → ℕ → Reserve → Result (Obligation × Reserve)
track_borrow_outside amount o borrow_index r = do
  new_total ←
      ok_or (checked_add_int u64_max r.borrowed_amount_outside_elevation_group amount)
        LendingError.math_overflow
  guard (leb new_total r.config.borrow_limit_outside_elevation_group)
      LendingError.borrow_limit_exceeded
  t ← at o.borrows borrow_index
  tracked ← checked u64_max (t.borrowed_amount_outside_elevation_groups + amount)
  ok (
    record o {
      borrows =
          set o.borrows borrow_index
            (record t { borrowed_amount_outside_elevation_groups = tracked });
    },
    record r { borrowed_amount_outside_elevation_group = new_total },
  )

unfoldable pub update_elevation_group_debt_trackers_on_borrow :
    ℕ
    → Obligation
    → ℕ
    → Option ElevationGroup
    → Pubkey
    → Reserve
    → List Pubkey
    → Accounts
    → Result (Obligation × Reserve × Accounts)
unfolding track_borrow track_borrow_outside for_active_deposits get_index
update_elevation_group_debt_trackers_on_borrow amount o borrow_index (some g) key r deposit_keys
      accounts =
    do
      i ← get_index g
      guard (g.debt_reserve == key) LendingError.elevation_group_has_another_debt_reserve
      tracked ← for_active_deposits (track_borrow amount i key) o.deposits deposit_keys accounts
      ok (record o { deposits = tracked.0 }, r, tracked.2)
update_elevation_group_debt_trackers_on_borrow amount o borrow_index none key r deposit_keys
      accounts =
    do tracked ← track_borrow_outside amount o borrow_index r; ok (tracked.0, tracked.1, accounts)

-- One round of the loop on a repayment.
unfoldable pub track_repay : ℕ → ℕ → Pubkey → DepositStep
track_repay amount i held t key accounts = do
  require_keys_eq key t.deposit_reserve
  r ← get_mut accounts held key
  debt_limit ← at r.config.borrow_limit_against_this_collateral_in_elevation_group i
  pre ← at r.borrowed_amounts_against_this_reserve_in_elevation_groups i
  ok (
    with_tracked_debt t (t.borrowed_amount_against_this_collateral_in_elevation_group - amount),
    put accounts key (with_group_debt r i (pre - amount)),
  )

unfoldable pub track_repay_outside : ℕ → Obligation → ℕ → Reserve → Result (Obligation × Reserve)
track_repay_outside amount o borrow_index r = do
  t ← at o.borrows borrow_index
  ok (
    record o {
      borrows = set o.borrows borrow_index (record t {
        borrowed_amount_outside_elevation_groups =
            t.borrowed_amount_outside_elevation_groups - amount;
      });
    },
    record r {
      borrowed_amount_outside_elevation_group = r.borrowed_amount_outside_elevation_group - amount;
    },
  )

unfoldable pub update_elevation_group_debt_trackers_on_repay :
    ℕ
    → Obligation
    → ℕ
    → Pubkey
    → Reserve
    → List Pubkey
    → Accounts
    → Result (Obligation × Reserve × Accounts)
unfolding track_repay track_repay_outside for_active_deposits
update_elevation_group_debt_trackers_on_repay amount o borrow_index key r deposit_keys accounts =
    if not (o.elevation_group == elevation_group_none)
    then (do
      tracked ←
          for_active_deposits (track_repay amount (o.elevation_group - 1) key) o.deposits
            deposit_keys accounts
      ok (record o { deposits = tracked.0 }, r, tracked.2))
    else (do
      tracked ← track_repay_outside amount o borrow_index r
      ok (tracked.0, tracked.1, accounts))

-- `require_gte!(max, count + 1)`, unless the check is skipped.
unfoldable pub check_new_deposit_count :
    MaxReservesAsCollateralCheck → ElevationGroup → ℕ → Result (Unit {0})
check_new_deposit_count MaxReservesAsCollateralCheck.perform g pre_deposit_count =
    guard (leb (pre_deposit_count + 1) g.max_reserves_as_collateral)
      LendingError.obligation_collateral_exceeds_elevation_group_limit
check_new_deposit_count MaxReservesAsCollateralCheck.skip g pre_deposit_count = ok tt

unfoldable pub update_elevation_group_debt_trackers_on_new_deposit :
    Option ℕ
    → ObligationCollateral
    → ℕ
    → Option ElevationGroup
    → Pubkey
    → Reserve
    → MaxReservesAsCollateralCheck
    → Result (ObligationCollateral × Reserve)
unfolding check_new_deposit_count get_index
update_elevation_group_debt_trackers_on_new_deposit total_borrowed t pre_deposit_count none key r
      check =
    ok (t, r)
update_elevation_group_debt_trackers_on_new_deposit total_borrowed t pre_deposit_count (some g) key
      r check =
    do
      guard (not (g.debt_reserve == key)) LendingError.elevation_group_debt_reserve_as_collateral
      check_new_deposit_count check g pre_deposit_count
      i ← get_index g
      total ← ok_or total_borrowed LendingError.obligation_elevation_group_multiple_debt_reserve
      pre ← at r.borrowed_amounts_against_this_reserve_in_elevation_groups i
      new ← checked u64_max (pre + total)
      ok (with_tracked_debt t total, with_group_debt r i new)

unfoldable pub update_elevation_group_debt_trackers_on_full_withdraw :
    ℕ → ℕ → Reserve → Result Reserve
update_elevation_group_debt_trackers_on_full_withdraw previous_debt elevation_group_id r =
    if not (elevation_group_id == elevation_group_none)
    then (do
      let i = elevation_group_id - 1
      pre ← at r.borrowed_amounts_against_this_reserve_in_elevation_groups i
      ok (with_group_debt r i (pre - previous_debt)))
    else ok r
