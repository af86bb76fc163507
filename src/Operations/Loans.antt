-- ===== src/Operations/Loans.antt =====
-- Borrowing from a reserve and repaying to it (lending_operations.rs). The reserve is loaded from the
-- accounts and written back; it is held while the deposits' reserves are loaded.
use kamino_lending.Operations.Accounts.{Accounts, Clock, at, put, timestamp_of}
use kamino_lending.Operations.Checks.{
  check_elevation_group_borrowing_enabled, check_non_elevation_group_borrowing_enabled,
  check_obligation_fully_refreshed_and_not_null, check_same_elevation_group, require_fresh,
}
use kamino_lending.Operations.Values.{
  post_borrow_obligation_invariants, post_repay_obligation_invariants,
}
use kamino_lending.Operations.Trackers.{
  update_elevation_group_debt_trackers_on_borrow, update_elevation_group_debt_trackers_on_repay,
}
use kamino_lending.Operations.Tiers.{validate_obligation_asset_tiers}
use kamino_lending.Operations.Pool.{is_given, keep_referrer_fee, marked_stale, with_debt_cap}
use kamino_lending.Base.{
  LendingError, List, Option, Result, guard, leb, ltb, not, ok, set, u64_max, ℕ, ◌&&◌, ◌==◌, ◌>>=◌,
  ◌>>◌,
}
use kamino_lending.Crates.{Crates}
use kamino_lending.Fraction.{Fraction, from_percent, to_ceil}
use kamino_lending.LastUpdate.{all_checks, mark_stale, no_checks}
use kamino_lending.WithdrawalCap.{add_to_withdrawal_accum, sub_from_withdrawal_accum}
use kamino_lending.Reserve.{
  CalculateBorrowResult, CalculateRepayResult, Pubkey, ReferrerTokenState, Reserve, borrow,
  calculate_borrow, calculate_repay, get_asset_tier, repay, utilization_rate,
}
use kamino_lending.LendingMarket.{
  LendingMarket, elevation_group_at, elevation_group_none, is_borrowing_disabled,
}
use kamino_lending.Obligation.{
  Obligation, accrue_loan_interest, borrow_entry, check_not_marked_for_deleveraging,
  find_liquidity_in_borrows, find_or_add_liquidity_to_borrows, has_obsolete_reserves,
  remaining_borrow_value, repay_borrow, update_has_debt,
}
use kamino_lending.Orders.{check_orders_supported_after_user_operation}

pub record BorrowOutcome : Type 0 where
  pub accounts : Accounts
  pub obligation : Obligation
  pub referrer_token_state : Option ReferrerTokenState
  pub result : CalculateBorrowResult

pub record RepayOutcome : Type 0 where
  pub accounts : Accounts
  pub obligation : Obligation
  pub repay_amount : ℕ

abbrev pub stale_obligation : Obligation → Obligation
stale_obligation o = record o { last_update = mark_stale o.last_update }

module _ ⦃c : Crates⦄ where
  open c use {add, saturating_sub, from_num}

  -- The guards of `borrow_obligation_liquidity` on the reserve, the market and the obligation, in
  -- their order: what the obligation may still borrow, and what the reserve may still lend.
  unfoldable pub check_borrow :
      LendingMarket → Reserve → Obligation → ℕ → ℕ → Result (Fraction × Fraction)
  unfolding require_fresh check_obligation_fully_refreshed_and_not_null check_same_elevation_group
      check_elevation_group_borrowing_enabled check_non_elevation_group_borrowing_enabled
  check_borrow market r o liquidity_amount slot = do
    guard (not (liquidity_amount == 0)) LendingError.invalid_amount
    require_fresh r.last_update slot all_checks LendingError.reserve_stale
    guard (not (is_borrowing_disabled market)) LendingError.borrowing_disabled
    check_not_marked_for_deleveraging o
    guard (not (has_obsolete_reserves o)) LendingError.obligation_in_obsolete_reserve
    current_utilization ← utilization_rate r.liquidity
    liquidity_amount_f ← from_num liquidity_amount
    borrow_limit_f ← from_num r.config.borrow_limit
    new_borrowed_amount_f ← add liquidity_amount_f r.liquidity.borrowed_amount_sf
    guard (not (not (liquidity_amount == u64_max) && ltb borrow_limit_f new_borrowed_amount_f))
        LendingError.borrow_limit_exceeded
    check_obligation_fully_refreshed_and_not_null o slot
    guard (not (remaining_borrow_value o == 0)) LendingError.borrow_too_large
    check_same_elevation_group o r
    check_elevation_group_borrowing_enabled market o
    check_non_elevation_group_borrowing_enabled o
    let capacity = saturating_sub borrow_limit_f r.liquidity.borrowed_amount_sf
    guard (not (capacity == 0)) LendingError.borrow_limit_exceeded
    ok (remaining_borrow_value o, capacity)

  -- The debt is entered in the reserve and in the obligation: the reserve, the obligation and the
  -- index of its entry.
  unfoldable pub enter_debt :
      Reserve → Obligation → Pubkey → Fraction → Result (Reserve × Obligation × ℕ)
  enter_debt r o key borrow_amount_f = do
    liquidity ← borrow r.liquidity borrow_amount_f
    let r' = marked_stale (record r { liquidity = liquidity })
    tier ← get_asset_tier r.config
    entry ← find_or_add_liquidity_to_borrows o key liquidity.cumulative_borrow_rate_bsf tier
    t ← at entry.0.borrows entry.1
    t' ← borrow_entry t borrow_amount_f
    ok (r', record entry.0 { borrows = set entry.0.borrows entry.1 t' }, entry.1)

  unfoldable pub check_utilization_limit : Reserve → Result (Unit {0})
  check_utilization_limit r = do
    let limit = r.config.utilization_limit_block_borrowing_above_pct
    new_utilization_rate ← utilization_rate r.liquidity
    limit_f ← from_percent limit
    guard (not (leb limit_f new_utilization_rate && not (limit == 0)))
        LendingError.borrowing_above_utilization_rate_disabled

  -- The second half of `borrow_obligation_liquidity`: the debt and the fee are entered, and the checks
  -- on what they leave.
  unfoldable pub complete_borrow :
      LendingMarket
      → Accounts
      → Obligation
      → Reserve
      → Pubkey
      → Option ReferrerTokenState
      → List Pubkey
      → CalculateBorrowResult
      → ℕ
      → Result BorrowOutcome
  unfolding enter_debt keep_referrer_fee check_utilization_limit validate_obligation_asset_tiers
      update_elevation_group_debt_trackers_on_borrow post_borrow_obligation_invariants
  complete_borrow market accounts o r key state deposit_keys result borrow_amount = do
    entered ← enter_debt r o key result.borrow_amount_f
    kept ← keep_referrer_fee market entered.0 state result.referrer_fee
    check_orders_supported_after_user_operation entered.1
    let o₁ = stale_obligation (record entered.1 { has_debt = 1 })
    check_utilization_limit kept.0
    validate_obligation_asset_tiers o₁
    group ← elevation_group_at market o₁.elevation_group
    tracked ←
        update_elevation_group_debt_trackers_on_borrow borrow_amount o₁ entered.2 group key kept.0
          deposit_keys accounts
    t ← at tracked.0.borrows entered.2
    post_borrow_obligation_invariants result.borrow_amount_f tracked.0 tracked.1 t.market_value_sf
        market.min_net_value_in_obligation_sf
    ok (record {
      accounts = put tracked.2 key tracked.1;
      obligation = tracked.0;
      referrer_token_state = kept.1;
      result = result;
    })

  unfoldable pub borrow_obligation_liquidity :
      LendingMarket
      → Accounts
      → Obligation
      → ℕ
      → Clock
      → Pubkey
      → Option ReferrerTokenState
      → List Pubkey
      → Result BorrowOutcome
  unfolding check_borrow complete_borrow
  borrow_obligation_liquidity market accounts o liquidity_amount clock key state deposit_keys = do
    let r = accounts key
    limits ← check_borrow market r o liquidity_amount clock.slot
    result ←
        calculate_borrow r liquidity_amount limits.0 limits.1 market.referral_fee_bps
          (not (o.elevation_group == elevation_group_none)) (is_given state)
    borrow_amount ← to_ceil u64_max result.borrow_amount_f
    ts ← timestamp_of clock.unix_timestamp
    caps ← add_to_withdrawal_accum r.config.debt_withdrawal_cap borrow_amount ts
    guard (not (result.receive_amount == 0)) LendingError.borrow_too_small
    complete_borrow market accounts o (with_debt_cap r caps) key state deposit_keys result
        borrow_amount

  -- The entry of the obligation, with interest up to now, and the terms of the repayment.
  unfoldable pub repay_terms :
      Reserve → Obligation → ℕ → Pubkey → Result (Obligation × ℕ × CalculateRepayResult)
  repay_terms r o liquidity_amount key = do
    i ← find_liquidity_in_borrows o key
    t ← at o.borrows i
    guard (not (t.borrowed_amount_sf == 0)) LendingError.obligation_liquidity_empty
    accrued ← accrue_loan_interest t r.liquidity.cumulative_borrow_rate_bsf
    terms ← calculate_repay liquidity_amount accrued.borrowed_amount_sf
    guard (not (terms.repay_amount == 0)) LendingError.repay_too_small
    ok (record o { borrows = set o.borrows i accrued }, i, terms)

  -- The debt is taken from the reserve and from the obligation.
  unfoldable pub settle_debt :
      Reserve → Obligation → ℕ → ℕ → Fraction → Result (Reserve × Obligation)
  settle_debt r o i repay_amount settle_amount = do
    liquidity ← repay r.liquidity repay_amount settle_amount
    repaid ← repay_borrow o settle_amount i
    ok (
      marked_stale (record r { liquidity = liquidity }),
      stale_obligation (update_has_debt repaid),
    )

  unfoldable pub repay_obligation_liquidity :
      LendingMarket → Accounts → Obligation → Clock → ℕ → Pubkey → List Pubkey → Result RepayOutcome
  unfolding require_fresh repay_terms settle_debt update_elevation_group_debt_trackers_on_repay
      post_repay_obligation_invariants
  repay_obligation_liquidity market accounts o clock liquidity_amount key deposit_keys = do
    let r = accounts key
    guard (not (liquidity_amount == 0)) LendingError.invalid_amount
    require_fresh r.last_update clock.slot no_checks LendingError.reserve_stale
    require_fresh o.last_update clock.slot no_checks LendingError.obligation_stale
    found ← repay_terms r o liquidity_amount key
    let amount = found.2.repay_amount
    let settle = found.2.settle_amount
    ts ← timestamp_of clock.unix_timestamp
    caps ← sub_from_withdrawal_accum r.config.debt_withdrawal_cap amount ts
    tracked ←
        update_elevation_group_debt_trackers_on_repay amount found.0 found.1 key
          (with_debt_cap r caps) deposit_keys accounts
    settled ← settle_debt tracked.1 tracked.0 found.1 amount settle
    check_orders_supported_after_user_operation settled.1
    t ← at settled.1.borrows found.1
    post_repay_obligation_invariants settle settled.1 settled.0 t.market_value_sf
        market.min_net_value_in_obligation_sf
    ok (record {
      accounts = put tracked.2 key settled.0;
      obligation = settled.1;
      repay_amount = amount;
    })
