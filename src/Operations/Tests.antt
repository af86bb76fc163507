-- ===== src/Operations/Tests.antt =====
-- The operations on concrete accounts.
use kamino_lending.Orders.{check_orders_supported_after_user_operation}
use kamino_lending.LendingMarket.{get_elevation_group, is_borrowing_disabled}
use kamino_lending.BorrowRateCurve.{rate_between, find_segment, get_borrow_rate}
use kamino_lending.Fraction.{to_ceil, big_mul, from_percent, to_bps, to_round, from_bps, to_floor}
use kamino_lending.WithdrawalCap.{add_to_withdrawal_accum, sub_from_withdrawal_accum}
use kamino_lending.LastUpdate.{slots_elapsed, update_slot, mark_stale, is_stale}
use kamino_lending.Operations.Accounts.{Accounts, Clock}
use kamino_lending.Operations.Freshness.{stale_reserve_refused}
use kamino_lending.Operations.Pool.{
  redeem_reserve_fees, withdraw_reserve_referrer_fees, flash_borrow_reserve_liquidity,
  flash_repay_reserve_liquidity, deposit_reserve_liquidity, redeem_reserve_collateral,
  refresh_reserve,
}
use kamino_lending.Operations.Shares.{
  IsUndiluted, PoolStep-VaultStep, Reach, Reach-IsUndiluted, Vault, VaultStep, deposits, goes_on,
  redeems, refreshes, stays,
}
use kamino_lending.LastUpdate.{LastUpdate}
use kamino_lending.Crates.{one}
use kamino_lending.Operations.Effects.{deposit_reserve_liquidity_lem}
use kamino_lending.Operations.Health.{IsAllowed, IsHealthy, borrow_obligation_liquidity-IsHealthy}
use kamino_lending.Operations.Losses.{socialize_loss}
use kamino_lending.Operations.Forgiving.{socialize_loss_lem}
use kamino_lending.Operations.Pledges.{check_deposit, check_withdraw}
use kamino_lending.Operations.Checks.{assert_obligation_liquidatable}
use kamino_lending.Operations.Loans.{
  repay_obligation_liquidity, check_borrow, BorrowOutcome, borrow_obligation_liquidity,
}
use kamino_lending.Obligation.{
  active_borrows_empty, find_liquidity_in_borrows, repay_borrow, unhealthy_loan_to_value,
  active_borrows_count, get_opportunity_type, get_condition_type, borrow_entry,
  find_or_add_liquidity_to_borrows, remaining_borrow_value, active_deposits_empty,
  has_obsolete_reserves, check_not_marked_for_deleveraging, Obligation,
}
use kamino_lending.Obligation.Sample.{no_pledge, position_of_user}
use kamino_lending.Base.{
  LendingError, err, true, ◌∷◌, [], Option, some, ok, arith, false, ◌<◌, ◌≡◌, ◌≤◌, ◌+◌, ◌*◌, none,
  refl, replicate, u64_max, value_or, ℕ, ◌⊎◌,
}
use kamino_lending.Operations.Lending.{flash_repay-flash_borrow}
use kamino_lending.LendingMarket.Sample.{market}
use kamino_lending.Base.Int.{pos}
use kamino_lending.Crates.Exact.{exact, exact-IsExact}
use kamino_lending.Reserve.{
  forgive_debt, get_asset_tier, borrow_factor_f, calculate_borrow_fees, mint_factor, borrow_exactly,
  calculate_borrow, collateral_to_liquidity, redeem_collateral, approximate_compounded_interest,
  compound_interest, utilization_rate, current_borrow_rate, accrue_interest, borrow_limit_crossed,
  update_borrow_limit_crossed_timestamp, deposit_limit_crossed,
  update_deposit_limit_crossed_timestamp, repay, calculate_flash_loan_fees, borrow,
  deposit_liquidity, collateral_to_liquidity_ceil, liquidity_to_collateral,
  collateral_exchange_rate, compute_depositable_amount_and_minted_collateral, ReferrerTokenState,
  DepositLiquidityResult, Reserve, total_supply,
}
use kamino_lending.Reserve.Sample.{loan, pool, referrer, terms}

abbrev now : Clock
now = record { slot = 7; unix_timestamp = pos 1000 }

abbrev later : Clock
later = record { slot = 7; unix_timestamp = pos 1040 }

abbrev paid_in : Reserve × DepositLiquidityResult
paid_in = value_or (pool, terms) (deposit_reserve_liquidity pool now 100)

abbrev grown_pool : Reserve
grown_pool = value_or pool (refresh_reserve paid_in.0 later none 2000)

abbrev paid_out : Reserve × ℕ
paid_out = value_or (pool, 0) (redeem_reserve_collateral grown_pool 94 later false)

abbrev vault_of : Reserve → Vault
vault_of r = record {
  value = value_or 0 (total_supply r.liquidity);
  shares = r.collateral.mint_total_supply;
}

pool_run : deposit_reserve_liquidity pool now 100 ≡ ok paid_in
unfolding deposit_reserve_liquidity is_stale compute_depositable_amount_and_minted_collateral
    collateral_exchange_rate total_supply liquidity_to_collateral collateral_to_liquidity_ceil
    sub_from_withdrawal_accum deposit_liquidity
pool_run = refl

refresh_run : refresh_reserve paid_in.0 later none 2000 ≡ ok grown_pool
unfolding refresh_reserve accrue_interest slots_elapsed deposit_reserve_liquidity is_stale
    compute_depositable_amount_and_minted_collateral collateral_exchange_rate total_supply
    liquidity_to_collateral collateral_to_liquidity_ceil sub_from_withdrawal_accum deposit_liquidity
    mark_stale
refresh_run = refl

redeem_run : redeem_reserve_collateral grown_pool 94 later false ≡ ok paid_out
unfolding redeem_reserve_collateral is_stale refresh_reserve accrue_interest
    deposit_reserve_liquidity compute_depositable_amount_and_minted_collateral
    collateral_exchange_rate total_supply liquidity_to_collateral collateral_to_liquidity_ceil
    sub_from_withdrawal_accum deposit_liquidity mark_stale current_borrow_rate utilization_rate
    get_borrow_rate to_bps find_segment rate_between from_bps from_percent compound_interest
    approximate_compounded_interest big_mul update_slot redeem_collateral collateral_to_liquidity
    update_deposit_limit_crossed_timestamp deposit_limit_crossed
    update_borrow_limit_crossed_timestamp borrow_limit_crossed
redeem_run = refl

supplies :
    (total_supply pool.liquidity ≡ ok (vault_of pool).value)
    × (total_supply paid_in.0.liquidity ≡ ok (vault_of paid_in.0).value)
    × (total_supply grown_pool.liquidity ≡ ok (vault_of grown_pool).value)
    × (total_supply paid_out.0.liquidity ≡ ok (vault_of paid_out.0).value)
unfolding total_supply deposit_reserve_liquidity is_stale
    compute_depositable_amount_and_minted_collateral collateral_exchange_rate
    liquidity_to_collateral collateral_to_liquidity_ceil sub_from_withdrawal_accum deposit_liquidity
    refresh_reserve accrue_interest mark_stale current_borrow_rate utilization_rate get_borrow_rate
    to_bps find_segment rate_between from_bps from_percent compound_interest
    approximate_compounded_interest big_mul redeem_reserve_collateral update_slot redeem_collateral
    collateral_to_liquidity update_deposit_limit_crossed_timestamp deposit_limit_crossed
    update_borrow_limit_crossed_timestamp borrow_limit_crossed
supplies = (refl, refl, refl, refl)

positive : (n m : ℕ) → n ≡ m + 1 → 0 < n
positive n m e = omega arith

minted_shares : ((vault_of paid_in.0).shares ≡ 1493 + 1) × ((vault_of grown_pool).shares ≡ 1493 + 1)
unfolding deposit_reserve_liquidity refresh_reserve is_stale
    compute_depositable_amount_and_minted_collateral collateral_exchange_rate total_supply
    liquidity_to_collateral collateral_to_liquidity_ceil sub_from_withdrawal_accum deposit_liquidity
    accrue_interest mark_stale
minted_shares = (refl, refl)

shares_out :
    (0 < (vault_of pool).shares)
    × (0 < (vault_of paid_in.0).shares)
    × (0 < (vault_of grown_pool).shares)
shares_out = (
  positive (vault_of pool).shares 1399 refl,
  positive (vault_of paid_in.0).shares 1493 minted_shares.0,
  positive (vault_of grown_pool).shares 1493 minted_shares.1,
)

in_and_out : Reach pool (vault_of pool) paid_out.0 (vault_of paid_out.0)
unfolding deposit_reserve_liquidity is_stale compute_depositable_amount_and_minted_collateral
    collateral_exchange_rate total_supply liquidity_to_collateral collateral_to_liquidity_ceil
    sub_from_withdrawal_accum deposit_liquidity
in_and_out =
    goes_on {r = grown_pool} {b = vault_of grown_pool}
      (goes_on {r = paid_in.0} {b = vault_of paid_in.0}
        (goes_on {r = pool} {b = vault_of pool} stays shares_out.0
          (record { value_eq = supplies.0; shares_eq = refl })
          (deposits {r = pool} {r' = paid_in.0} now 100 paid_in.1 pool_run)
          (record { value_eq = supplies.1; shares_eq = refl }))
        shares_out.1 (record { value_eq = supplies.1; shares_eq = refl })
        (refreshes {r = paid_in.0} {r' = grown_pool} later none 2000 (omega arith) refresh_run)
        (record { value_eq = supplies.2; shares_eq = refl }))
      shares_out.2 (record { value_eq = supplies.2; shares_eq = refl })
      (redeems {r = grown_pool} {r' = paid_out.0} 94 paid_out.1 later false redeem_run)
      (record { value_eq = supplies.3; shares_eq = refl })

Reach-IsUndiluted_example : IsUndiluted (vault_of pool) (vault_of paid_out.0)
Reach-IsUndiluted_example = Reach-IsUndiluted exact-IsExact in_and_out

PoolStep-VaultStep_example : VaultStep (vault_of pool) (vault_of paid_in.0)
PoolStep-VaultStep_example =
    PoolStep-VaultStep exact-IsExact
      (deposits {r = pool} {r' = paid_in.0} now 100 paid_in.1 pool_run)
      (record { value_eq = supplies.0; shares_eq = refl }) shares_out.0
      (record { value_eq = supplies.1; shares_eq = refl })

abbrev lent : Reserve
lent = value_or pool (flash_borrow_reserve_liquidity pool 500)

abbrev returned : Reserve × Option ReferrerTokenState × ℕ × ℕ
returned =
    value_or (pool, none, 0, 0) (flash_repay_reserve_liquidity market lent 500 1000 (some referrer))

flash_run :
    (flash_borrow_reserve_liquidity pool 500 ≡ ok lent)
    × (flash_repay_reserve_liquidity market lent 500 1000 (some referrer) ≡ ok returned)
    × (total_supply lent.liquidity ≡ ok (vault_of lent).value)
    × (total_supply returned.0.liquidity ≡ ok (vault_of returned.0).value)
unfolding flash_borrow_reserve_liquidity flash_repay_reserve_liquidity total_supply borrow to_floor
    calculate_flash_loan_fees from_bps to_round repay update_deposit_limit_crossed_timestamp
    deposit_limit_crossed update_borrow_limit_crossed_timestamp borrow_limit_crossed
flash_run = (refl, refl, refl, refl)

flash_repay-flash_borrow_example :
    ((vault_of returned.0).value ≡ (vault_of pool).value)
    × (returned.0.liquidity.borrowed_amount_sf ≡ pool.liquidity.borrowed_amount_sf)
    × (pool.liquidity.available_amount ≤ returned.0.liquidity.available_amount)
    × (returned.0.liquidity.available_amount + 500 ≤ pool.liquidity.available_amount + returned.2)
    × (returned.0.collateral ≡ pool.collateral)
flash_repay-flash_borrow_example =
    flash_repay-flash_borrow exact-IsExact market pool lent returned.0 500 1000 returned.2
      returned.3 (vault_of pool).value (vault_of lent).value (vault_of returned.0).value
      (some referrer) returned.1 flash_run.0 flash_run.1 supplies.0 flash_run.2 flash_run.3

abbrev all_fresh : LastUpdate
all_fresh = record { slot = 7; stale = 0; price_status = 63 }

abbrev accounts_of : Accounts
accounts_of key = record pool { last_update = all_fresh }

abbrev borrower : Obligation
borrower = record position_of_user { last_update = all_fresh }

abbrev no_loan_yet : BorrowOutcome
no_loan_yet = record {
  accounts = accounts_of;
  obligation = borrower;
  referrer_token_state = none;
  result = loan;
}

abbrev loan_out : BorrowOutcome
loan_out =
    value_or no_loan_yet
      (borrow_obligation_liquidity market accounts_of borrower 10 now 41 none (51 ∷ []))

borrow_run :
    borrow_obligation_liquidity market accounts_of borrower 10 now 41 none (51 ∷ []) ≡ ok loan_out
unfolding borrow_obligation_liquidity is_stale is_borrowing_disabled
    check_not_marked_for_deleveraging has_obsolete_reserves utilization_rate active_deposits_empty
    remaining_borrow_value get_elevation_group calculate_borrow borrow_exactly mint_factor
    calculate_borrow_fees from_bps to_round borrow_factor_f from_percent to_ceil
    add_to_withdrawal_accum borrow to_floor get_asset_tier find_or_add_liquidity_to_borrows
    borrow_entry check_orders_supported_after_user_operation get_condition_type get_opportunity_type
    active_borrows_count unhealthy_loan_to_value
borrow_run = refl

borrow_obligation_liquidity-IsHealthy_example :
    IsAllowed market (accounts_of 41) borrower 10
    × (0 < loan_out.result.receive_amount)
    × (value_before : ℕ) × IsHealthy loan_out.obligation
        (loan_out.accounts 41)
        loan_out.result.borrow_amount_f
        value_before
        market.min_net_value_in_obligation_sf
borrow_obligation_liquidity-IsHealthy_example =
    borrow_obligation_liquidity-IsHealthy exact-IsExact market accounts_of borrower 10 now 41 none
      (51 ∷ []) loan_out borrow_run

deposit_reserve_liquidity_lem_example :
    (paid_in.1.collateral_amount * (vault_of pool).value
      ≤ paid_in.1.liquidity_amount * one * pool.collateral.mint_total_supply)
    × ((vault_of paid_in.0).value ≡ (vault_of pool).value + paid_in.1.liquidity_amount * one)
    × (paid_in.0.collateral.mint_total_supply
        ≡ pool.collateral.mint_total_supply + paid_in.1.collateral_amount)
    × ((vault_of paid_in.0).value ≤ pool.config.deposit_limit * one)
    × (paid_in.1.liquidity_amount ≤ 100)
deposit_reserve_liquidity_lem_example =
    deposit_reserve_liquidity_lem exact-IsExact pool paid_in.0 now 100 (vault_of pool).value
      (vault_of paid_in.0).value paid_in.1 supplies.0 shares_out.0 pool_run supplies.1

stale_reserve_refused_example :
    (deposit_reserve_liquidity paid_in.0 now 50 ≡ err LendingError.reserve_stale)
    × (redeem_reserve_collateral paid_in.0 50 now true ≡ err LendingError.reserve_stale)
    × (redeem_reserve_fees paid_in.0 7 ≡ err LendingError.reserve_stale)
    × (withdraw_reserve_referrer_fees paid_in.0 7 referrer ≡ err LendingError.reserve_stale)
    × (check_borrow market paid_in.0 borrower 50 7 ≡ err LendingError.reserve_stale)
    × (repay_obligation_liquidity market (λ k. paid_in.0) borrower now 50 41 []
        ≡ err LendingError.reserve_stale)
    × (check_deposit market paid_in.0 borrower 7 50 ≡ err LendingError.reserve_stale)
    × (check_withdraw market paid_in.0 borrower 50 7 41 ≡ err LendingError.reserve_stale)
    × (assert_obligation_liquidatable paid_in.0 pool borrower 50 7 ≡ err LendingError.reserve_stale)
unfolding deposit_reserve_liquidity is_stale compute_depositable_amount_and_minted_collateral
    collateral_exchange_rate total_supply liquidity_to_collateral collateral_to_liquidity_ceil
    sub_from_withdrawal_accum deposit_liquidity mark_stale
stale_reserve_refused_example =
    stale_reserve_refused market paid_in.0 now 50 7 true borrower referrer (λ k. paid_in.0) 41 []
      pool refl refl (λ e. ground arith)

-- The pledge is gone, and the loan of 100 is not covered.
abbrev broke : Obligation
broke = record borrower { deposits = replicate 8 no_pledge }

abbrev forgiven : Accounts × Obligation × ℕ
forgiven = value_or (accounts_of, broke, 0) (socialize_loss accounts_of 41 broke 60 7 [])

loss_run :
    (socialize_loss accounts_of 41 broke 60 7 [] ≡ ok forgiven)
    × (total_supply (accounts_of 41).liquidity ≡ ok (vault_of pool).value)
    × (total_supply (forgiven.0 41).liquidity ≡ ok (vault_of (forgiven.0 41)).value)
    × (forgiven.2 ≡ 60 * one)
unfolding socialize_loss is_stale active_deposits_empty active_borrows_empty
    find_liquidity_in_borrows total_supply to_ceil forgive_debt repay_borrow
loss_run = (refl, refl, refl, refl)

socialize_loss_lem_example :
    (active_deposits_empty broke ≡ true)
    × (forgiven.2 ≤ 60 * one)
    × ((vault_of pool).value ≡ (vault_of (forgiven.0 41)).value + forgiven.2)
    × ((forgiven.0 41).collateral ≡ pool.collateral)
    × ((0 < (vault_of (forgiven.0 41)).value) ⊎ ((forgiven.0 41).version ≡ u64_max))
socialize_loss_lem_example =
    socialize_loss_lem exact-IsExact accounts_of forgiven.0 41 broke forgiven.1 60 7 [] forgiven.2
      (vault_of pool).value (vault_of (forgiven.0 41)).value loss_run.0 loss_run.1 loss_run.2
