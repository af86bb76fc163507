-- ===== src/Obligation/Tests.antt =====
-- Runs of obligation.rs, and its theorems on a concrete obligation.
use kamino_lending.Fraction.{to_ceil}
use kamino_lending.Obligation.Conditions.{evaluate_stop_loss, evaluate_stop_loss_share}
use kamino_lending.Base.{
  LendingError, arith, err, get_elem?, length, ok, panic, refl, replicate, some, true, ℕ, ◌*◌, ◌+◌,
  ◌-◌, ◌/◌, ◌<◌, ◌∷◌, ◌≡◌, ◌≤◌, ◌⊎◌,
}
use kamino_lending.Crates.{one}
use kamino_lending.Crates.Exact.{exact, exact-IsExact}
use kamino_lending.Obligation.Sample.{
  no_loan, no_pledge, order, pledge, position_of_user, user_loan,
}
use kamino_lending.Obligation.Positions.{ObligationCollateral, ObligationLiquidity, accrue_interest}
use kamino_lending.Obligation.Orders.{consume, default_order}
use kamino_lending.Obligation.State.{
  LtvMaxWithdrawalCheck, Obligation, active_deposits_empty, mark_for_deleveraging,
  remaining_borrow_value,
}
use kamino_lending.Obligation.Entries.{
  find_liquidity_index_in_borrows, find_or_add_collateral_to_deposits,
  find_or_add_liquidity_to_borrows, position_of_collateral_in_deposits,
}
use kamino_lending.Obligation.Values.{
  get_borrowed_amount_if_single_token, loan_to_value, max_withdraw_value, withdraw_limit,
}
use kamino_lending.Obligation.Interest.{accrue_interest_lem, accrue_interest_split}
use kamino_lending.Obligation.Slots.{
  borrows_in, deposits_in, find_or_add_collateral_to_deposits_lem,
  find_or_add_liquidity_to_borrows_lem,
}
use kamino_lending.Obligation.Limits.{consume_lem, max_withdraw_value_lem}
use kamino_lending.Reserve.{AssetTier}

abbrev at_rate : ℕ → ℕ → ObligationLiquidity
at_rate rate owed = record user_loan {
  cumulative_borrow_rate_bsf = rate;
  borrowed_amount_sf = owed;
}

abbrev with_borrow : Obligation
with_borrow = record position_of_user {
  borrows =
      user_loan
      ∷ record no_loan { borrow_reserve = 42; cumulative_borrow_rate_bsf = 2 * one }
      ∷ replicate 3 no_loan;
  borrows_asset_tiers = 0 ∷ 2 ∷ replicate 3 255;
}

abbrev with_deposit : Obligation
with_deposit = record position_of_user {
  deposits = pledge ∷ record no_pledge { deposit_reserve = 52 } ∷ replicate 6 no_pledge;
  deposits_asset_tiers = 0 ∷ 0 ∷ replicate 6 255;
}

abbrev after_withdrawal : Obligation
after_withdrawal = record position_of_user {
  deposits = record pledge { deposited_amount = 180 } ∷ replicate 7 no_pledge;
}

abbrev after_repayment : Obligation
after_repayment = record position_of_user {
  borrows = replicate 5 no_loan;
  borrows_asset_tiers = replicate 5 255;
}

abbrev weight : ℕ
weight = 75

obligation_runs :
    (find_or_add_liquidity_to_borrows position_of_user 41 one AssetTier.regular
      ≡ ok (position_of_user, 0))
    × (position_of_collateral_in_deposits position_of_user 52
        ≡ err LendingError.invalid_obligation_collateral)
    × (accrue_interest user_loan (one / 2) ≡ err LendingError.negative_interest_rate)
    × (loan_to_value position_of_user ≡ ok (120 * one / 300))
    × (remaining_borrow_value position_of_user ≡ 105 * one)
    × (get_borrowed_amount_if_single_token position_of_user ≡ ok (some 100))
    × (mark_for_deleveraging position_of_user 0 60 ≡ panic)
unfolding find_or_add_liquidity_to_borrows find_liquidity_index_in_borrows
    position_of_collateral_in_deposits active_deposits_empty accrue_interest loan_to_value
    remaining_borrow_value get_borrowed_amount_if_single_token mark_for_deleveraging to_ceil
obligation_runs = (refl, refl, refl, refl, refl, refl, refl)

accrue_interest_lem_example :
    (one ≤ 3 * one)
    × ((at_rate (3 * one) (300 * one)).cumulative_borrow_rate_bsf ≡ 3 * one)
    × (300 * one * one ≤ 100 * one * (3 * one))
    × (100 * one * (3 * one) < (300 * one + 1) * one)
    × (100 * one ≤ 300 * one)
unfolding accrue_interest
accrue_interest_lem_example =
    accrue_interest_lem exact-IsExact user_loan (at_rate (3 * one) (300 * one)) (3 * one)
      (omega arith) refl

accrue_interest_split_example :
    ((at_rate (2 * one) (200 * one)).borrowed_amount_sf ≤ 200 * one)
    × ((at_rate (2 * one) (200 * one)).cumulative_borrow_rate_bsf ≡ 2 * one)
unfolding accrue_interest
accrue_interest_split_example =
    accrue_interest_split exact-IsExact user_loan (at_rate (one + one / 2) (150 * one))
      (at_rate (2 * one) (200 * one)) (at_rate (2 * one) (200 * one)) (one + one / 2) (2 * one)
      (omega arith) refl refl refl

find_or_add_liquidity_to_borrows_lem_example :
    (t : ObligationLiquidity) × (get_elem? with_borrow.borrows 1 ≡ some t)
    × (t.borrow_reserve ≡ 42)
    × (length with_borrow.borrows ≡ length position_of_user.borrows)
    × (borrows_in 42 with_borrow ≤ 1)
unfolding find_or_add_liquidity_to_borrows find_liquidity_index_in_borrows
find_or_add_liquidity_to_borrows_lem_example =
    find_or_add_liquidity_to_borrows_lem position_of_user with_borrow 42 (2 * one)
      AssetTier.isolated_debt 1 42 (omega arith) (omega arith) refl

find_or_add_collateral_to_deposits_lem_example :
    (t : ObligationCollateral) × (get_elem? with_deposit.deposits 1 ≡ some t)
    × (t.deposit_reserve ≡ 52)
    × (length with_deposit.deposits ≡ length position_of_user.deposits)
    × (deposits_in 51 with_deposit ≤ 1)
unfolding find_or_add_collateral_to_deposits
find_or_add_collateral_to_deposits_lem_example =
    find_or_add_collateral_to_deposits_lem position_of_user with_deposit 52 AssetTier.regular 1 51
      true (omega arith) (omega arith) refl

max_withdraw_value_lem_example :
    (225 * one ≤ 120 * one) × (140 * one ≡ 0)
    ⊎ (120 * one < 225 * one) × (weight ≡ 0) × (140 * one ≡ pledge.market_value_sf)
    ⊎ (120 * one < 225 * one)
      × (120 * one * 100 + 140 * one * 75 ≤ 225 * one * 100)
      × (225 * one * 100 < 120 * one * 100 + (140 * one + 1) * 75)
unfolding max_withdraw_value withdraw_limit
max_withdraw_value_lem_example =
    max_withdraw_value_lem exact-IsExact position_of_user pledge 75 80 LtvMaxWithdrawalCheck.max_ltv
      (140 * one) refl

consume_lem_example :
    (order.opportunity_type ≡ 1) × (record order { opportunity_parameter_sf = 20 * one } ≡ order)
    ⊎ (order.opportunity_type ≡ 0)
      × (50 * one ≤ 30 * one)
      × (record order { opportunity_parameter_sf = 20 * one } ≡ default_order)
    ⊎ (order.opportunity_type ≡ 0)
      × (30 * one < 50 * one)
      × (record order { opportunity_parameter_sf = 20 * one }
          ≡ record order { opportunity_parameter_sf = 50 * one - 30 * one })
unfolding consume
consume_lem_example =
    consume_lem exact-IsExact order (record order { opportunity_parameter_sf = 20 * one }) 30 refl

evaluate_stop_loss_share_example :
    (60 * one < 70 * one)
    × (one / 2 ≤ one)
    × (one / 2 * (80 * one - 60 * one) ≤ (70 * one - 60 * one) * one)
    × ((70 * one - 60 * one) * one < (one / 2 + 1) * (80 * one - 60 * one))
unfolding evaluate_stop_loss
evaluate_stop_loss_share_example =
    evaluate_stop_loss_share exact-IsExact (70 * one) (60 * one) (80 * one) (one / 2) (omega arith)
      refl
