-- ===== src/WithdrawalCap/Defs.antt =====
-- The functions of withdrawal_cap_operations.rs. Amounts and times are u64, the capacity and the
-- running total are i64.
use kamino_lending.Base.{
  Bool, LendingError, Result, err, guard, if◌then◌else◌, leb, ltb, not, ok, ok_or, ℕ, ◌-◌, ◌==◌,
  ◌>>=◌, ◌>>◌,
}
use kamino_lending.Base.Int.{clamp_i64, fit_i64, i64_of_u64, ltb_ℤ, pos, ℤ, ◌+ℤ◌, ◌-ℤ◌}

pub record WithdrawalCaps : Type 0 where
  pub config_capacity : ℤ
  pub current_total : ℤ
  pub last_interval_start_timestamp : ℕ
  pub config_interval_length_seconds : ℕ

pub data WithdrawalCapAction : Type 0 where
  add remove : WithdrawalCapAction

pub data WithdrawalCapOverflowAction : Type 0 where
  saturating_overflow error_on_overflow : WithdrawalCapOverflowAction

abbrev pub with_total : WithdrawalCaps → ℤ → WithdrawalCaps
with_total caps total = record caps { current_total = total }

unfoldable pub update_counter :
    WithdrawalCaps → ℕ → WithdrawalCapAction → WithdrawalCapOverflowAction → Result WithdrawalCaps
update_counter caps requested_amount WithdrawalCapAction.add
      WithdrawalCapOverflowAction.saturating_overflow =
    do
      amount ← ok_or (i64_of_u64 requested_amount) LendingError.math_overflow
      ok (with_total caps (clamp_i64 (caps.current_total +ℤ amount)))
update_counter caps requested_amount WithdrawalCapAction.add
      WithdrawalCapOverflowAction.error_on_overflow =
    do
      amount ← ok_or (i64_of_u64 requested_amount) LendingError.integer_overflow
      total ← ok_or (fit_i64 (caps.current_total +ℤ amount)) LendingError.math_overflow
      ok (with_total caps total)
update_counter caps requested_amount WithdrawalCapAction.remove
      WithdrawalCapOverflowAction.saturating_overflow =
    do
      amount ← ok_or (i64_of_u64 requested_amount) LendingError.math_overflow
      ok (with_total caps (clamp_i64 (caps.current_total -ℤ amount)))
update_counter caps requested_amount WithdrawalCapAction.remove
      WithdrawalCapOverflowAction.error_on_overflow =
    do
      amount ← ok_or (i64_of_u64 requested_amount) LendingError.integer_overflow
      total ← ok_or (fit_i64 (caps.current_total -ℤ amount)) LendingError.math_overflow
      ok (with_total caps total)

unfoldable pub check_capacity_allows_withdrawals : WithdrawalCaps → ℕ → Result (Unit {0})
check_capacity_allows_withdrawals caps requested_amount = do
  guard (not (ltb_ℤ caps.config_capacity (pos 0))) LendingError.withdrawal_cap_reached
  amount ← ok_or (i64_of_u64 requested_amount) LendingError.math_overflow
  total ← ok_or (fit_i64 (caps.current_total +ℤ amount)) LendingError.math_overflow
  guard (not (ltb_ℤ caps.config_capacity total)) LendingError.withdrawal_cap_reached

unfoldable pub check_last_interval_elapsed : WithdrawalCaps → ℕ → Result Bool
check_last_interval_elapsed caps curr_timestamp =
    if ltb curr_timestamp caps.last_interval_start_timestamp
    then err LendingError.last_timestamp_greater_than_current
    else ok (
        leb caps.config_interval_length_seconds
          (curr_timestamp - caps.last_interval_start_timestamp))

unfoldable pub reset_current_interval_and_counter : WithdrawalCaps → ℕ → WithdrawalCaps
reset_current_interval_and_counter caps curr_timestamp = record caps {
  current_total = pos 0;
  last_interval_start_timestamp = curr_timestamp;
}

-- The capacity is only checked for what is added.
unfoldable pub check_if_added : WithdrawalCaps → ℕ → WithdrawalCapAction → Result (Unit {0})
unfolding check_capacity_allows_withdrawals
check_if_added caps requested_amount WithdrawalCapAction.add =
    check_capacity_allows_withdrawals caps requested_amount
check_if_added caps requested_amount WithdrawalCapAction.remove = ok tt

unfoldable pub check_and_update_withdrawal_caps :
    WithdrawalCaps → ℕ → ℕ → WithdrawalCapAction → Result WithdrawalCaps
unfolding check_last_interval_elapsed reset_current_interval_and_counter check_if_added
    update_counter
check_and_update_withdrawal_caps caps requested_amount curr_timestamp action =
    if not (caps.config_interval_length_seconds == 0)
    then (do
      elapsed ← check_last_interval_elapsed caps curr_timestamp
      let caps' = if elapsed then reset_current_interval_and_counter caps curr_timestamp else caps
      check_if_added caps' requested_amount action
      update_counter caps' requested_amount action WithdrawalCapOverflowAction.error_on_overflow)
    else update_counter caps requested_amount action WithdrawalCapOverflowAction.saturating_overflow

unfoldable pub add_to_withdrawal_accum : WithdrawalCaps → ℕ → ℕ → Result WithdrawalCaps
unfolding check_and_update_withdrawal_caps
add_to_withdrawal_accum caps requested_amount curr_timestamp =
    check_and_update_withdrawal_caps caps requested_amount curr_timestamp WithdrawalCapAction.add

unfoldable pub sub_from_withdrawal_accum : WithdrawalCaps → ℕ → ℕ → Result WithdrawalCaps
unfolding check_and_update_withdrawal_caps
sub_from_withdrawal_accum caps requested_amount curr_timestamp =
    check_and_update_withdrawal_caps caps requested_amount curr_timestamp WithdrawalCapAction.remove
