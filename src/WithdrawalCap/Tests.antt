-- ===== src/WithdrawalCap/Tests.antt =====
-- Runs of withdrawal_cap_operations.rs, and its theorems at concrete values.
use kamino_lending.Base.{LendingError, arith, err, ok, refl, ◌<◌, ◌^◌, ◌↔◌, ◌≡◌, ◌≤◌}
use kamino_lending.Base.Int.{negsuc, pos, ◌+ℤ◌, ◌≤ℤ◌}
use kamino_lending.WithdrawalCap.Defs.{
  WithdrawalCaps, add_to_withdrawal_accum, sub_from_withdrawal_accum,
}
use kamino_lending.WithdrawalCap.Bound.{add_to_withdrawal_accum_iff, after_add, total_at}
use kamino_lending.WithdrawalCap.Trace.{Follows, IsWithin, Reach, Reach-IsWithin, Step}

-- 60 of 100 are used in the interval of 3600 seconds that began at 1000.
abbrev caps_60 : WithdrawalCaps
caps_60 = record {
  config_capacity = pos 100;
  current_total = pos 60;
  last_interval_start_timestamp = 1000;
  config_interval_length_seconds = 3600;
}

abbrev caps_100 : WithdrawalCaps
caps_100 = record caps_60 { current_total = pos 100 }

abbrev uncapped : WithdrawalCaps
uncapped = record caps_60 { config_interval_length_seconds = 0 }

cap_runs :
    (add_to_withdrawal_accum caps_60 40 2000 ≡ ok caps_100)
    × (add_to_withdrawal_accum caps_60 41 2000 ≡ err LendingError.withdrawal_cap_reached)
    × (add_to_withdrawal_accum caps_60 41 999
        ≡ err LendingError.last_timestamp_greater_than_current)
    × (sub_from_withdrawal_accum caps_60 70 2000 ≡ ok (record caps_60 { current_total = negsuc 9 }))
unfolding add_to_withdrawal_accum sub_from_withdrawal_accum
cap_runs = (refl, refl, refl, refl)

add_to_withdrawal_accum_iff_example : (add_to_withdrawal_accum caps_60 40 2000 ≡ ok caps_100) ↔ (
    (caps_60.last_interval_start_timestamp ≤ 2000)
    × (pos 0 ≤ℤ caps_60.config_capacity)
    × (40 < 2 ^ 63)
    × (total_at caps_60 2000 +ℤ pos 40 ≤ℤ caps_60.config_capacity)
    × (caps_100 ≡ after_add caps_60 40 2000))
add_to_withdrawal_accum_iff_example =
    add_to_withdrawal_accum_iff caps_60 caps_100 40 2000 (omega arith) (omega arith) (omega arith)

caps_60-IsWithin : IsWithin caps_60
caps_60-IsWithin = ground arith

fills_up : Reach caps_60 caps_100
unfolding add_to_withdrawal_accum
fills_up = Reach.next Reach.here (Step.added 40 2000 refl)

Reach-IsWithin_example : IsWithin caps_100 × Follows caps_60 caps_100
Reach-IsWithin_example = Reach-IsWithin caps_60-IsWithin fills_up
