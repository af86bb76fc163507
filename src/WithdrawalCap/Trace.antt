-- ===== src/WithdrawalCap/Trace.antt =====
-- Every order of withdrawals and of returns, at times that the environment chooses.
use kamino_lending.Base.{arith, ok, ℕ, ◌≡◌, ◌≢◌, ◌≤◌}
use kamino_lending.Base.Int.{pos, ◌≤ℤ◌}
use kamino_lending.WithdrawalCap.Defs.{
  WithdrawalCaps, add_to_withdrawal_accum, sub_from_withdrawal_accum,
}

-- One call that succeeds.
pub data Step : WithdrawalCaps → WithdrawalCaps → Type 0 where
  added :
      {caps new : WithdrawalCaps} (amount now : ℕ)
      → add_to_withdrawal_accum caps amount now ≡ ok new
      → Step caps new
  removed :
      {caps new : WithdrawalCaps} (amount now : ℕ)
      → sub_from_withdrawal_accum caps amount now ≡ ok new
      → Step caps new

pub data Reach (start : WithdrawalCaps) : WithdrawalCaps → Type 0 where
  here : Reach start start
  next : {caps new : WithdrawalCaps} → Reach start caps → Step caps new → Reach start new

-- An interval is configured, and its total is within a capacity that is not negative.
pub record IsWithin (caps : WithdrawalCaps) : Type 0 where
  pub has_interval : caps.config_interval_length_seconds ≢ 0
  pub capacity_nonneg : pos 0 ≤ℤ caps.config_capacity
  pub total_le : caps.current_total ≤ℤ caps.config_capacity

-- What no call changes, and what only grows.
pub record Follows (before after : WithdrawalCaps) : Type 0 where
  pub same_capacity : after.config_capacity ≡ before.config_capacity
  pub same_length : after.config_interval_length_seconds ≡ before.config_interval_length_seconds
  pub start_mono : before.last_interval_start_timestamp ≤ after.last_interval_start_timestamp

Step-IsWithin : {caps new : WithdrawalCaps} → IsWithin caps → Step caps new → IsWithin new
unfolding add_to_withdrawal_accum sub_from_withdrawal_accum
Step-IsWithin w (added amount now e) = ground arith
Step-IsWithin w (removed amount now e) = ground arith

Step-Follows : {caps new : WithdrawalCaps} → IsWithin caps → Step caps new → Follows caps new
unfolding add_to_withdrawal_accum sub_from_withdrawal_accum
Step-Follows w (added amount now e) = ground arith
Step-Follows w (removed amount now e) = ground arith

Follows-trans : (a b c : WithdrawalCaps) → Follows a b → Follows b c → Follows a c
Follows-trans a b c p q = ground arith

-- From a state within its capacity, whatever calls succeed and in whatever order, the total of the
-- running interval never exceeds the capacity, the configuration stays, and intervals only advance.
pub Reach-IsWithin :
    {start caps : WithdrawalCaps}
    → IsWithin start
    → Reach start caps
    → IsWithin caps × Follows start caps
Reach-IsWithin w here = (w, ground arith)
Reach-IsWithin {start} w (next {caps = mid} {new = last} r s) =
    let (v, f) = Reach-IsWithin w r in
    (Step-IsWithin v s, Follows-trans start mid last f (Step-Follows v s))
