-- ===== src/WithdrawalCap/Bound.antt =====
-- One call of the withdrawal cap operations: what it admits and what it refuses.
use kamino_lending.Base.{
  ap, arith, if◌then◌else◌, leb, le→ltb_false, lt→leb_false, lt→ltb, ok, ℕ, ◌-◌, ◌<◌, ◌^◌, ◌↔◌, ◌∙◌,
  ◌≡◌, ◌≢◌, ◌≤◌,
}
use kamino_lending.Base.Int.{
  IsI64, clamp_i64, fit_i64_lem, i64_max, i64_min, negsuc, pos, ℤ, ◌+ℤ◌, ◌-ℤ◌, ◌≤ℤ◌,
}
use kamino_lending.WithdrawalCap.Defs.{
  WithdrawalCaps, add_to_withdrawal_accum, sub_from_withdrawal_accum,
}

-- The total that a call at this time starts from: a new interval starts from zero.
abbrev pub total_at : WithdrawalCaps → ℕ → ℤ
total_at caps now =
    if leb caps.config_interval_length_seconds (now - caps.last_interval_start_timestamp)
    then pos 0
    else caps.current_total

-- The state after an admitted withdrawal.
abbrev pub after_add : WithdrawalCaps → ℕ → ℕ → WithdrawalCaps
after_add caps amount now = record {
  config_capacity = caps.config_capacity;
  current_total = total_at caps now +ℤ pos amount;
  last_interval_start_timestamp =
      if leb caps.config_interval_length_seconds (now - caps.last_interval_start_timestamp)
      then now
      else caps.last_interval_start_timestamp;
  config_interval_length_seconds = caps.config_interval_length_seconds;
}

-- With an interval configured, a capacity that fits an i64 and a total that is no less than the least i64,
-- a withdrawal is let through exactly if the clock has not gone back, the capacity is not negative, the
-- amount is below 2^63, and what the running interval has seen, with the amount added, is within the
-- capacity; the new state is then `after_add`.
pub add_to_withdrawal_accum_iff :
    (caps new : WithdrawalCaps) (amount now : ℕ)
    → caps.config_interval_length_seconds ≢ 0
    → caps.config_capacity ≤ℤ i64_max
    → i64_min ≤ℤ caps.current_total
    → (add_to_withdrawal_accum caps amount now ≡ ok new) ↔ (
        (caps.last_interval_start_timestamp ≤ now)
        × (pos 0 ≤ℤ caps.config_capacity)
        × (amount < 2 ^ 63)
        × (total_at caps now +ℤ pos amount ≤ℤ caps.config_capacity)
        × (new ≡ after_add caps amount now))
unfolding add_to_withdrawal_accum
add_to_withdrawal_accum_iff caps new amount now h hc ht = (λ e. ground arith, λ a. ground arith)

sub-add_ℤ : (t : ℤ) (n : ℕ) → (t +ℤ pos n) -ℤ pos n ≡ t
sub-add_ℤ (pos m) n = ground arith
sub-add_ℤ (negsuc m) n = ground arith

-- Inside a running interval a return lowers the total by its amount.
sub_in_interval :
    (caps : WithdrawalCaps) (amount now : ℕ)
    → caps.last_interval_start_timestamp ≤ now
    → now - caps.last_interval_start_timestamp < caps.config_interval_length_seconds
    → amount < 2 ^ 63
    → IsI64 (caps.current_total -ℤ pos amount)
    → sub_from_withdrawal_accum caps amount now
      ≡ ok (record caps { current_total = caps.current_total -ℤ pos amount })
unfolding sub_from_withdrawal_accum
sub_in_interval caps amount now hs hw ha (lo, hi) =
    let total = caps.current_total -ℤ pos amount in
    rw
      (
        le→ltb_false now caps.last_interval_start_timestamp hs,
        lt→leb_false _ _ hw,
        lt→ltb _ _ ha,
        fit_i64_lem total (lo, hi),
      )
      (ground arith)

-- Taking back an admitted withdrawal, at the same time, leaves the interval as if it had only begun:
-- the total is what it was before.
pub sub-add_to_withdrawal_accum :
    (caps new : WithdrawalCaps) (amount now : ℕ)
    → caps.config_interval_length_seconds ≢ 0
    → caps.config_capacity ≤ℤ i64_max
    → IsI64 caps.current_total
    → add_to_withdrawal_accum caps amount now ≡ ok new
    → sub_from_withdrawal_accum new amount now
      ≡ ok (record (after_add caps amount now) { current_total = total_at caps now })
sub-add_to_withdrawal_accum caps new amount now h hc ht e =
    let (clock, _, small, _, same) =
      (add_to_withdrawal_accum_iff caps new amount now h hc ht.0).0 e in
    let after : WithdrawalCaps = after_add caps amount now in
    let started : after.last_interval_start_timestamp ≤ now = ground arith in
    let running : now - after.last_interval_start_timestamp < after.config_interval_length_seconds =
      ground arith in
    let before_I64 : IsI64 (total_at caps now) = ground arith in
    let total_I64 : IsI64 (after.current_total -ℤ pos amount) =
      rw (sub-add_ℤ (total_at caps now) amount) before_I64 in
    rw same (
      sub_in_interval after amount now started running small total_I64
      ∙ ap (λ t. ok (record after { current_total = t })) (sub-add_ℤ (total_at caps now) amount))

-- With no interval configured the counter only saturates: every amount below 2^63 passes, both ways,
-- and the total stays an i64.
pub no_interval_saturates :
    (caps : WithdrawalCaps) (amount now : ℕ)
    → caps.config_interval_length_seconds ≡ 0
    → IsI64 caps.current_total
    → amount < 2 ^ 63
    → (added removed : WithdrawalCaps) × (add_to_withdrawal_accum caps amount now ≡ ok added)
      × (sub_from_withdrawal_accum caps amount now ≡ ok removed)
      × IsI64 added.current_total
      × IsI64 removed.current_total
      × (caps.current_total ≤ℤ added.current_total)
      × (removed.current_total ≤ℤ caps.current_total)
unfolding add_to_withdrawal_accum sub_from_withdrawal_accum
no_interval_saturates caps amount now h ht ha = (
  record caps { current_total = clamp_i64 (caps.current_total +ℤ pos amount) },
  record caps { current_total = clamp_i64 (caps.current_total -ℤ pos amount) },
  ground arith,
  ground arith,
  ground arith,
  ground arith,
  ground arith,
  ground arith,
)
