-- ===== src/Checks/Balances.antt =====
-- lending_checks.rs: the checks on balances after a transfer. A subtraction or an addition that does
-- not fit a u64 panics, and so does an i64 subtraction.
use kamino_lending.Base.{
  >>=-eq-ok, Bool, LendingError, Result, ap, arith, err, false, guard, if◌then◌else◌, leb, ltb, ok,
  refl, true, u64_max, unwrap, ℕ, ◌+◌, ◌-◌, ◌<◌, ◌==◌, ◌>>=◌, ◌>>◌, ◌^◌, ◌↔◌, ◌∙◌, ◌≡◌, ◌≤◌,
}
use kamino_lending.Base.Int.{fit_i64, neg_part, negsuc, pos, pos_part, ℤ, ◌-ℤ◌}
use kamino_lending.Crates.{checked, difference}
use kamino_lending.Reserve.{Reserve}

-- `LendingAction` (state/types.rs): what a transfer did to the vault.
pub data LendingAction : Type 0 where
  additive : ℕ → LendingAction
  subtractive : ℕ → LendingAction
  substractive_signed : ℤ → LendingAction

unfoldable pub initial_liquidation_reserve_liquidity_available_amount : Reserve → Reserve → ℕ × ℕ
initial_liquidation_reserve_liquidity_available_amount repay_reserve withdraw_reserve =
    (repay_reserve.liquidity.available_amount, withdraw_reserve.liquidity.available_amount)

-- `balance as i64` wraps.
abbrev pub as_i64 : ℕ → ℤ
as_i64 n = if ltb n (2 ^ 63) then pos n else negsuc (2 ^ 64 - n - 1)

-- `u64::try_from(..)`
abbrev pub u64_of_i64 : ℤ → Result ℕ
u64_of_i64 (pos n) = ok n
u64_of_i64 (negsuc n) = err LendingError.math_overflow

unfoldable pub expected_balance : ℕ → LendingAction → Result ℕ
expected_balance initial (LendingAction.additive amount) = checked u64_max (initial + amount)
expected_balance initial (LendingAction.subtractive amount) = difference initial amount
expected_balance initial (LendingAction.substractive_signed amount) = do
  change ← unwrap (fit_i64 (as_i64 initial -ℤ amount))
  u64_of_i64 change

unfoldable pub post_transfer_vault_balance_liquidity_reserve_checks :
    ℕ → ℕ → ℕ → ℕ → LendingAction → Result (Unit {0})
unfolding expected_balance
post_transfer_vault_balance_liquidity_reserve_checks final_vault final_available initial_vault
      initial_available action_type =
    do
      pre_transfer_reserve_diff ← difference initial_vault initial_available
      post_transfer_reserve_diff ← difference final_vault final_available
      guard (pre_transfer_reserve_diff == post_transfer_reserve_diff)
          LendingError.reserve_token_balance_mismatch
      expected_vault ← expected_balance initial_vault action_type
      guard (expected_vault == final_vault) LendingError.reserve_vault_balance_mismatch
      expected_available ← expected_balance initial_available action_type
      guard (expected_available == final_available) LendingError.reserve_accounting_mismatch

unfoldable pub post_liquidate_repay_amount_check : ℕ → ℕ → Result (Unit {0})
post_liquidate_repay_amount_check max_repay actual_repay =
    guard (leb actual_repay max_repay) LendingError.insufficient_repay_amount

-- What a transfer adds to a balance.
abbrev gain : LendingAction → ℕ
gain (LendingAction.additive amount) = amount
gain (LendingAction.subtractive amount) = 0
gain (LendingAction.substractive_signed amount) = neg_part amount

-- What it takes from it.
abbrev loss : LendingAction → ℕ
loss (LendingAction.additive amount) = 0
loss (LendingAction.subtractive amount) = amount
loss (LendingAction.substractive_signed amount) = pos_part amount

abbrev pub IsMoved : LendingAction → ℕ → ℕ → Type 0
IsMoved action initial final = final + loss action ≡ initial + gain action

balance_lem :
    (action : LendingAction) (initial final : ℕ)
    → initial < 2 ^ 63
    → expected_balance initial action ≡ ok final
    → IsMoved action initial final
unfolding expected_balance
balance_lem (LendingAction.additive amount) initial final small e = ground arith
balance_lem (LendingAction.subtractive amount) initial final small e = ground arith
balance_lem (LendingAction.substractive_signed (pos n)) initial final small e = ground arith
balance_lem (LendingAction.substractive_signed (negsuc n)) initial final small e = ground arith

balance_back :
    (action : LendingAction) (initial final : ℕ)
    → initial < 2 ^ 63
    → final < 2 ^ 63
    → IsMoved action initial final
    → expected_balance initial action ≡ ok final
unfolding expected_balance
balance_back (LendingAction.additive amount) initial final small small' e = ground arith
balance_back (LendingAction.subtractive amount) initial final small small' e = ground arith
balance_back (LendingAction.substractive_signed (pos n)) initial final small small' e = ground arith
balance_back (LendingAction.substractive_signed (negsuc n)) initial final small small' e =
    ground arith

difference_lem : (a b d : ℕ) → difference a b ≡ ok d → (b ≤ a) × (d ≡ a - b)
difference_lem a b d e = ground arith

difference_back : (a b : ℕ) → b ≤ a → difference a b ≡ ok (a - b)
difference_back a b h = ground arith

same_gap :
    (v v' a a' : ℕ) (action : LendingAction)
    → a ≤ v
    → IsMoved action v v'
    → IsMoved action a a'
    → v - a ≡ v' - a'
same_gap v v' a a' action le moved moved' = omega arith

guard_back : {b : Bool} (code : LendingError) → b ≡ true → guard b code ≡ ok tt
guard_back {b = true} code h = refl
guard_back {b = false} code h = cc

equal_guard : (a b : ℕ) (code : LendingError) → guard (a == b) code ≡ ok tt → a ≡ b
equal_guard a b code e = ground arith

-- On balances below 2^63, the check accepts exactly a transfer after which the vault and the
-- liquidity of the reserve have both moved by the amount, and the vault still covers the liquidity as
-- it did before.
pub post_transfer_vault_balance_liquidity_reserve_checks_iff :
    (vault' available' vault available : ℕ) (action : LendingAction)
    → vault < 2 ^ 63
    → vault' < 2 ^ 63
    → (post_transfer_vault_balance_liquidity_reserve_checks vault' available' vault available action
        ≡ ok tt)
      ↔ ((available ≤ vault)
          × IsMoved action vault vault'
          × IsMoved action available available'
          × (available' ≤ vault'))
unfolding post_transfer_vault_balance_liquidity_reserve_checks
post_transfer_vault_balance_liquidity_reserve_checks_iff vault' available' vault available action
      small small' =
    (
      (λ e.
          let (d, d_eq, e₁) = >>=-eq-ok (difference vault available) _ e in
          let (d', d_eq', e₂) = >>=-eq-ok (difference vault' available') _ e₁ in
          let (_, _, e₃) =
            >>=-eq-ok (guard (d == d') LendingError.reserve_token_balance_mismatch) _ e₂ in
          let (v, v_eq, e₄) = >>=-eq-ok (expected_balance vault action) _ e₃ in
          let (_, v_same, e₅) =
            >>=-eq-ok (guard (v == vault') LendingError.reserve_vault_balance_mismatch) _ e₄ in
          let (a, a_eq, e₆) = >>=-eq-ok (expected_balance available action) _ e₅ in
          let (le, _) = difference_lem vault available d d_eq in
          let (le', _) = difference_lem vault' available' d' d_eq' in
          let v_is : v ≡ vault' = equal_guard v vault' _ v_same in
          let a_is : a ≡ available' = equal_guard a available' _ e₆ in
          let moved = balance_lem action vault vault' small (v_eq ∙ ap ok v_is) in
          let moved' = balance_lem action available available' (omega arith) (a_eq ∙ ap ok a_is) in
          (le, moved, moved', le')),
      (λ h.
          let (le, moved, moved', le') = h in
          let gap : vault - available ≡ vault' - available' =
            same_gap vault vault' available available' action le moved moved' in
          let close : (vault - available == vault' - available') ≡ true = ground arith in
          let at_vault : (vault' == vault') ≡ true = ground arith in
          let at_available : (available' == available') ≡ true = ground arith in
          rw (difference_back vault available le, difference_back vault' available' le')
            (rw (guard_back LendingError.reserve_token_balance_mismatch close) (
              rw (balance_back action vault vault' small small' moved) (
                rw (guard_back LendingError.reserve_vault_balance_mismatch at_vault) (
                  rw (balance_back action available available' (omega arith) (omega arith) moved')
                    (guard_back LendingError.reserve_accounting_mismatch at_available)))))),
    )
