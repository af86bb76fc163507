-- ===== src/Operations/Freshness.antt =====
-- Which operations ask that a reserve be refreshed since it was last changed (lending_operations.rs).
use kamino_lending.Operations.Accounts.{Accounts, Clock}
use kamino_lending.Operations.Checks.{assert_obligation_liquidatable, require_fresh}
use kamino_lending.Operations.Pool.{
  deposit_reserve_liquidity, redeem_reserve_collateral, redeem_reserve_fees,
  withdraw_reserve_referrer_fees,
}
use kamino_lending.Operations.Loans.{check_borrow, repay_obligation_liquidity}
use kamino_lending.Operations.Pledges.{check_deposit, check_withdraw}
use kamino_lending.Base.{
  List, if◌then◌else◌, Bool, LendingError, arith, err, not, refl, true, ℕ, ◌==◌, ◌≡◌, ◌≢◌,
}
use kamino_lending.Crates.{Crates}
use kamino_lending.LastUpdate.{LastUpdate, all_checks, is_stale, liquidation_checks, no_checks}
use kamino_lending.Reserve.{Pubkey, ReferrerTokenState, Reserve}
use kamino_lending.LendingMarket.{LendingMarket}
use kamino_lending.Obligation.{Obligation, active_borrows_empty}

stale_refused :
    (u : LastUpdate) (slot wanted : ℕ) (code : LendingError)
    → u.stale ≡ 1
    → require_fresh u slot wanted code ≡ err code
unfolding require_fresh is_stale
stale_refused u slot wanted code h = ground arith

some_amount_lem : (n : ℕ) → n ≢ 0 → not (n == 0) ≡ true
some_amount_lem n h = ground arith

-- A reserve that is marked stale is refused with `ReserveStale`, in whatever slot and for any amount other
-- than zero, by deposits and redemptions of the pool, both withdrawals of fees, repayments, the
-- guards of borrows and of depositing and withdrawing an obligation's collateral, and, as the reserve
-- that is repaid, the guards of liquidations. Flash loans and refreshes are not among them.
pub stale_reserve_refused :
    ⦃c : Crates⦄ (market : LendingMarket) (r : Reserve) (clock : Clock) (n slot : ℕ) (asked : Bool)
    (o : Obligation) (state : ReferrerTokenState) (accounts : Accounts) (key : Pubkey)
    (deposit_keys : List Pubkey) (withdraw_reserve : Reserve)
    → accounts key ≡ r
    → r.last_update.stale ≡ 1
    → n ≢ 0
    → (deposit_reserve_liquidity r clock n ≡ err LendingError.reserve_stale)
      × (redeem_reserve_collateral r n clock asked ≡ err LendingError.reserve_stale)
      × (redeem_reserve_fees r slot ≡ err LendingError.reserve_stale)
      × (withdraw_reserve_referrer_fees r slot state ≡ err LendingError.reserve_stale)
      × (check_borrow market r o n slot ≡ err LendingError.reserve_stale)
      × (repay_obligation_liquidity market accounts o clock n key deposit_keys
          ≡ err LendingError.reserve_stale)
      × (check_deposit market r o slot n ≡ err LendingError.reserve_stale)
      × (check_withdraw market r o n slot key ≡ err LendingError.reserve_stale)
      × (assert_obligation_liquidatable r withdraw_reserve o n slot
          ≡ err LendingError.reserve_stale)
unfolding deposit_reserve_liquidity redeem_reserve_collateral redeem_reserve_fees
    withdraw_reserve_referrer_fees check_borrow repay_obligation_liquidity check_deposit
    check_withdraw assert_obligation_liquidatable
stale_reserve_refused market r clock n slot asked o state accounts key deposit_keys withdraw_reserve
      there stale some_amount =
    (
      rw (some_amount_lem n some_amount) (
          rw (stale_refused r.last_update clock.slot no_checks LendingError.reserve_stale stale)
            refl),
      rw (some_amount_lem n some_amount) (
          rw (stale_refused r.last_update clock.slot no_checks LendingError.reserve_stale stale)
            refl),
      rw (stale_refused r.last_update slot no_checks LendingError.reserve_stale stale) refl,
      rw (stale_refused r.last_update slot all_checks LendingError.reserve_stale stale) refl,
      rw (some_amount_lem n some_amount)
          (rw (stale_refused r.last_update slot all_checks LendingError.reserve_stale stale) refl),
      rw (some_amount_lem n some_amount, there)
          (rw (stale_refused r.last_update clock.slot no_checks LendingError.reserve_stale stale)
            refl),
      rw (some_amount_lem n some_amount)
          (rw (stale_refused r.last_update slot no_checks LendingError.reserve_stale stale) refl),
      rw (some_amount_lem n some_amount) (
          rw
            (stale_refused r.last_update slot
              (if active_borrows_empty o then no_checks else all_checks) LendingError.reserve_stale
              stale)
            refl),
      rw (some_amount_lem n some_amount) (
          rw (stale_refused r.last_update slot liquidation_checks LendingError.reserve_stale stale)
            refl),
    )
