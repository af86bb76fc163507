-- ===== src/Checks/Tests.antt =====
-- The checks at concrete accounts and balances.
use kamino_lending.Base.{LendingError, arith, err, ok, refl, ◌↔◌, ◌≡◌, ◌≤◌}
use kamino_lending.Base.Int.{pos}
use kamino_lending.Reserve.{get_status, mint}
use kamino_lending.Reserve.Sample.{config, pool}
use kamino_lending.Checks.Accounts.{
  ExtensionCheck, borrow_obligation_liquidity_checks, deposit_obligation_collateral_checks,
  deposit_reserve_liquidity_checks, withdraw_obligation_collateral_checks,
}
use kamino_lending.Checks.Balances.{
  IsMoved, LendingAction, post_transfer_vault_balance_liquidity_reserve_checks,
  post_transfer_vault_balance_liquidity_reserve_checks_iff,
}

abbrev plain_mint : ExtensionCheck
plain_mint mint account = ok tt

checked_accounts :
    (borrow_obligation_liquidity_checks plain_mint pool 11 99 ≡ ok tt)
    × (borrow_obligation_liquidity_checks plain_mint pool 11 12
        ≡ err LendingError.invalid_account_input)
    × (deposit_reserve_liquidity_checks plain_mint pool 11 99 16
        ≡ err LendingError.invalid_account_input)
    × (withdraw_obligation_collateral_checks (record pool { version = 0 }) 16
        ≡ err LendingError.reserve_deprecated)
    × (deposit_obligation_collateral_checks
          (record pool { config = record config { status = 1 } })
          99
        ≡ err LendingError.reserve_obsolete)
unfolding borrow_obligation_liquidity_checks deposit_reserve_liquidity_checks
    withdraw_obligation_collateral_checks deposit_obligation_collateral_checks get_status
checked_accounts = (refl, refl, refl, refl, refl)

post_transfer_vault_balance_liquidity_reserve_checks_iff_example :
    (post_transfer_vault_balance_liquidity_reserve_checks 900 700 1000 800
        (LendingAction.substractive_signed (pos 100))
      ≡ ok tt)
    ↔ ((800 ≤ 1000)
        × IsMoved (LendingAction.substractive_signed (pos 100)) 1000 900
        × IsMoved (LendingAction.substractive_signed (pos 100)) 800 700
        × (700 ≤ 900))
post_transfer_vault_balance_liquidity_reserve_checks_iff_example =
    post_transfer_vault_balance_liquidity_reserve_checks_iff 900 700 1000 800
      (LendingAction.substractive_signed (pos 100)) (ground arith) (ground arith)

unbalanced :
    (post_transfer_vault_balance_liquidity_reserve_checks 900 700 1000 800
        (LendingAction.substractive_signed (pos 100))
      ≡ ok tt)
    × (post_transfer_vault_balance_liquidity_reserve_checks 901 700 1000 800
          (LendingAction.subtractive 100)
        ≡ err LendingError.reserve_token_balance_mismatch)
    × (post_transfer_vault_balance_liquidity_reserve_checks 1100 900 1000 800
          (LendingAction.additive 99)
        ≡ err LendingError.reserve_vault_balance_mismatch)
unfolding post_transfer_vault_balance_liquidity_reserve_checks
unbalanced = (refl, refl, refl)
