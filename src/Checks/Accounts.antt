-- ===== src/Checks/Accounts.antt =====
-- lending_checks.rs: the checks on the accounts of an instruction. The accounts are their keys and
-- the reserves that are loaded from them; what `token_2022::validate_liquidity_token_extensions` reads
-- from a mint and a token account is a parameter.
use kamino_lending.Base.{
  Bool, LendingError, Option, Result, false, guard, none, not, ok, some, true, u64_max, ◌==◌, ◌>>=◌,
  ◌>>◌,
}
use kamino_lending.Reserve.{Pubkey, Reserve, ReserveStatus, get_status, mint}
use kamino_lending.LendingMarket.{program_version}
use kamino_lending.Obligation.{Obligation}

-- The check on a mint and on the token account of a user.
abbrev pub ExtensionCheck : Type 0
ExtensionCheck = Pubkey → Pubkey → Result (Unit {0})

-- An account of the user is not the vault of the pool.
abbrev pub differs_from : Pubkey → Pubkey → Result (Unit {0})
differs_from vault account = guard (not (vault == account)) LendingError.invalid_account_input

abbrev is_obsolete : ReserveStatus → Bool
is_obsolete ReserveStatus.active = false
is_obsolete ReserveStatus.obsolete = true
is_obsolete ReserveStatus.hidden = false

unfoldable pub not_obsolete : Reserve → Result (Unit {0})
not_obsolete r = do
  status ← get_status r.config
  guard (not (is_obsolete status)) LendingError.reserve_obsolete

abbrev pub of_this_version : Reserve → Result (Unit {0})
of_this_version r = guard (r.version == program_version) LendingError.reserve_deprecated

module _ (validate_liquidity_token_extensions : ExtensionCheck) where
  unfoldable pub borrow_obligation_liquidity_checks : Reserve → Pubkey → Pubkey → Result (Unit {0})
  unfolding not_obsolete
  borrow_obligation_liquidity_checks borrow_reserve mint user_destination_liquidity = do
    differs_from borrow_reserve.liquidity.supply_vault user_destination_liquidity
    not_obsolete borrow_reserve
    of_this_version borrow_reserve
    validate_liquidity_token_extensions mint user_destination_liquidity

  unfoldable pub deposit_reserve_liquidity_checks :
      Reserve → Pubkey → Pubkey → Pubkey → Result (Unit {0})
  unfolding not_obsolete
  deposit_reserve_liquidity_checks r mint user_source_liquidity user_destination_collateral = do
    differs_from r.liquidity.supply_vault user_source_liquidity
    differs_from r.collateral.supply_vault user_destination_collateral
    not_obsolete r
    of_this_version r
    validate_liquidity_token_extensions mint user_source_liquidity

  unfoldable pub deposit_reserve_liquidity_and_obligation_collateral_checks :
      Reserve → Pubkey → Pubkey → Result (Unit {0})
  unfolding not_obsolete
  deposit_reserve_liquidity_and_obligation_collateral_checks r mint user_source_liquidity = do
    differs_from r.liquidity.supply_vault user_source_liquidity
    not_obsolete r
    of_this_version r
    validate_liquidity_token_extensions mint user_source_liquidity

  -- The accounts of the user are the source of the repayment and the destinations of the collateral
  -- and of the liquidity.
  unfoldable pub liquidate_obligation_checks :
      Reserve → Reserve → Pubkey → Pubkey → Pubkey → Pubkey → Pubkey → Result (Unit {0})
  liquidate_obligation_checks repay_reserve withdraw_reserve repay_mint withdraw_mint
        user_source_liquidity user_destination_collateral user_destination_liquidity =
      do
        differs_from repay_reserve.liquidity.supply_vault user_source_liquidity
        differs_from repay_reserve.collateral.supply_vault user_destination_collateral
        of_this_version repay_reserve
        differs_from withdraw_reserve.liquidity.supply_vault user_source_liquidity
        differs_from withdraw_reserve.collateral.supply_vault user_destination_collateral
        of_this_version withdraw_reserve
        validate_liquidity_token_extensions repay_mint user_source_liquidity
        validate_liquidity_token_extensions withdraw_mint user_destination_liquidity

  unfoldable pub redeem_reserve_collateral_checks :
      Reserve → Pubkey → Pubkey → Pubkey → Result (Unit {0})
  redeem_reserve_collateral_checks r mint user_source_collateral user_destination_liquidity = do
    differs_from r.collateral.supply_vault user_source_collateral
    differs_from r.liquidity.supply_vault user_destination_liquidity
    of_this_version r
    validate_liquidity_token_extensions mint user_destination_liquidity

  unfoldable pub withdraw_obligation_collateral_and_redeem_reserve_collateral_checks :
      Reserve → Pubkey → Pubkey → Result (Unit {0})
  withdraw_obligation_collateral_and_redeem_reserve_collateral_checks withdraw_reserve mint
        user_destination_liquidity =
      do
        of_this_version withdraw_reserve
        differs_from withdraw_reserve.liquidity.supply_vault user_destination_liquidity
        validate_liquidity_token_extensions mint user_destination_liquidity

  unfoldable pub repay_obligation_liquidity_checks : Reserve → Pubkey → Pubkey → Result (Unit {0})
  repay_obligation_liquidity_checks repay_reserve mint user_source_liquidity = do
    differs_from repay_reserve.liquidity.supply_vault user_source_liquidity
    of_this_version repay_reserve
    validate_liquidity_token_extensions mint user_source_liquidity

  unfoldable pub flash_borrow_reserve_liquidity_checks :
      Reserve → Pubkey → Pubkey → Result (Unit {0})
  unfolding not_obsolete
  flash_borrow_reserve_liquidity_checks r mint user_destination_liquidity = do
    differs_from r.liquidity.supply_vault user_destination_liquidity
    of_this_version r
    not_obsolete r
    guard (not (r.config.fees.flash_loan_fee_sf == u64_max)) LendingError.flash_loans_disabled
    validate_liquidity_token_extensions mint user_destination_liquidity

unfoldable pub deposit_obligation_collateral_checks : Reserve → Pubkey → Result (Unit {0})
unfolding not_obsolete
deposit_obligation_collateral_checks deposit_reserve user_source_collateral = do
  differs_from deposit_reserve.collateral.supply_vault user_source_collateral
  not_obsolete deposit_reserve
  of_this_version deposit_reserve

unfoldable pub withdraw_obligation_collateral_checks : Reserve → Pubkey → Result (Unit {0})
withdraw_obligation_collateral_checks withdraw_reserve user_destination_collateral = do
  of_this_version withdraw_reserve
  differs_from withdraw_reserve.collateral.supply_vault user_destination_collateral

unfoldable pub flash_repay_reserve_liquidity_checks : Reserve → Pubkey → Result (Unit {0})
flash_repay_reserve_liquidity_checks r user_source_liquidity =
    differs_from r.liquidity.supply_vault user_source_liquidity

-- An account without data holds no obligation.
unfoldable pub check_obligation_market : Option Obligation → Pubkey → Result (Unit {0})
check_obligation_market none lending_market = ok tt
check_obligation_market (some o) lending_market =
    guard (o.lending_market == lending_market) LendingError.invalid_account_input

unfoldable pub refresh_obligation_farms_for_reserve_checks :
    Option Obligation → Pubkey → Reserve → Result (Unit {0})
unfolding check_obligation_market not_obsolete
refresh_obligation_farms_for_reserve_checks obligation lending_market r = do
  check_obligation_market obligation lending_market
  not_obsolete r
  of_this_version r
