-- ===== src/Base/Outcome.antt =====
-- `enum LendingError` (programs/klend/src/lib.rs), and the results of the program's functions.
use mathlib.Core.Path.{ap, refl, sym, ◌∙◌, ◌≡◌}
use mathlib.Core.Logic.{◌⊎◌, inl, inr}
use mathlib.Core.Bool.{Bool, true, false}
use mathlib.Core.Option.{Option, none, some}

pub data LendingError : Type 0 where
  invalid_market_authority invalid_market_owner invalid_account_owner invalid_amount invalid_config
        invalid_signer invalid_account_input math_overflow insufficient_liquidity reserve_stale
        withdraw_too_small withdraw_too_large borrow_too_small borrow_too_large repay_too_small
        liquidation_too_small obligation_healthy obligation_stale obligation_reserve_limit
        invalid_obligation_owner obligation_deposits_empty obligation_borrows_empty
        obligation_deposits_zero obligation_borrows_zero invalid_obligation_collateral
        invalid_obligation_liquidity obligation_collateral_empty obligation_liquidity_empty
        negative_interest_rate invalid_oracle_config insufficient_protocol_fees_to_redeem
        flash_borrow_cpi no_flash_repay_found invalid_flash_repay flash_repay_cpi
        multiple_flash_borrows flash_loans_disabled switchboard_v2_error could_not_deserialize_scope
        price_too_old price_too_divergent_from_twap invalid_twap_price global_emergency_mode
        invalid_flag price_not_valid price_is_bigger_than_heuristic price_is_lower_than_heuristic
        price_is_zero price_confidence_too_wide integer_overflow no_farm_for_reserve
        incorrect_instruction_in_position no_price_found invalid_twap_config
        invalid_pyth_price_account invalid_switchboard_account invalid_scope_price_account
        obligation_collateral_ltv_zero invalid_obligation_seeds_value
        deprecated_invalid_obligation_id invalid_borrow_rate_curve_point invalid_utilization_rate
        cannot_socialize_obligation_with_collateral obligation_empty withdrawal_cap_reached
        last_timestamp_greater_than_current liquidation_reward_too_small
        isolated_asset_tier_violation inconsistent_elevation_group invalid_elevation_group
        invalid_elevation_group_config unhealthy_elevation_group_ltv
        elevation_group_new_loans_disabled reserve_deprecated referrer_account_not_initialized
        referrer_account_mint_missmatch referrer_account_wrong_address
        referrer_account_referrer_missmatch referrer_account_missing
        insufficient_referral_fees_to_redeem cpi_disabled short_url_not_ascii_alphanumeric
        reserve_obsolete elevation_group_already_activated obligation_in_obsolete_reserve
        referrer_state_owner_mismatch user_metadata_owner_already_set collateral_non_liquidatable
        borrowing_disabled borrow_limit_exceeded deposit_limit_exceeded
        borrowing_disabled_outside_elevation_group net_value_remaining_too_small worse_ltv_blocked
        liabilities_bigger_than_assets reserve_token_balance_mismatch reserve_vault_balance_mismatch
        reserve_accounting_mismatch borrowing_above_utilization_rate_disabled
        liquidation_borrow_factor_priority liquidation_lowest_liquidation_ltv_priority
        elevation_group_borrow_limit_exceeded elevation_group_without_debt_reserve
        elevation_group_max_collateral_reserve_zero elevation_group_has_another_debt_reserve
        elevation_group_debt_reserve_as_collateral
        obligation_collateral_exceeds_elevation_group_limit
        obligation_elevation_group_multiple_debt_reserve unsupported_token_extension
        invalid_token_account deposit_disabled_outside_elevation_group
        cannot_calculate_referral_amount_due_to_slots_mismatch obligation_owners_must_match
        obligations_must_match lending_markets_must_match
        obligation_currently_marked_for_deleveraging maximum_withdraw_value_zero
        zero_max_ltv_assets_in_deposits lowest_ltv_assets_priority worse_ltv_than_unhealthy_ltv
        farm_accounts_missing repay_too_small_for_full_liquidation insufficient_repay_amount
        order_index_out_of_bounds invalid_order_configuration
        order_configuration_not_supported_by_obligation
        operation_not_permitted_with_current_obligation_orders
        operation_not_permitted_market_immutable order_creation_disabled no_upgrade_authority :
      LendingError

-- A value, an error that the function returns, or a panic: a failed `expect` or `unwrap`, or an
-- arithmetic overflow, which the release profile checks. Either failure aborts the instruction, and
-- its writes are dropped with it, so neither carries a state.
pub data Result {ℓ} (T : Type ℓ) : Type ℓ where
  panic : Result T
  err : LendingError → Result T
  ok : T → Result T

infixl 5 ◌>>=◌ ◌>>◌
abbrev pub ◌>>=◌ {ℓ₁ ℓ₂} : {S : Type ℓ₁} {T : Type ℓ₂} → Result S → (S → Result T) → Result T
panic >>= next = panic
err code >>= next = err code
ok value >>= next = next value

-- A statement and what follows it.
abbrev pub ◌>>◌ {ℓ} : {T : Type ℓ} → Result (Unit {0}) → Result T → Result T
first >> rest = first >>= λ done. rest

-- `if !b { return Err(e) }`
abbrev pub guard : Bool → LendingError → Result (Unit {0})
guard false code = err code
guard true code = ok tt

-- `o.ok_or(e)`
abbrev pub ok_or {ℓ} : {A : Type ℓ} → Option A → LendingError → Result A
ok_or none e = err e
ok_or (some a) e = ok a

-- `o.expect(..)` and `o.unwrap()`
abbrev pub unwrap {ℓ} : {A : Type ℓ} → Option A → Result A
unwrap none = panic
unwrap (some a) = ok a

-- `r.expect(..)` and `r.unwrap()` on a result.
abbrev pub unwrap_ok {ℓ} : {A : Type ℓ} → Result A → Result A
unwrap_ok (ok a) = ok a
unwrap_ok (err e) = panic
unwrap_ok panic = panic

pub Result-cases {ℓ} :
    {A : Type ℓ} (r : Result A)
    → ((a : A) × (r ≡ ok a)) ⊎ ((e : LendingError) × (r ≡ err e)) ⊎ (r ≡ panic)
Result-cases (ok a) = inl (a, refl)
Result-cases (err e) = inr (inl (e, refl))
Result-cases panic = inr (inr refl)

-- Inversion of a bind that succeeds.
pub >>=-eq-ok {ℓ₁ ℓ₂} :
    {S : Type ℓ₁} {T : Type ℓ₂} (first : Result S) (next : S → Result T) {final : T}
    → (first >>= next) ≡ ok final
    → (value : S) × (first ≡ ok value) × (next value ≡ ok final)
>>=-eq-ok panic next done = cc
>>=-eq-ok (err code) next done = cc
>>=-eq-ok (ok value) next done = (value, refl, done)

-- Inversion of a bind that returns an error.
pub >>=-eq-err {ℓ₁ ℓ₂} :
    {S : Type ℓ₁} {T : Type ℓ₂} (first : Result S) (next : S → Result T) {e : LendingError}
    → (first >>= next) ≡ err e
    → (first ≡ err e) ⊎ ((a : S) × (first ≡ ok a) × (next a ≡ err e))
>>=-eq-err (ok a) f h = inr (a, refl, h)
>>=-eq-err (err e) f h = inl (cc)
>>=-eq-err panic f h = cc

-- A chain of steps that return no error returns none.
pub >>=-ne-err {ℓ₁ ℓ₂} :
    {S : Type ℓ₁} {T : Type ℓ₂} (first : Result S) (next : S → Result T) {e : LendingError}
    → (first ≡ err e → ⊥)
    → ((a : S) → first ≡ ok a → next a ≡ err e → ⊥)
    → (first >>= next) ≡ err e
    → ⊥
>>=-ne-err (ok a) f not_m not_f h = not_f a refl h
>>=-ne-err (err e) f not_m not_f h = not_m (cc)
>>=-ne-err panic f not_m not_f h = cc

-- A guard that lets a computation go on holds.
pub after_guard {ℓ} :
    {B : Type ℓ} {b : Bool} (e : LendingError) (k : Result B) {y : B}
    → (guard b e >> k) ≡ ok y
    → (b ≡ true) × (k ≡ ok y)
after_guard {b = true} e k h = (refl, h)
after_guard {b = false} e k h = cc

pub unwrap-eq-ok {ℓ} : {A : Type ℓ} (o : Option A) (a : A) → unwrap o ≡ ok a → o ≡ some a
unwrap-eq-ok none a h = cc
unwrap-eq-ok (some b) a h = cc

abbrev pub value_or {ℓ} : {A : Type ℓ} → A → Result A → A
value_or other panic = other
value_or other (err e) = other
value_or other (ok a) = a

pub ok_injective {ℓ} : {A : Type ℓ} {a b : A} → ok a ≡ ok b → a ≡ b
ok_injective {a = a} e = ap (value_or a) e

pub same_value {ℓ} : {A : Type ℓ} {r : Result A} {a b : A} → r ≡ ok a → r ≡ ok b → a ≡ b
same_value e e' = ok_injective (sym e ∙ e')
