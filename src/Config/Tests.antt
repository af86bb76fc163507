-- ===== src/Config/Tests.antt =====
-- Updates of a concrete configuration.
use kamino_lending.LastUpdate.{mark_stale}
use kamino_lending.BorrowRateCurve.{validate}
use kamino_lending.Base.{List, Option, [], arith, none, ok, refl, replicate, some, ℕ, ◌∷◌, ◌≡◌, ◌⊎◌}
use kamino_lending.Base.Int.{pos, ℤ}
use kamino_lending.Reserve.{
  Reserve, ReserveConfig, get_asset_tier, is_autodeleverage_enabled, is_token_info_valid,
  is_twap_config_valid, status_of,
}
use kamino_lending.Reserve.Sample.{config, pool}
use kamino_lending.LendingMarket.{get_elevation_group}
use kamino_lending.LendingMarket.Sample.{group, market}
use kamino_lending.Config.Items.{Borsh, check_valid_pct}
use kamino_lending.Config.Modes.{
  UpdateConfigMode, allowed_signer_update_reserve_config,
  is_update_reserve_config_mode_global_admin_only,
}
use kamino_lending.Config.Update.{update_reserve_config}
use kamino_lending.Config.Integrity.{validate_reserve_config_integrity}
use kamino_lending.Config.Authority.{KeepsProtocol, update_reserve_config-KeepsProtocol}
use kamino_lending.Config.Soundness.{
  IsLooser, IsSound, validate_reserve_config_integrity-IsLooser,
  validate_reserve_config_integrity-IsSound,
}

abbrev first_byte : List ℕ → Option ℕ
first_byte [] = none
first_byte (byte ∷ bytes) = some byte

abbrev with_pos : Option ℕ → Option ℤ
with_pos none = none
with_pos (some n) = some (pos n)

-- Readers that read one byte, whatever the type.
abbrev readers : Borsh
readers = record {
  u8 = first_byte;
  u16 = first_byte;
  u64 = first_byte;
  i64 = λ bytes. with_pos (first_byte bytes);
  key = first_byte;
  bytes_32 = some;
  chain = some;
  groups = some;
  limits = some;
  curve = λ bytes. some config.borrow_rate_curve;
  config = λ bytes. none;
}

abbrev retitled : Reserve
retitled = record pool {
  config = record config { loan_to_value_pct = 60 };
  last_update = record { slot = 7; stale = 1; price_status = 0 };
}

new_ltv :
    update_reserve_config readers pool UpdateConfigMode.update_loan_to_value_pct (60 ∷ [])
    ≡ ok retitled
unfolding update_reserve_config check_valid_pct mark_stale
new_ltv = refl

update_reserve_config-KeepsProtocol_example : KeepsProtocol pool.config retitled.config
unfolding allowed_signer_update_reserve_config is_update_reserve_config_mode_global_admin_only
update_reserve_config-KeepsProtocol_example =
    update_reserve_config-KeepsProtocol readers pool retitled
      UpdateConfigMode.update_loan_to_value_pct (60 ∷ []) 81 1 (λ same. ground arith) refl new_ltv

abbrev grouped : ReserveConfig
grouped = record config {
  elevation_groups = 1 ∷ replicate 19 0;
  borrow_limit_outside_elevation_group = 900;
}

sound : validate_reserve_config_integrity grouped market 10 ≡ ok tt
unfolding validate_reserve_config_integrity status_of is_token_info_valid is_twap_config_valid
    is_autodeleverage_enabled get_asset_tier get_elevation_group validate
sound = refl

validate_reserve_config_integrity-IsSound_example : IsSound grouped
validate_reserve_config_integrity-IsSound_example =
    validate_reserve_config_integrity-IsSound grouped market 10 sound

validate_reserve_config_integrity-IsLooser_example :
    (group.debt_reserve ≡ 10) ⊎ IsLooser grouped group
unfolding get_elevation_group
validate_reserve_config_integrity-IsLooser_example =
    validate_reserve_config_integrity-IsLooser grouped market 10 0 1 group sound refl refl
