-- ===== src/Config/Authority.antt =====
-- Who can change what of a reserve (lending_operations.rs).
use kamino_lending.Config.Items.{
  Borsh, accept_anything, check_asset_tier, check_bool, check_gte, check_lte, check_status,
  check_valid_bps, check_valid_pct, set_item,
}
use kamino_lending.Config.Modes.{
  UpdateConfigMode, allowed_signer_update_reserve_config,
  is_update_reserve_config_mode_global_admin_only,
}
use kamino_lending.Config.Update.{
  in_config, in_token_info, or_next, update_cap, update_config, update_entire, update_farm,
  update_flags, update_liquidation, update_reserve_config, update_risk, update_structures,
}
use kamino_lending.Base.{
  >>=-eq-ok, Bool-cases, List, Option, Result, ap, false, if_true, inl, inr, none, ok, refl, some,
  sym, unwrap, unwrap-eq-ok, ℕ, ◌>>=◌, ◌∙◌, ◌≡◌, ◌≢◌,
}
use kamino_lending.Crates.{one}
use kamino_lending.LastUpdate.{mark_stale}
use kamino_lending.Reserve.{Reserve, ReserveConfig, TokenInfo}

-- The four fields that are the protocol's are the same in both configurations.
abbrev pub KeepsProtocol : ReserveConfig → ReserveConfig → Type 0
KeepsProtocol config config' =
    (config'.protocol_take_rate_pct ≡ config.protocol_take_rate_pct)
    × (config'.protocol_liquidation_fee_pct ≡ config.protocol_liquidation_fee_pct)
    × (config'.protocol_order_execution_fee_pct ≡ config.protocol_order_execution_fee_pct)
    × (config'.host_fixed_interest_rate_bps ≡ config.host_fixed_interest_rate_bps)

-- A write that succeeds has written a value that was read, so what every written value has holds.
written {ℓ κ η} :
    {T : Type ℓ} {H : Type κ} (P : H → Type η) (read : List ℕ → Option T)
    (check : T → Result (Unit {0})) (source : List ℕ) (write : T → H) {h : H}
    → ◌≡◌ {A = Option (Result H)} (some (set_item read check source write)) (some (ok h))
    → ((value : T) → P (write value))
    → P h
unfolding set_item
written P read check source write {h = h} e every =
    let e₀ : set_item read check source write ≡ ok h = cc in
    let (value, _, e₁) = >>=-eq-ok (unwrap (read source)) _ e₀ in
    let (_, _, e₂) = >>=-eq-ok (check value) _ e₁ in
    let h_eq : h ≡ write value = cc in rw h_eq (every value)

of_bind {ℓ κ η} :
    {S : Type ℓ} {H : Type κ} (P : H → Type η) (first : Result S) (write : S → H) {h : H}
    → ◌≡◌ {A = Option (Result H)} (some (first >>= λ s. ok (write s))) (some (ok h))
    → ((s : S) → P (write s))
    → P h
of_bind P first write {h = h} e every =
    let e₀ : (first >>= λ s. ok (write s)) ≡ ok h = cc in
    let (s, _, e₁) = >>=-eq-ok first _ e₀ in let h_eq : h ≡ write s = cc in rw h_eq (every s)

in_info :
    (config config' : ReserveConfig) (o : Option (Result TokenInfo))
    → in_token_info config o ≡ some (ok config')
    → KeepsProtocol config config'
in_info config config' none e = cc
in_info config config' (some result) e =
    of_bind (KeepsProtocol config) result (λ info. record config { token_info = info }) e
      (λ info. (refl, refl, refl, refl))

-- Whichever of the two answers, what both give holds.
either {ℓ κ} :
    {H : Type ℓ} (P : Type κ) {first second : Option (Result H)} {h : H}
    → (first ≡ some (ok h) → P)
    → (second ≡ some (ok h) → P)
    → or_next first second ≡ some (ok h)
    → P
either P {first = none} on_first on_second e = on_second e
either P {first = some result} on_first on_second e = on_first e

in_reserve :
    (r r' : Reserve) (o : Option (Result ReserveConfig))
    → in_config r o ≡ some (ok r')
    → (config : ReserveConfig) × (o ≡ some (ok config)) × (r'.config ≡ config)
in_reserve r r' none e = cc
in_reserve r r' (some result) e =
    let e₀ : (result >>= λ config. ok (record r { config = config })) ≡ ok r' = cc in
    let (config, config_eq, e₁) = >>=-eq-ok result _ e₀ in
    let r_eq : r' ≡ record r { config = config } = cc in
    (config, ap some config_eq, ap (λ x. x.config) r_eq)

module _ (borsh : Borsh) (source : List ℕ) where
  risk_keeps :
      (mode : UpdateConfigMode) (config config' : ReserveConfig)
      → is_update_reserve_config_mode_global_admin_only mode ≡ false
      → update_risk borsh mode config source ≡ some (ok config')
      → KeepsProtocol config config'
  unfolding update_risk is_update_reserve_config_mode_global_admin_only
  risk_keeps UpdateConfigMode.update_loan_to_value_pct config config' h e =
      written (KeepsProtocol config) borsh.u8 check_valid_pct source
        (λ value. record config { loan_to_value_pct = value }) e (λ value. (refl, refl, refl, refl))
  risk_keeps UpdateConfigMode.update_max_liquidation_bonus_bps config config' h e =
      written (KeepsProtocol config) borsh.u16 check_valid_bps source
        (λ value. record config { max_liquidation_bonus_bps = value }) e
        (λ value. (refl, refl, refl, refl))
  risk_keeps UpdateConfigMode.update_liquidation_threshold_pct config config' h e =
      written (KeepsProtocol config) borsh.u8 check_valid_pct source
        (λ value. record config { liquidation_threshold_pct = value }) e
        (λ value. (refl, refl, refl, refl))
  risk_keeps UpdateConfigMode.update_protocol_liquidation_fee config config' h e = cc
  risk_keeps UpdateConfigMode.update_protocol_order_execution_fee config config' h e = cc
  risk_keeps UpdateConfigMode.update_protocol_take_rate config config' h e = cc
  risk_keeps UpdateConfigMode.update_fees_borrow_fee config config' h e =
      written (KeepsProtocol config) borsh.u64 (check_lte one) source
        (λ value. record config { fees = record config.fees { borrow_fee_sf = value } }) e
        (λ value. (refl, refl, refl, refl))
  risk_keeps UpdateConfigMode.update_fees_flash_loan_fee config config' h e =
      written (KeepsProtocol config) borsh.u64 (check_lte one) source
        (λ value. record config { fees = record config.fees { flash_loan_fee_sf = value } }) e
        (λ value. (refl, refl, refl, refl))
  risk_keeps UpdateConfigMode.update_deposit_limit config config' h e =
      written (KeepsProtocol config) borsh.u64 accept_anything source
        (λ value. record config { deposit_limit = value }) e (λ value. (refl, refl, refl, refl))
  risk_keeps UpdateConfigMode.update_borrow_limit config config' h e =
      written (KeepsProtocol config) borsh.u64 accept_anything source
        (λ value. record config { borrow_limit = value }) e (λ value. (refl, refl, refl, refl))
  risk_keeps _ config config' h e = cc

  liquidation_keeps :
      (mode : UpdateConfigMode) (config config' : ReserveConfig)
      → update_liquidation borsh mode config source ≡ some (ok config')
      → KeepsProtocol config config'
  unfolding update_liquidation
  liquidation_keeps UpdateConfigMode.update_bad_debt_liquidation_bonus_bps config config' e =
      written (KeepsProtocol config) borsh.u16 (check_lte 100) source
        (λ value. record config { bad_debt_liquidation_bonus_bps = value }) e
        (λ value. (refl, refl, refl, refl))
  liquidation_keeps UpdateConfigMode.update_min_liquidation_bonus_bps config config' e =
      written (KeepsProtocol config) borsh.u16 check_valid_bps source
        (λ value. record config { min_liquidation_bonus_bps = value }) e
        (λ value. (refl, refl, refl, refl))
  liquidation_keeps UpdateConfigMode.update_deleveraging_margin_call_period config config' e =
      written (KeepsProtocol config) borsh.u64 accept_anything source
        (λ value. record config { deleveraging_margin_call_period_secs = value }) e
        (λ value. (refl, refl, refl, refl))
  liquidation_keeps UpdateConfigMode.update_borrow_factor config config' e =
      written (KeepsProtocol config) borsh.u64 (check_gte 100) source
        (λ value. record config { borrow_factor_pct = value }) e (λ value. (refl, refl, refl, refl))
  liquidation_keeps UpdateConfigMode.update_asset_tier config config' e =
      written (KeepsProtocol config) borsh.u8 check_asset_tier source
        (λ value. record config { asset_tier = value }) e (λ value. (refl, refl, refl, refl))
  liquidation_keeps UpdateConfigMode.update_elevation_group config config' e =
      written (KeepsProtocol config) borsh.groups accept_anything source
        (λ value. record config { elevation_groups = value }) e (λ value. (refl, refl, refl, refl))
  liquidation_keeps UpdateConfigMode.update_deleveraging_threshold_decrease_bps_per_day config
        config' e =
      written (KeepsProtocol config) borsh.u64 accept_anything source
        (λ value. record config { deleveraging_threshold_decrease_bps_per_day = value }) e
        (λ value. (refl, refl, refl, refl))
  liquidation_keeps UpdateConfigMode.update_reserve_status config config' e =
      written (KeepsProtocol config) borsh.u8 check_status source
        (λ value. record config { status = value }) e (λ value. (refl, refl, refl, refl))
  liquidation_keeps UpdateConfigMode.update_borrow_limit_outside_elevation_group config config' e =
      written (KeepsProtocol config) borsh.u64 accept_anything source
        (λ value. record config { borrow_limit_outside_elevation_group = value }) e
        (λ value. (refl, refl, refl, refl))
  liquidation_keeps UpdateConfigMode.update_borrow_limits_in_elevation_group_against_this_reserve
        config config' e =
      written (KeepsProtocol config) borsh.limits accept_anything source
        (λ value. record config { borrow_limit_against_this_collateral_in_elevation_group = value })
        e (λ value. (refl, refl, refl, refl))
  liquidation_keeps _ config config' e = cc

  flags_keeps :
      (mode : UpdateConfigMode) (config config' : ReserveConfig)
      → is_update_reserve_config_mode_global_admin_only mode ≡ false
      → update_flags borsh mode config source ≡ some (ok config')
      → KeepsProtocol config config'
  unfolding update_flags is_update_reserve_config_mode_global_admin_only
  flags_keeps UpdateConfigMode.update_disable_usage_as_collateral_outside_emode config config' h e =
      written (KeepsProtocol config) borsh.u8 check_bool source
        (λ value. record config { disable_usage_as_coll_outside_emode = value }) e
        (λ value. (refl, refl, refl, refl))
  flags_keeps UpdateConfigMode.update_block_borrowing_above_utilization_pct config config' h e =
      written (KeepsProtocol config) borsh.u8 check_valid_pct source
        (λ value. record config { utilization_limit_block_borrowing_above_pct = value }) e
        (λ value. (refl, refl, refl, refl))
  flags_keeps UpdateConfigMode.update_host_fixed_interest_rate_bps config config' h e = cc
  flags_keeps UpdateConfigMode.update_autodeleverage_enabled config config' h e =
      written (KeepsProtocol config) borsh.u8 check_bool source
        (λ value. record config { autodeleverage_enabled = value }) e
        (λ value. (refl, refl, refl, refl))
  flags_keeps UpdateConfigMode.update_deleveraging_bonus_increase_bps_per_day config config' h e =
      written (KeepsProtocol config) borsh.u64 accept_anything source
        (λ value. record config { deleveraging_bonus_increase_bps_per_day = value }) e
        (λ value. (refl, refl, refl, refl))
  flags_keeps _ config config' h e = cc

  structures_keep :
      (mode : UpdateConfigMode) (config config' : ReserveConfig)
      → update_structures borsh mode config source ≡ some (ok config')
      → KeepsProtocol config config'
  unfolding update_structures update_entire
  structures_keep UpdateConfigMode.update_borrow_rate_curve config config' e =
      written (KeepsProtocol config) borsh.curve accept_anything source
        (λ value. record config { borrow_rate_curve = value }) e (λ value. (refl, refl, refl, refl))
  structures_keep UpdateConfigMode.update_entire_reserve_config config config' e =
      written (KeepsProtocol config) borsh.config accept_anything source
        (λ value. record value {
          protocol_take_rate_pct = config.protocol_take_rate_pct;
          protocol_liquidation_fee_pct = config.protocol_liquidation_fee_pct;
          host_fixed_interest_rate_bps = config.host_fixed_interest_rate_bps;
          protocol_order_execution_fee_pct = config.protocol_order_execution_fee_pct;
        })
        e (λ value. (refl, refl, refl, refl))
  structures_keep UpdateConfigMode.update_debt_withdrawal_cap config config' e =
      of_bind (KeepsProtocol config) (update_cap borsh config.debt_withdrawal_cap source)
        (λ caps. record config { debt_withdrawal_cap = caps }) e (λ caps. (refl, refl, refl, refl))
  structures_keep UpdateConfigMode.update_deposit_withdrawal_cap config config' e =
      of_bind (KeepsProtocol config) (update_cap borsh config.deposit_withdrawal_cap source)
        (λ caps. record config { deposit_withdrawal_cap = caps }) e
        (λ caps. (refl, refl, refl, refl))
  structures_keep _ config config' e = cc

  config_keeps :
      (mode : UpdateConfigMode) (config config' : ReserveConfig)
      → is_update_reserve_config_mode_global_admin_only mode ≡ false
      → update_config borsh mode config source ≡ some (ok config')
      → KeepsProtocol config config'
  unfolding update_config
  config_keeps mode config config' h e =
      either (KeepsProtocol config config') (risk_keeps mode config config' h)
        (λ e₁.
          either (KeepsProtocol config config') (in_info config config' _)
            (λ e₂.
              either (KeepsProtocol config config') (structures_keep mode config config')
                (λ e₃.
                  either (KeepsProtocol config config') (liquidation_keeps mode config config')
                    (flags_keeps mode config config' h) e₃)
                e₂)
            e₁)
        e

  farm_keeps :
      (mode : UpdateConfigMode) (r r' : Reserve)
      → update_farm borsh mode r source ≡ some (ok r')
      → KeepsProtocol r.config r'.config
  unfolding update_farm
  farm_keeps UpdateConfigMode.update_farm_collateral r r' e =
      written (λ h. KeepsProtocol r.config h.config) borsh.key accept_anything source
        (λ value. record r { farm_collateral = value }) e (λ value. (refl, refl, refl, refl))
  farm_keeps UpdateConfigMode.update_farm_debt r r' e =
      written (λ h. KeepsProtocol r.config h.config) borsh.key accept_anything source
        (λ value. record r { farm_debt = value }) e (λ value. (refl, refl, refl, refl))
  farm_keeps _ r r' e = cc

final :
    (r' updated : Reserve)
    → ok (record updated { last_update = mark_stale updated.last_update }) ≡ ok r'
    → r'.config ≡ updated.config
final r' updated e =
    let r_eq : r' ≡ record updated { last_update = mark_stale updated.last_update } = cc in
    ap (λ x. x.config) r_eq

-- Where the owner of the market is not the administrator, an update that succeeds and whose required signer
-- is the owner leaves four fields of the configuration as they were, also where it replaces the whole
-- configuration: the protocol's take rate, its liquidation fee, its order execution fee and the host's
-- fixed interest rate. Nothing is stated of the fees of borrows and flash loans.
pub update_reserve_config-KeepsProtocol :
    (borsh : Borsh) (r r' : Reserve) (mode : UpdateConfigMode) (source : List ℕ) (owner admin : ℕ)
    → owner ≢ admin
    → allowed_signer_update_reserve_config mode owner admin ≡ owner
    → update_reserve_config borsh r mode source ≡ ok r'
    → KeepsProtocol r.config r'.config
unfolding update_reserve_config allowed_signer_update_reserve_config
update_reserve_config-KeepsProtocol borsh r r' mode source owner admin ne signer e =
    let not_admin : is_update_reserve_config_mode_global_admin_only mode ≡ false =
      elim (Bool-cases (is_update_reserve_config_mode_global_admin_only mode)) [
        | inl only ↦ absurd (ne (sym (if_true _ only signer)))
        | inr free ↦ free
      ] in
    let (result, result_eq, e₁) = >>=-eq-ok (unwrap _) _ e in
    let (updated, updated_eq, e₂) = >>=-eq-ok result _ e₁ in
    let found : or_next (in_config r (update_config borsh mode r.config source))
          (update_farm borsh mode r source)
        ≡ some (ok updated) =
      unwrap-eq-ok _ _ result_eq ∙ ap some updated_eq in
    let r_eq : r'.config ≡ updated.config = final r' updated e₂ in
    rw r_eq (
      either (KeepsProtocol r.config updated.config)
        (λ e₃.
          let (config, config_eq, same) = in_reserve r updated _ e₃ in
          rw same (config_keeps borsh source mode r.config config not_admin config_eq))
        (farm_keeps borsh source mode r updated) found)
