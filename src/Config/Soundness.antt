-- ===== src/Config/Soundness.antt =====
-- What a configuration that `validate_reserve_config_integrity` accepts satisfies
-- (lending_operations.rs).
use kamino_lending.Config.Integrity.{
  check_bonuses, check_collateral_group, check_config_group, check_config_groups,
  check_deleveraging, check_ratios, check_tier_and_limits, require,
  validate_reserve_config_integrity,
}
use kamino_lending.Base.{
  >>=-eq-ok, Bool, Bool-cases, LendingError, List, Option, Result, [], after_guard, arith,
  eq_true→eq, false, get_elem?, if_false, if◌then◌else◌, inl, inr, leb, ltb, not, ok, refl, some,
  suc, true, zero, ℕ, ◌<◌, ◌==◌, ◌>>◌, ◌||◌, ◌∷◌, ◌≡◌, ◌≤◌, ◌⊎◌,
}
use kamino_lending.Crates.{checked, one}
use kamino_lending.BorrowRateCurve.{validate}
use kamino_lending.Reserve.{Pubkey, ReserveConfig, is_token_info_valid, is_twap_config_valid}
use kamino_lending.LendingMarket.{ElevationGroup, LendingMarket, get_elevation_group}

-- A reserve's own ratios, bonuses and fees.
pub record IsSound (config : ReserveConfig) : Type 0 where
  pub ltv_lt : config.loan_to_value_pct < 100
  pub ltv_le : config.loan_to_value_pct ≤ config.liquidation_threshold_pct
  pub threshold_le : config.liquidation_threshold_pct ≤ 100
  pub min_bonus_le : config.min_liquidation_bonus_bps ≤ config.max_liquidation_bonus_bps
  pub max_bonus_le : config.max_liquidation_bonus_bps ≤ 10_000
  pub borrow_fee_lt : config.fees.borrow_fee_sf < one
  pub take_rate_le : config.protocol_take_rate_pct ≤ 100
  pub liquidation_fee_le : config.protocol_liquidation_fee_pct ≤ 100
  pub order_fee_le : config.protocol_order_execution_fee_pct ≤ 100
  pub borrow_factor_ge : 100 ≤ config.borrow_factor_pct
  pub utilization_limit_le : config.utilization_limit_block_borrowing_above_pct ≤ 100
  pub curve_valid : validate config.borrow_rate_curve ≡ ok tt

-- A group in which a reserve is collateral is nowhere stricter than the reserve itself.
pub record IsLooser (config : ReserveConfig) (g : ElevationGroup) : Type 0 where
  pub bonus_le : g.max_liquidation_bonus_bps ≤ config.max_liquidation_bonus_bps
  pub group_ltv_ge : config.loan_to_value_pct ≤ g.ltv_pct
  pub group_threshold_ge : config.liquidation_threshold_pct ≤ g.liquidation_threshold_pct
  pub group_ltv_le : g.ltv_pct ≤ g.liquidation_threshold_pct
  pub group_threshold_le : g.liquidation_threshold_pct ≤ 100

required :
    {b : Bool} (rest : Result (Unit {0}))
    → (require b >> rest) ≡ ok tt
    → (b ≡ true) × (rest ≡ ok tt)
required {b = true} rest e = (refl, e)
required {b = false} rest e = cc

lt_of_not-leb : (a b : ℕ) → not (leb a b) ≡ true → b < a
lt_of_not-leb a b h = ground arith

le_of_not-ltb : (a b : ℕ) → not (ltb a b) ≡ true → b ≤ a
le_of_not-ltb a b h = ground arith

not_either : (a b c d : ℕ) → not (ltb a b || ltb c d) ≡ true → (b ≤ a) × (d ≤ c)
not_either a b c d h = ground arith

last_required : (b : Bool) → require b ≡ ok tt → b ≡ true
last_required true e = refl
last_required false e = cc

ratios_lem :
    (config : ReserveConfig)
    → check_ratios config ≡ ok tt
    → (config.loan_to_value_pct < 100)
      × (config.loan_to_value_pct ≤ config.liquidation_threshold_pct)
      × (config.liquidation_threshold_pct ≤ 100)
      × (config.max_liquidation_bonus_bps ≤ 10_000)
      × (config.fees.borrow_fee_sf < one)
      × (config.protocol_take_rate_pct ≤ 100)
      × (config.protocol_liquidation_fee_pct ≤ 100)
      × (config.protocol_order_execution_fee_pct ≤ 100)
unfolding check_ratios
ratios_lem config e =
    let (_, e₁) = required _ e in
    let (ltv, e₂) = required _ e₁ in
    let (bonus, e₃) = required _ e₂ in
    let (threshold, e₄) = required _ e₃ in
    let (fee, e₅) = required _ e₄ in
    let (liquidation_fee, e₆) = required _ e₅ in
    let (order_fee, e₇) = required _ e₆ in
    let take = last_required _ e₇ in
    let (low, high) =
      not_either config.liquidation_threshold_pct config.loan_to_value_pct 100
        config.liquidation_threshold_pct threshold in
    (
      lt_of_not-leb 100 config.loan_to_value_pct ltv,
      low,
      high,
      le_of_not-ltb 10_000 config.max_liquidation_bonus_bps bonus,
      lt_of_not-leb one config.fees.borrow_fee_sf fee,
      le_of_not-ltb 100 config.protocol_take_rate_pct take,
      le_of_not-ltb 100 config.protocol_liquidation_fee_pct liquidation_fee,
      le_of_not-ltb 100 config.protocol_order_execution_fee_pct order_fee,
    )

bonuses_lem :
    (config : ReserveConfig)
    → check_bonuses config ≡ ok tt
    → (config.min_liquidation_bonus_bps ≤ config.max_liquidation_bonus_bps)
      × (100 ≤ config.borrow_factor_pct)
unfolding check_bonuses
bonuses_lem config e =
    let (_, e₁) = required _ e in
    let (bonus, e₂) = required _ e₁ in
    (
      le_of_not-ltb config.max_liquidation_bonus_bps config.min_liquidation_bonus_bps bonus,
      le_of_not-ltb config.borrow_factor_pct 100 (last_required _ e₂),
    )

-- An accepted configuration has an LTV below 100 % that is at most its liquidation threshold, and that at
-- most 100 %; a minimal liquidation bonus of at most the maximal one, and that of at most 10,000 basis
-- points; a borrow fee below 100 %; a take rate, a liquidation fee, an order execution fee and a utilization
-- limit for borrows of at most 100 %; a borrow factor of at least 100 %; and a valid borrow rate curve.
pub validate_reserve_config_integrity-IsSound :
    (config : ReserveConfig) (market : LendingMarket) (address : Pubkey)
    → validate_reserve_config_integrity config market address ≡ ok tt
    → IsSound config
unfolding validate_reserve_config_integrity
validate_reserve_config_integrity-IsSound config market address e =
    let (_, ratios, e₁) = >>=-eq-ok (check_ratios config) _ e in
    let (_, e₂) =
      after_guard {b = is_token_info_valid config.token_info} LendingError.invalid_oracle_config _
        e₁ in
    let (_, e₃) =
      after_guard {b = is_twap_config_valid config.token_info} LendingError.invalid_twap_config _
        e₂ in
    let (_, bonuses, e₄) = >>=-eq-ok (check_bonuses config) _ e₃ in
    let (_, _, e₅) = >>=-eq-ok (check_deleveraging config) _ e₄ in
    let (_, _, e₆) = >>=-eq-ok (check_tier_and_limits config) _ e₅ in
    let (_, _, e₇) =
      >>=-eq-ok (check_config_groups config market address config.elevation_groups) _ e₆ in
    let (limit, e₈) = required _ e₇ in
    let (a, b, c, d, f, g, h, i) = ratios_lem config ratios in
    let (j, k) = bonuses_lem config bonuses in
    record {
      ltv_lt = a;
      ltv_le = b;
      threshold_le = c;
      max_bonus_le = d;
      borrow_fee_lt = f;
      take_rate_le = g;
      liquidation_fee_le = h;
      order_fee_le = i;
      min_bonus_le = j;
      borrow_factor_ge = k;
      utilization_limit_le =
          le_of_not-ltb 100 config.utilization_limit_block_borrowing_above_pct limit;
      curve_valid = e₈;
    }

looser_lem :
    (config : ReserveConfig) (g : ElevationGroup)
    → check_collateral_group config g ≡ ok tt
    → IsLooser config g
unfolding check_collateral_group
looser_lem config g e =
    let (bonus, e₁) = required _ e in
    let (threshold, e₂) = required _ e₁ in
    let (ltv, e₃) = required _ e₂ in
    let (order, e₄) = required _ e₃ in
    record {
      bonus_le = le_of_not-ltb config.max_liquidation_bonus_bps g.max_liquidation_bonus_bps bonus;
      group_threshold_ge =
          le_of_not-ltb g.liquidation_threshold_pct config.liquidation_threshold_pct threshold;
      group_ltv_ge = le_of_not-ltb g.ltv_pct config.loan_to_value_pct ltv;
      group_ltv_le = le_of_not-ltb g.liquidation_threshold_pct g.ltv_pct order;
      group_threshold_le = le_of_not-ltb 100 g.liquidation_threshold_pct (last_required _ e₄);
    }

group_lem :
    (config : ReserveConfig) (address : Pubkey) (g : ElevationGroup)
    → check_config_group config address (some g) ≡ ok tt
    → (g.debt_reserve ≡ address) ⊎ IsLooser config g
unfolding check_config_group
group_lem config address g e =
    let (_, e₁) = required {b = not (g.debt_reserve == 0)} _ e in
    elim (Bool-cases (g.debt_reserve == address)) [
      | inl same ↦ inl (eq_true→eq g.debt_reserve address same)
      | inr other ↦
          let (_, checked_group, _) =
            >>=-eq-ok (if g.debt_reserve == address then ok tt else check_collateral_group config g)
              _ e₁ in
          inr (looser_lem config g (if_false _ other checked_group))
    ]

checked_at :
    (config : ReserveConfig) (address x id : ℕ) (market : LendingMarket)
    (group : Option ElevationGroup) (g : ElevationGroup)
    → x ≡ id
    → get_elevation_group x market ≡ ok group
    → get_elevation_group id market ≡ ok (some g)
    → check_config_group config address group ≡ ok tt
    → check_config_group config address (some g) ≡ ok tt
checked_at config address x id market group g same e found checked =
    let key : ok group ≡ ok (some g) = cc in let same_group : group ≡ some g = cc in cc

groups_lem :
    (config : ReserveConfig) (market : LendingMarket) (address : Pubkey) (ids : List ℕ) (i id : ℕ)
    (g : ElevationGroup)
    → check_config_groups config market address ids ≡ ok tt
    → get_elem? ids i ≡ some id
    → get_elevation_group id market ≡ ok (some g)
    → (g.debt_reserve ≡ address) ⊎ IsLooser config g
unfolding check_config_groups
groups_lem config market address [] i id g e listed found = cc
groups_lem config market address (x ∷ ids) zero id g e listed found =
    let (group, group_eq, e₁) = >>=-eq-ok (get_elevation_group x market) _ e in
    let (_, checked_group, e₂) = >>=-eq-ok (check_config_group config address group) _ e₁ in
    group_lem config address g
      (checked_at config address x id market group g (cc) group_eq found checked_group)
groups_lem config market address (x ∷ ids) (suc i) id g e listed found =
    let (group, _, e₁) = >>=-eq-ok (get_elevation_group x market) _ e in
    let (_, _, e₂) = >>=-eq-ok (check_config_group config address group) _ e₁ in
    groups_lem config market address ids i id g e₂ listed found

-- Each elevation group that an accepted configuration names is the reserve's own, in which it is the
-- debt, or one in which it is collateral on terms no stricter than its own: an LTV and a threshold
-- no lower, and a bonus no higher.
pub validate_reserve_config_integrity-IsLooser :
    (config : ReserveConfig) (market : LendingMarket) (address : Pubkey) (i id : ℕ)
    (g : ElevationGroup)
    → validate_reserve_config_integrity config market address ≡ ok tt
    → get_elem? config.elevation_groups i ≡ some id
    → get_elevation_group id market ≡ ok (some g)
    → (g.debt_reserve ≡ address) ⊎ IsLooser config g
unfolding validate_reserve_config_integrity
validate_reserve_config_integrity-IsLooser config market address i id g e listed found =
    let (_, _, e₁) = >>=-eq-ok (check_ratios config) _ e in
    let (_, e₂) =
      after_guard {b = is_token_info_valid config.token_info} LendingError.invalid_oracle_config _
        e₁ in
    let (_, e₃) =
      after_guard {b = is_twap_config_valid config.token_info} LendingError.invalid_twap_config _
        e₂ in
    let (_, _, e₄) = >>=-eq-ok (check_bonuses config) _ e₃ in
    let (_, _, e₅) = >>=-eq-ok (check_deleveraging config) _ e₄ in
    let (_, _, e₆) = >>=-eq-ok (check_tier_and_limits config) _ e₅ in
    let (_, groups, _) =
      >>=-eq-ok (check_config_groups config market address config.elevation_groups) _ e₆ in
    groups_lem config market address config.elevation_groups i id g groups listed found
