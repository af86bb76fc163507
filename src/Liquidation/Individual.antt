-- ===== src/Liquidation/Individual.antt =====
-- The reasons for a liquidation, what they say of an obligation, and the case of the first two of them
-- (state/liquidation_operations.rs).
use kamino_lending.Liquidation.Defs.{LiquidationReason, get_secs_since_deleveraging_started}
use kamino_lending.Liquidation.Bonus.{
  calculate_autodeleverage_bonus_rate, calculate_autodeleverage_threshold,
  calculate_liquidation_bonus, to_days_fractional,
}
use kamino_lending.Liquidation.Reasons.{
  LiquidationCheckInputs, LiquidationParams, check_individual_autodeleverage_obligation,
  check_liquidate_obligation, get_emode_max_liquidation_bonus, individual_terms, max_allowed_ltv_of,
  or_else, select_config,
}
use kamino_lending.Base.{
  >>=-eq-ok, Bool, Bool-cases, Option, Result, ap, arith, err, eq_false→ne, if_false, refl, ◌-◌,
  ◌≢◌, if_true, inl, inr, leb, none, not, ok, ok_injective, panic, some, sym, true, ℕ, ◌<◌, ◌==◌,
  ◌≡◌, ◌≤◌, ◌⊎◌,
}
use kamino_lending.Crates.{Crates}
use kamino_lending.Fraction.{Fraction, from_percent}
use kamino_lending.Reserve.{
  Reserve, borrow_limit_crossed, deposit_limit_crossed, is_autodeleverage_enabled,
}
use kamino_lending.LendingMarket.{
  is_market_autodeleverage_enabled, is_obligation_order_execution_enabled,
}
use kamino_lending.Obligation.{is_marked_for_deleveraging, loan_to_value, no_bf_loan_to_value}
use kamino_lending.Orders.{find_applicable_obligation_order}

pub started_after :
    (period since secs : ℕ)
    → get_secs_since_deleveraging_started period since ≡ some secs
    → (period ≤ since) × (secs ≡ since - period)
unfolding get_secs_since_deleveraging_started
started_after period since secs e = ground arith

module _ ⦃c : Crates⦄ where
  -- A reserve that is being auto-deleveraged: one of its limits is crossed and the crossing is stamped,
  -- its margin call period is over, and the LTV has reached what the threshold has fallen to since.
  pub record IsDeleveraged (r : Reserve) (limit_crossed : Result Bool) (stamp timestamp ltv : ℕ)
      : Type 0 where
    pub enabled : is_autodeleverage_enabled r.config ≡ true
    pub is_crossed : limit_crossed ≡ ok true
    pub is_stamped : stamp ≢ 0
    pub is_called : r.config.deleveraging_margin_call_period_secs ≤ timestamp - stamp
    pub days : Fraction
    pub days_eq :
        to_days_fractional (timestamp - stamp - r.config.deleveraging_margin_call_period_secs)
        ≡ ok days
    pub reached : Fraction
    pub reached_eq : calculate_autodeleverage_threshold r days ≡ ok reached
    pub reached_le : reached ≤ ltv

  -- What each reason says of the obligation, the market and the two reserves.
  abbrev pub Holds : LiquidationCheckInputs → Fraction → LiquidationReason → Type 0
  Holds inputs ltv LiquidationReason.ltv_exceeded =
      (most : Fraction) × (max_allowed_ltv_of inputs.obligation
          inputs.max_allowed_ltv_override_pct_opt
        ≡ ok most)
      × (most ≤ ltv)
  Holds inputs ltv LiquidationReason.individual_deleveraging =
      (is_marked_for_deleveraging inputs.obligation ≡ true)
      × (is_market_autodeleverage_enabled inputs.lending_market ≡ true)
      × (inputs.lending_market.individual_autodeleverage_margin_call_period_secs ≢ 0)
      × (inputs.lending_market.individual_autodeleverage_margin_call_period_secs
          ≤ inputs.timestamp - inputs.obligation.autodeleverage_margin_call_started_timestamp)
      × (target : Fraction) × (from_percent inputs.obligation.autodeleverage_target_ltv_pct
          ≡ ok target)
      × (target < ltv)
  Holds inputs ltv LiquidationReason.market_wide_deleveraging =
      (is_market_autodeleverage_enabled inputs.lending_market ≡ true)
      × (IsDeleveraged inputs.collateral_reserve (deposit_limit_crossed inputs.collateral_reserve)
            inputs.collateral_reserve.liquidity.deposit_limit_crossed_timestamp inputs.timestamp ltv
          ⊎ IsDeleveraged inputs.debt_reserve (borrow_limit_crossed inputs.debt_reserve)
              inputs.debt_reserve.liquidity.borrow_limit_crossed_timestamp inputs.timestamp ltv)
  Holds inputs ltv (LiquidationReason.obligation_order i) =
      (is_obligation_order_execution_enabled inputs.lending_market ≡ true)
      × (distance : Fraction) × (find_applicable_obligation_order inputs.collateral_reserve
            inputs.debt_reserve inputs.obligation
          ≡ ok (some (i, distance)))

  pub record IsJustified (inputs : LiquidationCheckInputs) (p : LiquidationParams) : Type 0 where
    pub ltv_eq : loan_to_value inputs.obligation ≡ ok p.user_ltv
    pub holds : Holds inputs p.user_ltv p.liquidation_reason

  pub or_else_lem :
      (first second : Result (Option LiquidationParams)) (p : LiquidationParams)
      → or_else first second ≡ ok (some p)
      → (first ≡ ok (some p)) ⊎ (second ≡ ok (some p))
  or_else_lem panic second p e = cc
  or_else_lem (err code) second p e = cc
  or_else_lem (ok none) second p e = inr e
  or_else_lem (ok (some q)) second p e = inl e

  pub none-some :
      {p : LiquidationParams}
      → ◌≡◌ {A = Result (Option LiquidationParams)} (ok none) (ok (some p))
      → ⊥
  none-some e = cc

  pub is :
      {p q : LiquidationParams}
      → ◌≡◌ {A = Result (Option LiquidationParams)} (ok (some p)) (ok (some q))
      → p ≡ q
  is e = let same = ok_injective e in cc

  pub transport-IsJustified :
      {inputs : LiquidationCheckInputs} {p q : LiquidationParams}
      → p ≡ q
      → IsJustified inputs p
      → IsJustified inputs q
  transport-IsJustified e h = rw (sym e) h

  pub ltv_lem :
      (inputs : LiquidationCheckInputs) (p : LiquidationParams)
      → check_liquidate_obligation inputs ≡ ok (some p)
      → IsJustified inputs p
  unfolding check_liquidate_obligation
  ltv_lem inputs p e =
      let o = inputs.obligation in
      let (ltv, ltv_eq, e₁) = >>=-eq-ok (loan_to_value o) _ e in
      let (no_bf, _, e₂) = >>=-eq-ok (no_bf_loan_to_value o) _ e₁ in
      let (most, most_eq, e₃) =
        >>=-eq-ok (max_allowed_ltv_of o inputs.max_allowed_ltv_override_pct_opt) _ e₂ in
      elim (Bool-cases (leb most ltv)) [
        | inr below ↦ absurd (none-some (if_false _ below e₃))
        | inl above ↦
            let e₄ = if_true _ above e₃ in
            let (emode, _, e₅) =
              >>=-eq-ok
                (get_emode_max_liquidation_bonus inputs.lending_market
                  inputs.collateral_reserve.config inputs.debt_reserve.config o)
                _ e₄ in
            let (bonus, _, e₆) =
              >>=-eq-ok
                (calculate_liquidation_bonus inputs.collateral_reserve.config
                  inputs.debt_reserve.config most ltv no_bf emode)
                _ e₅ in
            transport-IsJustified (is e₆)
              (record { ltv_eq = ltv_eq; holds = (most, most_eq, ground arith) })
      ]

  started_lem :
      (inputs : LiquidationCheckInputs) (ltv : Fraction) (started : Option ℕ)
      (p : LiquidationParams)
      → individual_terms inputs ltv started ≡ ok (some p)
      → (p.user_ltv ≡ ltv)
        × (p.liquidation_reason ≡ LiquidationReason.individual_deleveraging)
        × (secs : ℕ) × (started ≡ some secs)
  unfolding individual_terms
  started_lem inputs ltv none p e = absurd (none-some e)
  started_lem inputs ltv (some secs) p e =
      let o = inputs.obligation in
      let config = select_config inputs.collateral_reserve.config inputs.debt_reserve.config in
      let (days, _, e₁) = >>=-eq-ok (to_days_fractional secs) _ e in
      let (emode, _, e₂) =
        >>=-eq-ok
          (get_emode_max_liquidation_bonus inputs.lending_market inputs.collateral_reserve.config
            inputs.debt_reserve.config o)
          _ e₁ in
      let (no_bf, _, e₃) = >>=-eq-ok (no_bf_loan_to_value o) _ e₂ in
      let (bonus, _, e₄) =
        >>=-eq-ok
          (calculate_autodeleverage_bonus_rate config.deleveraging_bonus_increase_bps_per_day
            config.max_liquidation_bonus_bps emode days no_bf)
          _ e₃ in
      let p_eq = sym (is e₄) in
      (ap (λ x. x.user_ltv) p_eq, ap (λ x. x.liquidation_reason) p_eq, secs, refl)

  pub individual_lem :
      (inputs : LiquidationCheckInputs) (p : LiquidationParams)
      → check_individual_autodeleverage_obligation inputs ≡ ok (some p)
      → IsJustified inputs p
  unfolding check_individual_autodeleverage_obligation
  individual_lem inputs p e =
      let o = inputs.obligation in
      let market = inputs.lending_market in
      elim (Bool-cases (is_marked_for_deleveraging o)) [
        | inr free ↦ absurd (none-some (if_true _ (ap not free) e))
        | inl marked ↦
            let e₁ = if_false _ (ap not marked) e in
            elim (Bool-cases (is_market_autodeleverage_enabled market)) [
              | inr off ↦ absurd (none-some (if_true _ (ap not off) e₁))
              | inl on ↦
                  let e₂ = if_false _ (ap not on) e₁ in
                  elim (Bool-cases
                    (market.individual_autodeleverage_margin_call_period_secs == 0)) [
                      | inl unset ↦ absurd (none-some (if_true _ unset e₂))
                      | inr set_up ↦
                          let e₃ = if_false _ set_up e₂ in
                          let (ltv, ltv_eq, e₄) = >>=-eq-ok (loan_to_value o) _ e₃ in
                          let (target, target_eq, e₅) =
                            >>=-eq-ok (from_percent o.autodeleverage_target_ltv_pct) _ e₄ in
                          elim (Bool-cases (leb ltv target)) [
                            | inl low ↦ absurd (none-some (if_true _ low e₅))
                            | inr high ↦
                                let (same_ltv, same_reason, secs, started) =
                                  started_lem inputs ltv _ p (if_false _ high e₅) in
                                let (over, _) = started_after _ _ secs started in
                                record {
                                  ltv_eq = rw same_ltv ltv_eq;
                                  holds =
                                      rw (same_reason, same_ltv)
                                        (
                                          marked,
                                          on,
                                          eq_false→ne _ 0 set_up,
                                          over,
                                          target,
                                          target_eq,
                                          ground arith,
                                        );
                                }
                          ]
                    ]
            ]
      ]
