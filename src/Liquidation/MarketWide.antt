-- ===== src/Liquidation/MarketWide.antt =====
-- The case of an obligation whose reserve is being auto-deleveraged (state/liquidation_operations.rs).
use kamino_lending.Liquidation.Individual.{
  IsDeleveraged, IsJustified, started_after, is, none-some, or_else_lem,
}
use kamino_lending.Liquidation.Defs.{LiquidationReason}
use kamino_lending.Liquidation.Bonus.{
  calculate_autodeleverage_bonus_rate, calculate_autodeleverage_threshold, to_days_fractional,
}
use kamino_lending.Liquidation.Reasons.{
  LiquidationCheckInputs, LiquidationParams, borrow_side,
  check_market_wide_autodeleverage_obligation, deposit_side, get_autodeleverage_liquidation_params,
  secs_since_limit_crossed,
  get_secs_since_autodeleverage_obligation_collateral_deposit_limit_crossed,
  get_secs_since_autodeleverage_obligation_debt_borrow_limit_crossed, terms_if_started,
}
use kamino_lending.Base.{
  >>=-eq-ok, Result, arith, eq_false→ne, ◌==◌, ◌>>=◌, ◌-◌, ◌≢◌, ◌≤◌, Bool, Bool-cases, Option, ap,
  false, if_false, if_true, inl, inr, leb, none, not, ok, ok_injective, refl, some, sym, true,
  u16_max, ℕ, ◌∙◌, ◌≡◌,
}
use kamino_lending.Crates.{Crates}
use kamino_lending.Fraction.{Fraction}
use kamino_lending.Reserve.{
  Reserve, borrow_limit_crossed, deposit_limit_crossed, is_autodeleverage_enabled,
}
use kamino_lending.LendingMarket.{is_market_autodeleverage_enabled}
use kamino_lending.Obligation.{Obligation, loan_to_value, no_bf_loan_to_value}

module _ ⦃c : Crates⦄ where
  deleveraging_lem :
      (r : Reserve) (o : Obligation) (secs : Option ℕ) (p : LiquidationParams)
      → terms_if_started r o secs ≡ ok (some p)
      → (s : ℕ) × (secs ≡ some s)
        × (days reached : Fraction) × (to_days_fractional s ≡ ok days)
        × (calculate_autodeleverage_threshold r days ≡ ok reached)
        × (reached ≤ p.user_ltv)
        × (loan_to_value o ≡ ok p.user_ltv)
        × (p.liquidation_reason ≡ LiquidationReason.market_wide_deleveraging)
  unfolding terms_if_started get_autodeleverage_liquidation_params
  deleveraging_lem r o none p e = absurd (none-some e)
  deleveraging_lem r o (some secs) p e =
      let (days, days_eq, e₁) = >>=-eq-ok (to_days_fractional secs) _ e in
      let (threshold, threshold_eq, e₂) =
        >>=-eq-ok (calculate_autodeleverage_threshold r days) _ e₁ in
      let (ltv, ltv_eq, e₃) = >>=-eq-ok (loan_to_value o) _ e₂ in
      elim (Bool-cases (leb threshold ltv)) [
        | inr below ↦ absurd (none-some (if_false _ below e₃))
        | inl above ↦
            let e₄ = if_true _ above e₃ in
            let (no_bf, _, e₅) = >>=-eq-ok (no_bf_loan_to_value o) _ e₄ in
            let (bonus, _, e₆) =
              >>=-eq-ok
                (calculate_autodeleverage_bonus_rate
                  r.config.deleveraging_bonus_increase_bps_per_day
                  r.config.max_liquidation_bonus_bps u16_max days no_bf)
                _ e₅ in
            let p_eq = sym (is e₆) in
            let ltv_same = ap (λ x. x.user_ltv) p_eq in
            let high : threshold ≤ ltv = ground arith in
            (
              secs,
              refl,
              days,
              threshold,
              days_eq,
              threshold_eq,
              omega (arith, ltv_same, high),
              ltv_eq ∙ ap ok (sym ltv_same),
              ap (λ x. x.liquidation_reason) p_eq,
            )
      ]

  crossed_lem :
      (crossed : Bool) (stamp period timestamp secs : ℕ)
      → secs_since_limit_crossed crossed stamp period timestamp ≡ some secs
      → (crossed ≡ true)
        × (stamp ≢ 0)
        × (period ≤ timestamp - stamp)
        × (secs ≡ timestamp - stamp - period)
  unfolding secs_since_limit_crossed
  crossed_lem false stamp period timestamp secs e = cc
  crossed_lem true stamp period timestamp secs e = elim (Bool-cases (stamp == 0)) [
    | inl unset ↦ let e₁ = if_true _ unset e in cc
    | inr set_up ↦
        let (over, value) = started_after period (timestamp - stamp) secs (if_false _ set_up e) in
        (refl, eq_false→ne stamp 0 set_up, over, value)
  ]

  side_lem :
      (r : Reserve) (o : Obligation) (p : LiquidationParams) (limit_crossed : Result Bool)
      (stamp timestamp : ℕ)
      → is_autodeleverage_enabled r.config ≡ true
      → (limit_crossed >>= λ crossed. terms_if_started r o (
          secs_since_limit_crossed crossed stamp r.config.deleveraging_margin_call_period_secs
            timestamp))
        ≡ ok (some p)
      → IsDeleveraged r limit_crossed stamp timestamp p.user_ltv
        × (loan_to_value o ≡ ok p.user_ltv)
        × (p.liquidation_reason ≡ LiquidationReason.market_wide_deleveraging)
  side_lem r o p limit_crossed stamp timestamp on e =
      let (crossed, crossed_eq, e₁) = >>=-eq-ok limit_crossed _ e in
      let (s, s_eq, days, reached, days_eq, reached_eq, le, ltv_eq, reason) =
        deleveraging_lem r o _ p e₁ in
      let (is_so, stamped, over, value) =
        crossed_lem crossed stamp r.config.deleveraging_margin_call_period_secs timestamp s s_eq in
      (
        record {
          enabled = on;
          is_crossed = crossed_eq ∙ ap ok is_so;
          is_stamped = stamped;
          is_called = over;
          days = days;
          days_eq = rw value at days_eq;
          reached = reached;
          reached_eq = reached_eq;
          reached_le = le;
        },
        ltv_eq,
        reason,
      )

  deposit_secs_lem :
      (r : Reserve) (o : Obligation) (timestamp : ℕ) (p : LiquidationParams)
      → (get_secs_since_autodeleverage_obligation_collateral_deposit_limit_crossed r timestamp
          >>= λ secs. terms_if_started r o secs)
        ≡ ok (some p)
      → (deposit_limit_crossed r >>= λ crossed. terms_if_started r o (
          secs_since_limit_crossed crossed r.liquidity.deposit_limit_crossed_timestamp
            r.config.deleveraging_margin_call_period_secs timestamp))
        ≡ ok (some p)
  unfolding get_secs_since_autodeleverage_obligation_collateral_deposit_limit_crossed
  deposit_secs_lem r o timestamp p e =
      let (secs, secs_eq, e₁) =
        >>=-eq-ok
          (get_secs_since_autodeleverage_obligation_collateral_deposit_limit_crossed r timestamp) _
          e in
      let (crossed, crossed_eq, e₂) = >>=-eq-ok (deposit_limit_crossed r) _ secs_eq in
      rw (crossed_eq, ok_injective e₂) e₁

  deposit_side_lem :
      (inputs : LiquidationCheckInputs) (p : LiquidationParams)
      → deposit_side inputs ≡ ok (some p)
      → IsDeleveraged inputs.collateral_reserve
          (deposit_limit_crossed inputs.collateral_reserve)
          inputs.collateral_reserve.liquidity.deposit_limit_crossed_timestamp
          inputs.timestamp
          p.user_ltv
        × (loan_to_value inputs.obligation ≡ ok p.user_ltv)
        × (p.liquidation_reason ≡ LiquidationReason.market_wide_deleveraging)
  unfolding deposit_side
  deposit_side_lem inputs p e =
      let r = inputs.collateral_reserve in
      elim (Bool-cases (is_autodeleverage_enabled r.config)) [
        | inr off ↦ absurd (none-some (if_false _ off e))
        | inl on ↦
            side_lem r inputs.obligation p (deposit_limit_crossed r)
              r.liquidity.deposit_limit_crossed_timestamp inputs.timestamp on
              (deposit_secs_lem r inputs.obligation inputs.timestamp p (if_true _ on e))
      ]

  borrow_secs_lem :
      (r : Reserve) (o : Obligation) (timestamp : ℕ) (p : LiquidationParams)
      → (get_secs_since_autodeleverage_obligation_debt_borrow_limit_crossed r timestamp >>= λ secs.
          terms_if_started r o secs)
        ≡ ok (some p)
      → (borrow_limit_crossed r >>= λ crossed. terms_if_started r o (
          secs_since_limit_crossed crossed r.liquidity.borrow_limit_crossed_timestamp
            r.config.deleveraging_margin_call_period_secs timestamp))
        ≡ ok (some p)
  unfolding get_secs_since_autodeleverage_obligation_debt_borrow_limit_crossed
  borrow_secs_lem r o timestamp p e =
      let (secs, secs_eq, e₁) =
        >>=-eq-ok (get_secs_since_autodeleverage_obligation_debt_borrow_limit_crossed r timestamp) _
          e in
      let (crossed, crossed_eq, e₂) = >>=-eq-ok (borrow_limit_crossed r) _ secs_eq in
      rw (crossed_eq, ok_injective e₂) e₁

  borrow_side_lem :
      (inputs : LiquidationCheckInputs) (p : LiquidationParams)
      → borrow_side inputs ≡ ok (some p)
      → IsDeleveraged inputs.debt_reserve
          (borrow_limit_crossed inputs.debt_reserve)
          inputs.debt_reserve.liquidity.borrow_limit_crossed_timestamp
          inputs.timestamp
          p.user_ltv
        × (loan_to_value inputs.obligation ≡ ok p.user_ltv)
        × (p.liquidation_reason ≡ LiquidationReason.market_wide_deleveraging)
  unfolding borrow_side
  borrow_side_lem inputs p e =
      let r = inputs.debt_reserve in
      elim (Bool-cases (is_autodeleverage_enabled r.config)) [
        | inr off ↦ absurd (none-some (if_false _ off e))
        | inl on ↦
            side_lem r inputs.obligation p (borrow_limit_crossed r)
              r.liquidity.borrow_limit_crossed_timestamp inputs.timestamp on
              (borrow_secs_lem r inputs.obligation inputs.timestamp p (if_true _ on e))
      ]

  pub market_wide_lem :
      (inputs : LiquidationCheckInputs) (p : LiquidationParams)
      → check_market_wide_autodeleverage_obligation inputs ≡ ok (some p)
      → IsJustified inputs p
  unfolding check_market_wide_autodeleverage_obligation
  market_wide_lem inputs p e =
      elim (Bool-cases (is_market_autodeleverage_enabled inputs.lending_market)) [
        | inr off ↦ absurd (none-some (if_true _ (ap not off) e))
        | inl on ↦
            elim (or_else_lem (deposit_side inputs) (borrow_side inputs) p
              (if_false _ (ap not on) e)) [
                | inl first ↦
                    let (enabled, ltv_eq, reason) = deposit_side_lem inputs p first in
                    record { ltv_eq = ltv_eq; holds = rw reason (on, inl enabled) }
                | inr second ↦
                    let (enabled, ltv_eq, reason) = borrow_side_lem inputs p second in
                    record { ltv_eq = ltv_eq; holds = rw reason (on, inr enabled) }
              ]
      ]
