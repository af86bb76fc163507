-- ===== src/Liquidation/Justified.antt =====
-- What is the case of an obligation that is found liquidatable (state/liquidation_operations.rs).
use kamino_lending.Liquidation.Individual.{
  IsJustified, individual_lem, is, transport-IsJustified, ltv_lem, none-some, or_else_lem,
}
use kamino_lending.Liquidation.MarketWide.{market_wide_lem}
use kamino_lending.Liquidation.Bonus.{calculate_order_execution_bonus_rate}
use kamino_lending.Liquidation.Calculate.{get_liquidation_params, is_ltv_exceeded, is_order}
use kamino_lending.Liquidation.Reasons.{
  LiquidationCheckInputs, LiquidationParams, check_individual_autodeleverage_obligation,
  check_liquidate_obligation, check_market_wide_autodeleverage_obligation,
  check_obligation_order_execution, or_else, order_terms,
}
use kamino_lending.Base.{
  >>=-eq-ok, Bool, Bool-cases, LendingError, Option, after_guard, ap, false, get_elem?, if_false,
  if_true, inl, inr, none, not, ok, ok_injective, ok_or, refl, some, sym, true, unwrap, ℕ, ◌&&◌,
  ◌||◌, ◌∙◌, ◌≡◌, ◌⊎◌,
}
use kamino_lending.Crates.{Crates}
use kamino_lending.Fraction.{Fraction}
use kamino_lending.LendingMarket.{is_obligation_order_execution_enabled}
use kamino_lending.Obligation.{loan_to_value, no_bf_loan_to_value}
use kamino_lending.Orders.{find_applicable_obligation_order}

factor_lem :
    (exceeded ordered highest lowest : Bool)
    → not (exceeded && not highest) ≡ true
    → not ((exceeded || ordered) && not lowest) ≡ true
    → (exceeded ≡ false) ⊎ ((highest ≡ true) × (lowest ≡ true))
factor_lem false ordered highest lowest h h' = inl refl
factor_lem true ordered true true h h' = inr (refl, refl)
factor_lem true ordered false lowest h h' = cc
factor_lem true ordered true false h h' = cc

order_guard :
    (exceeded ordered lowest : Bool)
    → not ((exceeded || ordered) && not lowest) ≡ true
    → (ordered ≡ false) ⊎ (lowest ≡ true)
order_guard exceeded ordered true h = inr refl
order_guard exceeded false false h = inl refl
order_guard true true false h = cc
order_guard false true false h = cc

module _ ⦃c : Crates⦄ where
  order_lem :
      (inputs : LiquidationCheckInputs) (p : LiquidationParams) (hit : Option (ℕ × Fraction))
      → find_applicable_obligation_order inputs.collateral_reserve inputs.debt_reserve
          inputs.obligation
        ≡ ok hit
      → order_terms inputs hit ≡ ok (some p)
      → IsJustified inputs p
  unfolding order_terms
  order_lem inputs p none found e = absurd (none-some e)
  order_lem inputs p (some hit) found e =
      let o = inputs.obligation in
      let (order, _, e₁) = >>=-eq-ok (unwrap (get_elem? o.orders hit.0)) _ e in
      elim (Bool-cases (is_obligation_order_execution_enabled inputs.lending_market)) [
        | inr off ↦ absurd (none-some (if_true _ (ap not off) e₁))
        | inl on ↦
            let (ltv, ltv_eq, e₂) = >>=-eq-ok (loan_to_value o) _ (if_false _ (ap not on) e₁) in
            let (no_bf, _, e₃) = >>=-eq-ok (no_bf_loan_to_value o) _ e₂ in
            let (bonus, _, e₄) =
              >>=-eq-ok (calculate_order_execution_bonus_rate order hit.1 no_bf) _ e₃ in
            transport-IsJustified (is e₄) (record { ltv_eq = ltv_eq; holds = (on, hit.1, found) })
      ]

  execution_lem :
      (inputs : LiquidationCheckInputs) (p : LiquidationParams)
      → check_obligation_order_execution inputs ≡ ok (some p)
      → IsJustified inputs p
  unfolding check_obligation_order_execution
  execution_lem inputs p e =
      let (hit, found, e₁) =
        >>=-eq-ok
          (find_applicable_obligation_order inputs.collateral_reserve inputs.debt_reserve
            inputs.obligation)
          _ e in
      order_lem inputs p hit found e₁

  found_lem :
      (found : Option LiquidationParams) (p : LiquidationParams)
      → ok_or found LendingError.obligation_healthy ≡ ok p
      → found ≡ some p
  found_lem none p e = cc
  found_lem (some q) p e = ap some (ok_injective e)

  -- An obligation is only liquidated for a reason that holds of it. Either its LTV has reached its limit. Or,
  -- in a market with auto-deleveraging, it is marked, its margin call period is set and over, and its LTV is
  -- above its target. Or, in such a market, auto-deleveraging is enabled for a reserve of it, the deposit
  -- limit of the collateral or the borrow limit of the debt is crossed and the crossing stamped, the
  -- reserve's margin call period is over since, and the LTV has reached the threshold of the days after it.
  -- Or orders are executed in the market and one of its own applies. A breach of the LTV is only cleared on the
  -- debt of the highest borrow factor and the collateral of the lowest liquidation LTV, and an order on
  -- the latter.
  pub get_liquidation_params-IsJustified :
      (inputs : LiquidationCheckInputs) (highest lowest : Bool) (p : LiquidationParams)
      → get_liquidation_params inputs highest lowest ≡ ok p
      → IsJustified inputs p
        × ((is_ltv_exceeded p.liquidation_reason ≡ false) ⊎ ((highest ≡ true) × (lowest ≡ true)))
        × ((is_order p.liquidation_reason ≡ false) ⊎ (lowest ≡ true))
  unfolding get_liquidation_params
  get_liquidation_params-IsJustified inputs highest lowest p e =
      let first = check_liquidate_obligation inputs in
      let second = check_individual_autodeleverage_obligation inputs in
      let third = check_market_wide_autodeleverage_obligation inputs in
      let fourth = check_obligation_order_execution inputs in
      let (found, found_eq, e₁) =
        >>=-eq-ok (or_else (or_else (or_else first second) third) fourth) _ e in
      let (q, q_eq, e₂) = >>=-eq-ok (ok_or found LendingError.obligation_healthy) _ e₁ in
      let (by_factor, e₃) =
        after_guard {b = not (is_ltv_exceeded q.liquidation_reason && not highest)}
          LendingError.liquidation_borrow_factor_priority _ e₂ in
      let (by_ltv, e₄) =
        after_guard
          {b = not
            ((is_ltv_exceeded q.liquidation_reason || is_order q.liquidation_reason) && not lowest)}
          LendingError.liquidation_lowest_liquidation_ltv_priority _ e₃ in
      let same : q ≡ p = ok_injective e₄ in
      let some_q : or_else (or_else (or_else first second) third) fourth ≡ ok (some q) =
        found_eq ∙ ap ok (found_lem found q q_eq) in
      let justified : IsJustified inputs q =
        elim (or_else_lem (or_else (or_else first second) third) fourth q some_q) [
          | inr by_order ↦ execution_lem inputs q by_order
          | inl rest ↦ elim (or_else_lem (or_else first second) third q rest) [
            | inr by_market ↦ market_wide_lem inputs q by_market
            | inl rest' ↦ elim (or_else_lem first second q rest') [
              | inl by_ltv' ↦ ltv_lem inputs q by_ltv'
              | inr by_mark ↦ individual_lem inputs q by_mark
            ]
          ]
        ] in
      rw (sym same)
        (justified, factor_lem _ _ highest lowest by_factor by_ltv, order_guard _ _ lowest by_ltv)
