-- ===== src/Obligation/Limits.antt =====
-- What a user may still withdraw and borrow, and what an order still allows
-- (state/obligation.rs).
use kamino_lending.Base.{
  >>=-eq-ok, Bool-cases, arith, eq_false→ne, eq_true→eq, if_false, if_true, if◌then◌else◌, inl, inr,
  leb, ok, refl, some, suc, u128_max, unwrap-eq-ok, zero, ℕ, ◌*◌, ◌+◌, ◌-◌, ◌/◌, ◌<◌, ◌==◌, ◌>>=◌,
  ◌≡◌, ◌≢◌, ◌≤◌, ◌⊎◌,
}
use kamino_lending.Crates.{Crates, IsExact, last_div, one, step_checked}
use kamino_lending.Obligation.Positions.{ObligationCollateral}
use kamino_lending.Obligation.Orders.{
  ObligationOrder, OpportunityType, consume, consume_as, default_order, get_opportunity_type,
  opportunity_type_of,
}
use kamino_lending.Obligation.State.{LtvMaxWithdrawalCheck, Obligation}
use kamino_lending.Obligation.Values.{max_withdraw_value, withdraw_limit}
use native.Mathlib.Nat.{div-mul-le_self, lt-div-mul-add}

abbrev opportunity_byte : OpportunityType → ℕ
opportunity_byte OpportunityType.deleverage_single_debt_amount = 0
opportunity_byte OpportunityType.deleverage_all_debt = 1

opportunity_byte_lem :
    (n : ℕ) (kind : OpportunityType) → opportunity_type_of n ≡ some kind → n ≡ opportunity_byte kind
unfolding opportunity_type_of
opportunity_byte_lem zero OpportunityType.deleverage_single_debt_amount e = refl
opportunity_byte_lem zero OpportunityType.deleverage_all_debt e = cc
opportunity_byte_lem (suc zero) OpportunityType.deleverage_single_debt_amount e = cc
opportunity_byte_lem (suc zero) OpportunityType.deleverage_all_debt e = refl
opportunity_byte_lem (suc (suc n)) kind e = cc

module _ ⦃c : Crates⦄ (laws : IsExact c) where
  room_lem :
      (limit pct debt market_value v : ℕ)
      → (if leb limit debt
          then ok 0
          else (if pct == 0
              then ok market_value
              else (c.mul_int (c.saturating_sub limit debt) 100 >>= λ room. c.div_int room pct)))
        ≡ ok v
      → (limit ≤ debt) × (v ≡ 0)
        ⊎ (debt < limit) × (pct ≡ 0) × (v ≡ market_value)
        ⊎ (debt < limit)
          × (debt * 100 + v * pct ≤ limit * 100)
          × (limit * 100 < debt * 100 + (v + 1) * pct)
  room_lem limit pct debt market_value v e = elim (Bool-cases (leb limit debt)) [
    | inl reached ↦ let e₁ = if_true _ reached e in inl (ground arith)
    | inr below ↦
        let e₁ = if_false _ below e in
        let less : debt < limit = ground arith in
        elim (Bool-cases (pct == 0)) [
          | inl weightless ↦
              let e₂ = if_true _ weightless e₁ in
              inr (inl (less, eq_true→eq pct 0 weightless, ground arith))
          | inr weighed ↦
              let e₂ = if_false _ weighed e₁ in
              let (_, e₃) =
                step_checked _ (laws.mul_int_lem (c.saturating_sub limit debt) 100) e₂ in
              let (pos, v_eq) = last_div u128_max _ (laws.div_int_lem _ pct) e₃ in
              let v_eq' : v ≡ (limit - debt) * 100 / pct =
                rw (← laws.saturating_sub_lem limit debt) v_eq in
              let low = div-mul-le_self ((limit - debt) * 100) pct in
              let high = lt-div-mul-add {a = (limit - debt) * 100} pos in
              inr (
                inr
                  (less, rw v_eq' (omega (arith, low, less)), rw v_eq' (omega (arith, high, less))))
        ]
  ]

  -- The value that may be withdrawn, weighed by the percentage of the deposit, fits in the room
  -- between the debt and the limit, and a value one bit greater does not fit. There is nothing to
  -- withdraw where the debt has reached the limit, and a deposit of weight 0 may go whole.
  pub max_withdraw_value_lem :
      (o : Obligation) (t : ObligationCollateral) (ltv threshold : ℕ)
      (check : LtvMaxWithdrawalCheck) (v : ℕ)
      → max_withdraw_value o t ltv threshold check ≡ ok v
      → (let limit = (withdraw_limit o ltv threshold check).0 in
          let pct = (withdraw_limit o ltv threshold check).1 in
          let debt = o.borrow_factor_adjusted_debt_value_sf in
          (limit ≤ debt) × (v ≡ 0)
          ⊎ (debt < limit) × (pct ≡ 0) × (v ≡ t.market_value_sf)
          ⊎ (debt < limit)
            × (debt * 100 + v * pct ≤ limit * 100)
            × (limit * 100 < debt * 100 + (v + 1) * pct))
  unfolding max_withdraw_value
  max_withdraw_value_lem o t ltv threshold check v e =
      room_lem (withdraw_limit o ltv threshold check).0 (withdraw_limit o ltv threshold check).1
        o.borrow_factor_adjusted_debt_value_sf t.market_value_sf v e

  kind_lem :
      (order : ObligationOrder) (kind : OpportunityType)
      → get_opportunity_type order ≡ ok kind
      → order.opportunity_type ≡ opportunity_byte kind
  unfolding get_opportunity_type
  kind_lem order kind e = opportunity_byte_lem order.opportunity_type kind (unwrap-eq-ok _ kind e)

  consume_as_lem :
      (order order' : ObligationOrder) (n : ℕ) (kind : OpportunityType)
      → order.opportunity_type ≡ opportunity_byte kind
      → consume_as kind order n ≡ ok order'
      → (order.opportunity_type ≡ 1) × (order' ≡ order)
        ⊎ (order.opportunity_type ≡ 0)
          × (order.opportunity_parameter_sf ≤ n * one)
          × (order' ≡ default_order)
        ⊎ (order.opportunity_type ≡ 0)
          × (n * one < order.opportunity_parameter_sf)
          × (order' ≡ record order {
            opportunity_parameter_sf = order.opportunity_parameter_sf - n * one;
          })
  unfolding consume_as
  consume_as_lem order order' n OpportunityType.deleverage_all_debt is e = inl (is, cc)
  consume_as_lem order order' n OpportunityType.deleverage_single_debt_amount is e =
      let (_, e₁) = step_checked _ (laws.from_num_lem n) e in
      let left = order.opportunity_parameter_sf - n * one in
      let e₂ : ok
            (if left == 0 then default_order else record order { opportunity_parameter_sf = left })
          ≡ ok order' =
        rw (← laws.saturating_sub_lem order.opportunity_parameter_sf (n * one)) e₁ in
      elim (Bool-cases (left == 0)) [
        | inl spent ↦
            let gone : left ≡ 0 = eq_true→eq left 0 spent in
            let e₃ : ok default_order ≡ ok order' = rw spent at e₂ in
            inr (inl (is, omega (arith, gone), cc))
        | inr open_still ↦
            let more : left ≢ 0 = eq_false→ne left 0 open_still in
            let e₃ : ok (record order { opportunity_parameter_sf = left }) ≡ ok order' =
              rw open_still at e₂ in
            let order_eq : order' ≡ record order { opportunity_parameter_sf = left } = cc in
            inr (inr (is, omega (arith, more), order_eq))
      ]

  -- An order on an amount is used up by what is repaid under it: it is cleared when that is the amount or
  -- more, and otherwise keeps the difference, which is not nothing, with all its other fields. An order
  -- on the whole debt stays as it was.
  pub consume_lem :
      (order order' : ObligationOrder) (n : ℕ)
      → consume order n ≡ ok order'
      → (order.opportunity_type ≡ 1) × (order' ≡ order)
        ⊎ (order.opportunity_type ≡ 0)
          × (order.opportunity_parameter_sf ≤ n * one)
          × (order' ≡ default_order)
        ⊎ (order.opportunity_type ≡ 0)
          × (n * one < order.opportunity_parameter_sf)
          × (order' ≡ record order {
            opportunity_parameter_sf = order.opportunity_parameter_sf - n * one;
          })
  unfolding consume
  consume_lem order order' n e =
      let (kind, kind_eq, e₁) = >>=-eq-ok (get_opportunity_type order) _ e in
      consume_as_lem order order' n kind (kind_lem order kind kind_eq) e₁
