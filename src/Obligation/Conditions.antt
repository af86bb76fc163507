-- ===== src/Obligation/Conditions.antt =====
-- The conditions of an order (state/order_operations.rs): how far a value is beyond its threshold, on
-- the way to liquidation or to nothing. A condition that is not met is `none`.
use native.Mathlib.Nat.{div-mul-le_self, lt-div-mul-add, le_of_mul-le-mul_right}
use kamino_lending.Base.{
  >>=-eq-ok, Bool-cases, Option, Result, arith, if_false, if_true, if◌then◌else◌, inl, inr, leb,
  le→ltb_false, ltb, none, ok, some, u128_max, ℕ, ◌*◌, ◌+◌, ◌-◌, ◌/◌, ◌<◌, ◌>>=◌, ◌∙◌, ◌≡◌, ◌≤◌,
}
use kamino_lending.Crates.{Crates, IsExact, last_div, one, step_difference}
use kamino_lending.Fraction.{Fraction}

module _ ⦃c : Crates⦄ where
  open c use {sub, div}

  -- The distance from the threshold, as a share of the distance to liquidation.
  unfoldable pub stop_loss_distance : Fraction → Fraction → Fraction → Result Fraction
  stop_loss_distance current_value condition_threshold liquidation_threshold =
      if ltb liquidation_threshold condition_threshold then ok one else (do
        current_distance ← sub current_value condition_threshold
        maximum_distance ← sub liquidation_threshold condition_threshold
        div current_distance maximum_distance)

  unfoldable pub evaluate_stop_loss : Fraction → Fraction → Fraction → Result (Option Fraction)
  unfolding stop_loss_distance
  evaluate_stop_loss current_value condition_threshold liquidation_threshold =
      if leb current_value condition_threshold
      then ok none
      else (stop_loss_distance current_value condition_threshold liquidation_threshold >>= λ x.
          ok (some x))

  unfoldable pub evaluate_take_profit : Fraction → Fraction → Result (Option Fraction)
  evaluate_take_profit current_value condition_threshold =
      if leb condition_threshold current_value then ok none else (do
        distance ← sub condition_threshold current_value
        x ← div distance condition_threshold
        ok (some x))

share_le_one : (a b : ℕ) → a ≤ b → 0 < b → a * one / b ≤ one
share_le_one a b h pos =
    let part = div-mul-le_self (a * one) b in
    le_of_mul-le-mul_right {k = b} (omega (arith, part, h)) pos

next_bit : (a b : ℕ) → 0 < b → a < (a / b + 1) * b
next_bit a b pos = let high = lt-div-mul-add {a = a} pos in omega (arith, high)

some_injective : {a b : ℕ} → ◌≡◌ {A = Result (Option ℕ)} (ok (some a)) (ok (some b)) → b ≡ a
some_injective e = cc

module _ ⦃c : Crates⦄ (laws : IsExact c) where
  stop_loss_eq :
      (current threshold liquidation x : ℕ)
      → threshold ≤ liquidation
      → stop_loss_distance current threshold liquidation ≡ ok x
      → (threshold < liquidation) × (x ≡ (current - threshold) * one / (liquidation - threshold))
  unfolding stop_loss_distance
  stop_loss_eq current threshold liquidation x le e =
      let e₁ = if_false _ (le→ltb_false liquidation threshold le) e in
      let (_, e₂) = step_difference _ (laws.sub_lem current threshold) e₁ in
      let (_, e₃) = step_difference _ (laws.sub_lem liquidation threshold) e₂ in
      let (pos, x_eq) =
        last_div u128_max ((current - threshold) * one) (laws.div_lem _ (liquidation - threshold))
          e₃ in
      (omega arith, x_eq)

  -- A stop loss that is met at or short of liquidation is past its threshold, and its distance is the
  -- share, at most 1, of the way from the threshold to liquidation, rounded down: a distance one bit
  -- greater would be more than the share.
  pub evaluate_stop_loss_share :
      (current threshold liquidation x : ℕ)
      → current ≤ liquidation
      → evaluate_stop_loss current threshold liquidation ≡ ok (some x)
      → (threshold < current)
        × (x ≤ one)
        × (x * (liquidation - threshold) ≤ (current - threshold) * one)
        × ((current - threshold) * one < (x + 1) * (liquidation - threshold))
  unfolding evaluate_stop_loss
  evaluate_stop_loss_share current threshold liquidation x short e =
      elim (Bool-cases (leb current threshold)) [
        | inl unmet ↦ let e₁ = if_true _ unmet e in cc
        | inr met ↦
            let past : threshold < current = ground arith in
            let (y, y_eq, e₁) =
              >>=-eq-ok (stop_loss_distance current threshold liquidation) _ (if_false _ met e) in
            let (room, value) = stop_loss_eq current threshold liquidation y (omega arith) y_eq in
            let x_eq = some_injective e₁ ∙ value in
            (
              past,
              rw x_eq (
                  share_le_one (current - threshold) (liquidation - threshold) (omega arith)
                    (omega arith)),
              rw x_eq (div-mul-le_self ((current - threshold) * one) (liquidation - threshold)),
              rw x_eq
                  (next_bit ((current - threshold) * one) (liquidation - threshold) (omega arith)),
            )
      ]
