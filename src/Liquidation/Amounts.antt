-- ===== src/Liquidation/Amounts.antt =====
-- How much a liquidation settles, costs and takes (state/liquidation_operations.rs).
use kamino_lending.Base.{
  >>=-eq-ok, Bool, Bool-cases, Result, arith, eq_true→eq, false, if_false, if_true, if◌then◌else◌,
  inl, inr, ltb, ltb_false→le, ltb→lt, ok, true, u128_max, u64_max, ℕ, ◌&&◌, ◌*◌, ◌+◌, ◌/◌, ◌<◌,
  ◌==◌, ◌≡◌, ◌≤◌, ◌⊎◌,
}
use kamino_lending.Crates.{Crates, IsExact, one, step_checked, step_div}
use kamino_lending.Crates.Exact.{Crates-eq-exact}
use kamino_lending.Fraction.{Fraction, to_ceil, to_floor}
use kamino_lending.Obligation.{ObligationCollateral}
use kamino_lending.Liquidation.Defs.{
  amounts_above, amounts_below, amounts_equal, calculate_liquidation_amounts,
  dust_lamport_threshold,
}
use native.Mathlib.Nat.{le_of_mul-le-mul_right, mul-le-mul, le_refl, div-mul-le_self}

pub share_le : (a x y : ℕ) → x ≤ y → 0 < y → a * (x * one / y) / one ≤ a
share_le a x y h pos =
    let part = div-mul-le_self (x * one) y in
    let ratio : x * one / y ≤ one = le_of_mul-le-mul_right {k = y} (omega (arith, part, h)) pos in
    let p : a * (x * one / y) ≤ a * one = mul-le-mul (le_refl a) ratio in omega arith

-- A share of `a` by a ratio that is rounded down, rounded down again.
share_scaled : (a x y w : ℕ) → w * one ≤ a * (x * one / y) → w * y ≤ a * x
share_scaled a x y w h =
    let part = div-mul-le_self (x * one) y in
    let p : w * one * y ≤ a * (x * one / y) * y = mul-le-mul h (le_refl y) in
    let q : a * (x * one / y * y) ≤ a * (x * one) = mul-le-mul (le_refl a) part in omega arith

-- What the amounts of a liquidation satisfy.
pub record AreFair (value : ℕ) (t : ObligationCollateral) (amount : ℕ) (is_below_min : Bool)
    (settle repay taken : ℕ) : Type 0 where
  pub settle_le : settle ≤ amount
  pub cost : settle ≤ repay * one
  pub cost_lt : repay * one < settle + one
  pub withdrawn :
      (taken ≤ t.deposited_amount) × (taken * t.market_value_sf ≤ t.deposited_amount * value)
      ⊎ (is_below_min ≡ true) × (taken ≡ dust_lamport_threshold)

module _ ⦃c : Crates⦄ (laws : IsExact c) where
  pub ceil_lem : (f x : ℕ) → to_ceil u64_max f ≡ ok x → (f ≤ x * one) × (x * one < f + one)
  unfolding to_ceil
  ceil_lem f x = rw (Crates-eq-exact c laws) (λ e. ground arith)

  floor_lem : (f x : ℕ) → to_floor u64_max f ≡ ok x → x ≡ f / one
  unfolding to_floor
  floor_lem f x = rw (Crates-eq-exact c laws) (λ e. ground arith)

  finish :
      (value : ℕ) (t : ObligationCollateral) (amount : ℕ) (is_below_min : Bool) (s' r' w' s r w : ℕ)
      → s' ≤ amount
      → to_ceil u64_max s' ≡ ok r'
      → (w' ≤ t.deposited_amount) × (w' * t.market_value_sf ≤ t.deposited_amount * value)
        ⊎ (is_below_min ≡ true) × (w' ≡ dust_lamport_threshold)
      → ◌≡◌ {A = Result (Fraction × ℕ × ℕ)} (ok (s', r', w')) (ok (s, r, w))
      → AreFair value t amount is_below_min s r w
  finish value t amount is_below_min s' r' w' s r w le cost withdrawn e =
      let s_eq : s ≡ s' = cc in
      let r_eq : r ≡ r' = cc in
      let w_eq : w ≡ w' = cc in
      let (low, high) = ceil_lem s' r' cost in
      rw (s_eq, r_eq, w_eq)
        (record { settle_le = le; cost = low; cost_lt = high; withdrawn = withdrawn })

  part_or_all :
      (b : Bool) (amount share : ℕ) → share ≤ amount → (if b then amount else share) ≤ amount
  part_or_all true amount share h = le_refl amount
  part_or_all false amount share h = h

  above_lem :
      (value : ℕ) (t : ObligationCollateral) (amount : ℕ) (is_below_min : Bool) (s r w : ℕ)
      → t.market_value_sf < value
      → amounts_above value t amount is_below_min ≡ ok (s, r, w)
      → AreFair value t amount is_below_min s r w
  unfolding amounts_above
  above_lem value t amount is_below_min s r w less e =
      let (pos, e₁) = step_div _ u128_max _ (laws.div_lem t.market_value_sf value) e in
      let (_, e₂) = step_checked _ (laws.mul_lem amount _) e₁ in
      let share = amount * (t.market_value_sf * one / value) / one in
      let s' = if is_below_min then amount else share in
      let (r', r_eq, e₃) = >>=-eq-ok (to_ceil u64_max s') _ e₂ in
      let share_small = share_le amount t.market_value_sf value (omega arith) pos in
      finish value t amount is_below_min s' r' t.deposited_amount s r w
        (part_or_all is_below_min amount share share_small) r_eq
        (inl (le_refl t.deposited_amount, mul-le-mul (le_refl t.deposited_amount) (omega arith))) e₃

  equal_lem :
      (value : ℕ) (t : ObligationCollateral) (amount : ℕ) (is_below_min : Bool) (s r w : ℕ)
      → value ≡ t.market_value_sf
      → amounts_equal t amount ≡ ok (s, r, w)
      → AreFair value t amount is_below_min s r w
  unfolding amounts_equal
  equal_lem value t amount is_below_min s r w same e =
      let (r', r_eq, e₁) = >>=-eq-ok (to_ceil u64_max amount) _ e in
      finish value t amount is_below_min amount r' t.deposited_amount s r w (le_refl amount) r_eq
        (inl (le_refl t.deposited_amount, rw same (le_refl _))) e₁

  taken_lem :
      (b : Bool) (f w : ℕ)
      → (if b && ltb f (dust_lamport_threshold * one)
          then ok dust_lamport_threshold
          else to_floor u64_max f)
        ≡ ok w
      → ((b ≡ true) × (w ≡ dust_lamport_threshold)) ⊎ (w ≡ f / one)
  unfolding to_floor
  taken_lem b f w = rw (Crates-eq-exact c laws) (λ e. ground arith)

  below_lem :
      (value : ℕ) (t : ObligationCollateral) (amount : ℕ) (is_below_min : Bool) (s r w : ℕ)
      → value ≤ t.market_value_sf
      → amounts_below value t amount is_below_min ≡ ok (s, r, w)
      → AreFair value t amount is_below_min s r w
  unfolding amounts_below
  below_lem value t amount is_below_min s r w less e =
      let d = t.deposited_amount in
      let pct = value * one / t.market_value_sf in
      let (r', r_eq, e₁) = >>=-eq-ok (to_ceil u64_max amount) _ e in
      let (pos, e₂) = step_div _ u128_max _ (laws.div_lem value t.market_value_sf) e₁ in
      let (_, e₃) = step_checked _ (laws.from_num_lem d) e₂ in
      let (_, e₄) = step_checked _ (laws.mul_lem (d * one) pct) e₃ in
      let f = d * one * pct / one in
      let f_le : f ≤ d * one = share_le (d * one) value t.market_value_sf less pos in
      let (w', w'_eq, e₅) =
        >>=-eq-ok
          (if is_below_min && ltb f (dust_lamport_threshold * one)
            then ok dust_lamport_threshold
            else to_floor u64_max f)
          _ e₄ in
      finish value t amount is_below_min amount r' w' s r w (le_refl amount) r_eq
        (elim (taken_lem is_below_min f w' w'_eq) [
          | inl dust ↦ inr dust
          | inr floor_eq ↦ inl (
            omega (arith, f_le, floor_eq),
            share_scaled d value t.market_value_sf w' (omega (arith, floor_eq)),
          )
        ])
        e₅

  -- The settled amount is never more than the amount to liquidate, and costs its tokens rounded up.
  -- The collateral that is taken is no more than there is, and in proportion no more than the value
  -- that is liquidated; or else it is the one token that a full liquidation of dust takes.
  pub calculate_liquidation_amounts_lem :
      (value : ℕ) (t : ObligationCollateral) (amount : ℕ) (is_below_min : Bool) (s r w : ℕ)
      → calculate_liquidation_amounts value t amount is_below_min ≡ ok (s, r, w)
      → AreFair value t amount is_below_min s r w
  unfolding calculate_liquidation_amounts
  calculate_liquidation_amounts_lem value t amount is_below_min s r w e =
      elim (Bool-cases (ltb t.market_value_sf value)) [
        | inl above ↦
            above_lem value t amount is_below_min s r w (ltb→lt _ _ above) (if_true _ above e)
        | inr not_above ↦
            let e₁ = if_false _ not_above e in
            elim (Bool-cases (value == t.market_value_sf)) [
              | inl same ↦
                  equal_lem value t amount is_below_min s r w (eq_true→eq _ _ same)
                    (if_true _ same e₁)
              | inr below ↦
                  below_lem value t amount is_below_min s r w
                    (ltb_false→le t.market_value_sf value not_above) (if_false _ below e₁)
            ]
      ]
