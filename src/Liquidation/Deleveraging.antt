-- ===== src/Liquidation/Deleveraging.antt =====
-- How the terms of auto-deleveraging move with time (state/liquidation_operations.rs).
use kamino_lending.Liquidation.Limits.{bps_lem}
use kamino_lending.Base.{
  >>=-eq-ok, Result, arith, if◌then◌else◌, ltb, min, ok, ℕ, ◌*◌, ◌+◌, ◌-◌, ◌/◌, ◌≡◌, ◌≤◌,
}
use kamino_lending.Crates.{Crates, IsExact, one, step_checked}
use kamino_lending.Fraction.{from_bps}
use kamino_lending.Reserve.{Reserve}
use kamino_lending.Liquidation.Defs.{min_autodeleverage_bonus_bps}
use kamino_lending.Liquidation.Bonus.{
  calculate_autodeleverage_bonus_rate, calculate_autodeleverage_threshold,
}
use native.Mathlib.Nat.{mul-le-mul, le_refl}

capped_rate :
    (top x b : ℕ) → ◌≡◌ {A = Result ℕ} (ok (if ltb top x then top else x)) (ok b) → b ≡ min top x
capped_rate top x b e = ground arith

per_day : (rate days days' : ℕ) → days ≤ days' → rate * days / one ≤ rate * days' / one
per_day rate days days' h =
    let p : rate * days ≤ rate * days' = mul-le-mul (le_refl rate) h in omega arith

module _ ⦃c : Crates⦄ (laws : IsExact c) where
  bonus_eq :
      (increase reserve_max emode days no_bf_ltv b : ℕ)
      → calculate_autodeleverage_bonus_rate increase reserve_max emode days no_bf_ltv ≡ ok b
      → b
        ≡ min
            (min (min reserve_max emode * one / 10_000) (one - no_bf_ltv))
            (min_autodeleverage_bonus_bps * one / 10_000 + increase * one / 10_000 * days / one)
  unfolding calculate_autodeleverage_bonus_rate
  bonus_eq increase reserve_max emode days no_bf_ltv b e =
      let (static, static_eq, e₁) = >>=-eq-ok (from_bps min_autodeleverage_bonus_bps) _ e in
      let (daily, daily_eq, e₂) = >>=-eq-ok (from_bps increase) _ e₁ in
      let (_, e₃) = step_checked _ (laws.mul_lem daily days) e₂ in
      let (_, e₄) = step_checked _ (laws.add_lem static _) e₃ in
      let (cap, cap_eq, e₅) = >>=-eq-ok (from_bps (min reserve_max emode)) _ e₄ in
      let b_eq =
        capped_rate (min cap (c.saturating_sub one no_bf_ltv)) (static + daily * days / one) b e₅ in
      let room_eq = laws.saturating_sub_lem one no_bf_ltv in
      let cap_value = bps_lem laws (min reserve_max emode) cap cap_eq in
      let static_value = bps_lem laws min_autodeleverage_bonus_bps static static_eq in
      let daily_value = bps_lem laws increase daily daily_eq in cc

  -- Where the bonus of auto-deleveraging can be computed, it is 50 basis points and the daily increase
  -- times the days since the start, both rounded down to the bit, or the least of the reserve's maximum,
  -- the group's maximum and what is missing from the plain LTV to 1, whichever is smaller. So it does not
  -- fall with time, and exceeds none of the three.
  pub calculate_autodeleverage_bonus_rate_lem :
      (increase reserve_max emode days days' no_bf_ltv b b' : ℕ)
      → days ≤ days'
      → calculate_autodeleverage_bonus_rate increase reserve_max emode days no_bf_ltv ≡ ok b
      → calculate_autodeleverage_bonus_rate increase reserve_max emode days' no_bf_ltv ≡ ok b'
      → (b ≤ b')
        × (b' ≤ reserve_max * one / 10_000)
        × (b' ≤ emode * one / 10_000)
        × (b' ≤ one - no_bf_ltv)
        × (b
            ≡ min
                (min (min reserve_max emode * one / 10_000) (one - no_bf_ltv))
                (50 * one / 10_000 + increase * one / 10_000 * days / one))
  calculate_autodeleverage_bonus_rate_lem increase reserve_max emode days days' no_bf_ltv b b' h e
        e' =
      let b_eq = bonus_eq increase reserve_max emode days no_bf_ltv b e in
      let b'_eq = bonus_eq increase reserve_max emode days' no_bf_ltv b' e' in
      let grown = per_day (increase * one / 10_000) days days' h in
      (omega arith, omega arith, omega arith, omega arith, b_eq)

  threshold_eq :
      (r : Reserve) (days x : ℕ)
      → calculate_autodeleverage_threshold r days ≡ ok x
      → x ≡ one - r.config.deleveraging_threshold_decrease_bps_per_day * one / 10_000 * days / one
  unfolding calculate_autodeleverage_threshold
  threshold_eq r days x e =
      let (daily, daily_eq, e₁) =
        >>=-eq-ok (from_bps r.config.deleveraging_threshold_decrease_bps_per_day) _ e in
      let (_, e₂) = step_checked _ (laws.mul_lem daily days) e₁ in
      let left = laws.saturating_sub_lem one (daily * days / one) in
      let daily_value =
        bps_lem laws r.config.deleveraging_threshold_decrease_bps_per_day daily daily_eq in
      cc

  -- Where the LTV from which auto-deleveraging applies can be computed, it is 1 less the daily decrease
  -- times the days since the start, rounded down to the bit, and 0 once that is more than 1. So it is at
  -- most 1 and does not rise with time.
  pub calculate_autodeleverage_threshold_falls :
      (r : Reserve) (days days' x x' : ℕ)
      → days ≤ days'
      → calculate_autodeleverage_threshold r days ≡ ok x
      → calculate_autodeleverage_threshold r days' ≡ ok x'
      → (x' ≤ x)
        × (x ≤ one)
        × (x
            ≡ one
              - r.config.deleveraging_threshold_decrease_bps_per_day * one / 10_000 * days / one)
  calculate_autodeleverage_threshold_falls r days days' x x' h e e' =
      let x_eq = threshold_eq r days x e in
      let x'_eq = threshold_eq r days' x' e' in
      let grown =
        per_day (r.config.deleveraging_threshold_decrease_bps_per_day * one / 10_000) days days'
          h in
      (omega arith, omega arith, x_eq)
