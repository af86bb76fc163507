-- ===== src/Obligation/Interest.antt =====
-- How `ObligationLiquidity::accrue_interest` (state/obligation.rs) grows a loan.
use kamino_lending.Base.{
  Bool-cases, arith, if_false, if_true, inl, inr, ltb, ok, refl, sym, ℕ, ◌*◌, ◌+◌, ◌/◌, ◌<◌, ◌==◌,
  ◌∙◌, ◌≡◌, ◌≤◌,
}
use kamino_lending.Crates.{Crates, IsExact}
use kamino_lending.Crates.Exact.{Crates-eq-exact}
use kamino_lending.Obligation.Positions.{ObligationLiquidity, accrue_interest, scale_debt}
use native.Mathlib.Nat.{
  div-mul-le_self, le_refl, lt-div-mul-add, lt_of_mul-lt-mul_right, mul-le-mul,
}
use native.Mathlib.Nat.{
  div-mul-le_self, le_refl, lt-div-mul-add, lt_of_mul-lt-mul_right, mul-le-mul,
}

quotient_bounds :
    (b r₀ r₁ b₁ : ℕ)
    → 0 < r₀
    → r₀ ≤ r₁
    → b₁ ≡ b * r₁ / r₀
    → (b₁ * r₀ ≤ b * r₁) × (b * r₁ < (b₁ + 1) * r₀) × (b ≤ b₁)
quotient_bounds b r₀ r₁ b₁ pos le b₁_eq =
    let low = div-mul-le_self (b * r₁) r₀ in
    let high = lt-div-mul-add {a = b * r₁} pos in
    let grown : b * r₀ ≤ b * r₁ = mul-le-mul (le_refl b) le in
    let cancel : b * r₀ < (b₁ + 1) * r₀ = rw b₁_eq (omega arith) in
    (rw b₁_eq low, rw b₁_eq (omega arith), omega (arith, lt_of_mul-lt-mul_right r₀ cancel))

module _ ⦃c : Crates⦄ (laws : IsExact c) where
  scale_steps :
      (t t' : ObligationLiquidity) (rate : ℕ)
      → scale_debt t rate ≡ ok t'
      → (0 < t.cumulative_borrow_rate_bsf)
        × (t'.borrowed_amount_sf ≡ t.borrowed_amount_sf * rate / t.cumulative_borrow_rate_bsf)
        × (t'.cumulative_borrow_rate_bsf ≡ rate)
  unfolding scale_debt
  scale_steps t t' rate = rw (Crates-eq-exact c laws) (λ e. ground arith)

  unchanged :
      (t t' : ObligationLiquidity) (rate : ℕ)
      → 0 < t.cumulative_borrow_rate_bsf
      → rate ≡ t.cumulative_borrow_rate_bsf
      → ok t ≡ ok t'
      → (t.cumulative_borrow_rate_bsf ≤ rate)
        × (t'.cumulative_borrow_rate_bsf ≡ rate)
        × (t'.borrowed_amount_sf * t.cumulative_borrow_rate_bsf ≤ t.borrowed_amount_sf * rate)
        × (t.borrowed_amount_sf * rate < (t'.borrowed_amount_sf + 1) * t.cumulative_borrow_rate_bsf)
        × (t.borrowed_amount_sf ≤ t'.borrowed_amount_sf)
  unchanged t t' rate pos same e =
      let t_eq : t' ≡ t = cc in
      rw (t_eq, same) (le_refl _, refl, le_refl _, omega (arith, pos), le_refl _)

  -- A loan whose rate is not 0 accrues interest in proportion to the pool's cumulative rate,
  -- rounded down to a bit, so it never shrinks; where this succeeds, the pool's rate is not below
  -- the loan's.
  pub accrue_interest_lem :
      (t t' : ObligationLiquidity) (rate : ℕ)
      → 0 < t.cumulative_borrow_rate_bsf
      → accrue_interest t rate ≡ ok t'
      → (t.cumulative_borrow_rate_bsf ≤ rate)
        × (t'.cumulative_borrow_rate_bsf ≡ rate)
        × (t'.borrowed_amount_sf * t.cumulative_borrow_rate_bsf ≤ t.borrowed_amount_sf * rate)
        × (t.borrowed_amount_sf * rate < (t'.borrowed_amount_sf + 1) * t.cumulative_borrow_rate_bsf)
        × (t.borrowed_amount_sf ≤ t'.borrowed_amount_sf)
  unfolding accrue_interest
  accrue_interest_lem t t' rate pos e = elim (Bool-cases (ltb rate t.cumulative_borrow_rate_bsf)) [
    | inl below ↦ absurd (ground (arith, if_true _ below e))
    | inr above ↦
        let e₁ = if_false _ above e in
        let le : t.cumulative_borrow_rate_bsf ≤ rate = ground arith in
        elim (Bool-cases (rate == t.cumulative_borrow_rate_bsf)) [
          | inl same ↦
              let same_rate : rate ≡ t.cumulative_borrow_rate_bsf = ground arith in
              unchanged t t' rate pos same_rate (if_true _ same e₁)
          | inr new ↦
              let (_, debt, rate_eq) = scale_steps t t' rate (if_false _ new e₁) in
              let (low, high, grown) =
                quotient_bounds t.borrowed_amount_sf t.cumulative_borrow_rate_bsf rate
                  t'.borrowed_amount_sf pos le debt in
              (le, rate_eq, low, high, grown)
        ]
  ]

  -- For a loan whose rate is not 0, accruing in two steps never charges more than accruing at once:
  -- each rounding is in the borrower's favour.
  pub accrue_interest_split :
      (t t₁ t₂ t₃ : ObligationLiquidity) (r₁ r₂ : ℕ)
      → 0 < t.cumulative_borrow_rate_bsf
      → accrue_interest t r₁ ≡ ok t₁
      → accrue_interest t₁ r₂ ≡ ok t₂
      → accrue_interest t r₂ ≡ ok t₃
      → (t₂.borrowed_amount_sf ≤ t₃.borrowed_amount_sf)
        × (t₂.cumulative_borrow_rate_bsf ≡ t₃.cumulative_borrow_rate_bsf)
  accrue_interest_split t t₁ t₂ t₃ r₁ r₂ pos e₁ e₂ e₃ =
      let b = t.borrowed_amount_sf in
      let b₁ = t₁.borrowed_amount_sf in
      let b₂ = t₂.borrowed_amount_sf in
      let b₃ = t₃.borrowed_amount_sf in
      let r = t.cumulative_borrow_rate_bsf in
      let (le₁, rate₁, low₁, _, _) = accrue_interest_lem t t₁ r₁ pos e₁ in
      let (le₂, rate₂, low₂, _, _) = accrue_interest_lem t₁ t₂ r₂ (omega arith) e₂ in
      let (_, rate₃, _, high₃, _) = accrue_interest_lem t t₃ r₂ pos e₃ in
      let low₂' : b₂ * r₁ ≤ b₁ * r₂ = rw rate₁ at low₂ in
      let step₁ : b₂ * r₁ * r ≤ b₁ * r₂ * r = mul-le-mul low₂' (le_refl r) in
      let step₂ : b₁ * r * r₂ ≤ b * r₁ * r₂ = mul-le-mul low₁ (le_refl r₂) in
      let step₃ : (b * r₂ + 1) * r₁ ≤ (b₃ + 1) * r * r₁ = mul-le-mul (omega arith) (le_refl r₁) in
      let scaled : b₂ * (r * r₁) < (b₃ + 1) * (r * r₁) =
        omega (arith, step₁, step₂, step₃, le₁, pos) in
      (omega (arith, lt_of_mul-lt-mul_right (r * r₁) scaled), rate₂ ∙ sym rate₃)
