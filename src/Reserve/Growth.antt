-- ===== src/Reserve/Growth.antt =====
-- How `approximate_compounded_interest` and `compound_interest` (state/reserve.rs) grow a debt.
use kamino_lending.Base.{
  Bool-cases, arith, if◌then◌else◌, inl, inr, leb, ok, suc, u128_max, zero, ℕ, ◌*◌, ◌+◌, ◌-◌, ◌/◌,
  ◌≡◌, ◌≤◌,
}
use kamino_lending.Crates.{Crates, IsExact, last_checked, one, step_checked, step_div}
use kamino_lending.Crates.Exact.{Crates-eq-exact}
use native.Mathlib.Nat.{mul-le-mul, le_refl}
use kamino_lending.Reserve.Interest.{
  approximate_compounded_interest, interest_product, interest_series, slots_per_year,
}

-- The exact value of the series, with its roundings.
abbrev series_value : ℕ → ℕ → ℕ
series_value base exp =
    let two = base * base / one in
    let three = two * base / one in
    one + base * exp + two * exp * (exp - 1) / 2 + three * exp * (exp - 1) * (exp - 2) / 6

abbrev product_value : ℕ → ℕ → ℕ
product_value base zero = one
product_value base (suc zero) = one + base
product_value base (suc (suc zero)) = (one + base) * (one + base) / one
product_value base (suc (suc (suc zero))) = (one + base) * (one + base) / one * (one + base) / one
product_value base (suc (suc (suc (suc n)))) =
    let two = (one + base) * (one + base) / one in two * two / one

abbrev pub interest_value : ℕ → ℕ → ℕ
interest_value rate n =
    let base = rate / slots_per_year in
    if leb n 4 then product_value base n else series_value base n

pub scaled_mono : (a b a' b' : ℕ) → a ≤ a' → b ≤ b' → a * b / one ≤ a' * b' / one
scaled_mono a b a' b' h k = let p : a * b ≤ a' * b' = mul-le-mul h k in omega arith

sum_mono :
    (a s t a' s' t' : ℕ)
    → a ≤ a'
    → s ≤ s'
    → t ≤ t'
    → one + a + s / 2 + t / 6 ≤ one + a' + s' / 2 + t' / 6
sum_mono a s t a' s' t' h k m = omega arith

series_mono : (b b' n : ℕ) → b ≤ b' → series_value b n ≤ series_value b' n
series_mono b b' n h =
    let two_le = scaled_mono b b b' b' h h in
    let three_le = scaled_mono (b * b / one) b (b' * b' / one) b' two_le h in
    let first : b * n ≤ b' * n = mul-le-mul h (le_refl n) in
    let second₁ : b * b / one * n ≤ b' * b' / one * n = mul-le-mul two_le (le_refl n) in
    let second = mul-le-mul second₁ (le_refl (n - 1)) in
    let third₁ = mul-le-mul three_le (le_refl n) in
    let third₂ = mul-le-mul third₁ (le_refl (n - 1)) in
    let third = mul-le-mul third₂ (le_refl (n - 2)) in sum_mono _ _ _ _ _ _ first second third

product_mono : (b b' n : ℕ) → b ≤ b' → product_value b n ≤ product_value b' n
product_mono b b' zero h = omega arith
product_mono b b' (suc zero) h = omega arith
product_mono b b' (suc (suc zero)) h =
    scaled_mono (one + b) (one + b) (one + b') (one + b') (omega arith) (omega arith)
product_mono b b' (suc (suc (suc zero))) h =
    scaled_mono _ (one + b) _ (one + b')
      (scaled_mono (one + b) (one + b) (one + b') (one + b') (omega arith) (omega arith))
      (omega arith)
product_mono b b' (suc (suc (suc (suc n)))) h =
    let two_le =
      scaled_mono (one + b) (one + b) (one + b') (one + b') (omega arith) (omega arith) in
    scaled_mono _ _ _ _ two_le two_le

pub interest_value_mono : (r r' n : ℕ) → r ≤ r' → interest_value r n ≤ interest_value r' n
interest_value_mono r r' n h =
    let base_le : r / slots_per_year ≤ r' / slots_per_year = omega arith in
    ground (
      arith,
      series_mono (r / slots_per_year) (r' / slots_per_year) n,
      product_mono (r / slots_per_year) (r' / slots_per_year) n,
    )

square_ge : (a b : ℕ) → one + (a + b) ≤ (one + a) * (one + b) / one
square_ge a b = omega arith

product_simple : (b n : ℕ) → n ≤ 4 → one + b * n ≤ product_value b n
product_simple b zero h = omega arith
product_simple b (suc zero) h = omega arith
product_simple b (suc (suc zero)) h = let square = square_ge b b in omega arith
product_simple b (suc (suc (suc zero))) h =
    let two : one + (b + b) ≤ (one + b) * (one + b) / one = square_ge b b in
    let three = scaled_mono (one + (b + b)) (one + b) _ (one + b) two (le_refl (one + b)) in
    let cube = square_ge (b + b) b in omega arith
product_simple b (suc (suc (suc (suc n)))) h =
    let two : one + (b + b) ≤ (one + b) * (one + b) / one = square_ge b b in
    let four = scaled_mono (one + (b + b)) (one + (b + b)) _ _ two two in
    let quartic = square_ge (b + b) (b + b) in
    let few : b * suc (suc (suc (suc n))) ≤ b * 4 = mul-le-mul (le_refl b) h in omega arith

-- Compounding grows a debt at least as fast as simple interest.
pub interest_value_simple : (r n : ℕ) → one + r / slots_per_year * n ≤ interest_value r n
interest_value_simple r n = elim (Bool-cases (leb n 4)) [
  | inl few ↦ rw few (product_simple (r / slots_per_year) n (ground arith))
  | inr many ↦ rw many (omega arith)
]

module _ ⦃c : Crates⦄ (laws : IsExact c) where
  product_eq : (b n x : ℕ) → interest_product b n ≡ ok x → x ≡ product_value b n
  unfolding interest_product
  product_eq b zero x = λ e. ground arith
  product_eq b (suc zero) x = rw (Crates-eq-exact c laws) (λ e. ground arith)
  product_eq b (suc (suc zero)) x = rw (Crates-eq-exact c laws) (λ e. ground arith)
  product_eq b (suc (suc (suc zero))) x = rw (Crates-eq-exact c laws) (λ e. ground arith)
  product_eq b (suc (suc (suc (suc n)))) x = rw (Crates-eq-exact c laws) (λ e. ground arith)

  series_eq : (b n x : ℕ) → interest_series b n ≡ ok x → x ≡ series_value b n
  unfolding interest_series
  series_eq b n x e =
      let (_, e₁) = step_checked _ (laws.mul_lem b b) e in
      let (_, e₂) = step_checked _ (laws.mul_lem _ b) e₁ in
      let (_, e₃) = step_checked _ (laws.mul_int_lem b n) e₂ in
      let (_, e₄) = step_checked _ (laws.mul_int_lem _ n) e₃ in
      let (_, e₅) = step_checked _ (laws.mul_int_lem _ (n - 1)) e₄ in
      let (_, e₆) = step_div _ u128_max _ (laws.div_int_lem _ 2) e₅ in
      let (_, e₇) = step_checked _ (laws.mul_int_lem _ n) e₆ in
      let (_, e₈) = step_checked _ (laws.mul_int_lem _ (n - 1)) e₇ in
      let (_, e₉) = step_checked _ (laws.mul_int_lem _ (n - 2)) e₈ in
      let (_, e₁₀) = step_div _ u128_max _ (laws.div_int_lem _ 6) e₉ in
      let (_, e₁₁) = step_checked _ (laws.add_lem one _) e₁₀ in
      let (_, e₁₂) = step_checked _ (laws.add_lem _ _) e₁₁ in
      last_checked u128_max (laws.add_lem _ _) e₁₂

  branch_eq :
      (b n x : ℕ)
      → (if leb n 4 then interest_product b n else interest_series b n) ≡ ok x
      → x ≡ (if leb n 4 then product_value b n else series_value b n)
  branch_eq b n x = elim (Bool-cases (leb n 4)) [
    | inl few ↦ rw few (product_eq b n x)
    | inr many ↦ rw many (series_eq b n x)
  ]

  pub interest_eq :
      (rate n x : ℕ) → approximate_compounded_interest rate n ≡ ok x → x ≡ interest_value rate n
  unfolding approximate_compounded_interest
  interest_eq rate n x e =
      let (_, e₁) =
        step_div rate u128_max (λ b. if leb n 4 then interest_product b n else interest_series b n)
          (laws.div_int_lem rate slots_per_year) e in
      branch_eq (rate / slots_per_year) n x e₁

  -- `approximate_compounded_interest` is at least simple interest at the rate of one slot, whatever
  -- the rate and the number of slots, and at a higher rate it is no lower.
  pub approximate_compounded_interest_lem :
      (rate rate' n x x' : ℕ)
      → rate ≤ rate'
      → approximate_compounded_interest rate n ≡ ok x
      → approximate_compounded_interest rate' n ≡ ok x'
      → (one + rate / slots_per_year * n ≤ x) × (x ≤ x')
  approximate_compounded_interest_lem rate rate' n x x' h e e' =
      let x_eq = interest_eq rate n x e in
      let x'_eq = interest_eq rate' n x' e' in
      let simple = interest_value_simple rate n in
      let mono = interest_value_mono rate rate' n h in (rw x_eq simple, rw x_eq (rw x'_eq mono))
