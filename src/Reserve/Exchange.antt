-- ===== src/Reserve/Exchange.antt =====
-- `CollateralExchangeRate` (state/reserve.rs) against exact arithmetic: each conversion is the exact
-- quotient, rounded against the user.
use kamino_lending.Base.{
  LendingError, ap, arith, ceil-le, err, le-mul_ceil, mul_ceil-lt, ok, u128_max, ℕ, ◌*◌, ◌+◌, ◌-◌,
  ◌/◌, ◌<◌, ◌∙◌, ◌≡◌, ◌≢◌, ◌≤◌,
}
use kamino_lending.Crates.{Crates, IsExact, one}
use kamino_lending.Crates.Exact.{Crates-eq-exact}
use native.Mathlib.Nat.{div-mul-le_self, lt-div-mul-add, mul-le-mul_right}
use kamino_lending.Reserve.Collateral.{
  CollateralExchangeRate, collateral_to_liquidity, collateral_to_liquidity_ceil,
  liquidity_to_collateral,
}

module _ ⦃c : Crates⦄ (laws : IsExact c) where
  redeem_quotient :
      (rate : CollateralExchangeRate) (n w : ℕ)
      → collateral_to_liquidity rate n ≡ ok w
      → (0 < rate.collateral_supply)
        × (w ≡ n * one * rate.liquidity / one / rate.collateral_supply / one)
  unfolding collateral_to_liquidity
  redeem_quotient rate n w = rw (Crates-eq-exact c laws) (λ e. ground arith)

  ceil_quotient :
      (rate : CollateralExchangeRate) (n d : ℕ)
      → collateral_to_liquidity_ceil rate n ≡ ok d
      → (0 < rate.collateral_supply)
        × (d
            ≡ ((n * rate.liquidity + (rate.collateral_supply - 1)) / rate.collateral_supply
                + one
                - 1)
              / one)
  unfolding collateral_to_liquidity_ceil
  ceil_quotient rate n d = rw (Crates-eq-exact c laws) (λ e. ground arith)

  mint_quotient :
      (rate : CollateralExchangeRate) (n m : ℕ)
      → liquidity_to_collateral rate n ≡ ok m
      → (0 < rate.liquidity)
        × (rate.collateral_supply * n ≤ u128_max)
        × (m ≡ rate.collateral_supply * n * one * one / rate.liquidity / one)
  unfolding liquidity_to_collateral
  mint_quotient rate n m = rw (Crates-eq-exact c laws) (λ e. ground arith)

  -- Redeeming pays the largest whole amount of liquidity whose value is not above the collateral's.
  pub collateral_to_liquidity_floor :
      (rate : CollateralExchangeRate) (n w : ℕ)
      → collateral_to_liquidity rate n ≡ ok w
      → (w * one * rate.collateral_supply ≤ n * rate.liquidity)
        × (n * rate.liquidity < (w + 1) * one * rate.collateral_supply)
  collateral_to_liquidity_floor rate n w e =
      let s = rate.collateral_supply in
      let (pos_s, w_eq) = redeem_quotient rate n w e in
      let q : ℕ = n * rate.liquidity / s in
      let same : n * one * rate.liquidity / one ≡ n * rate.liquidity = omega arith in
      let w_q : w ≡ q / one = w_eq ∙ ap (λ t. t / s / one) same in
      let low : w * one * s ≤ q * s = mul-le-mul_right s (omega arith) in
      let high : (q + 1) * s ≤ (w + 1) * one * s = mul-le-mul_right s (omega arith) in
      (
        omega (arith, div-mul-le_self (n * rate.liquidity) s),
        omega (arith, lt-div-mul-add {a = n * rate.liquidity} pos_s),
      )

  -- The ceiling is the least whole amount of liquidity whose value covers the collateral's.
  pub collateral_to_liquidity_ceil_least :
      (rate : CollateralExchangeRate) (n d : ℕ)
      → collateral_to_liquidity_ceil rate n ≡ ok d
      → (n * rate.liquidity ≤ d * one * rate.collateral_supply)
        × (d * one * rate.collateral_supply < n * rate.liquidity + one * rate.collateral_supply)
  collateral_to_liquidity_ceil_least rate n d e =
      let s = rate.collateral_supply in
      let (pos_s, d_eq) = ceil_quotient rate n d e in
      let x : ℕ = (n * rate.liquidity + (s - 1)) / s in
      let cover : x * s ≤ d * one * s = mul-le-mul_right s (omega arith) in
      let near : d * one * s ≤ (x + (one - 1)) * s = mul-le-mul_right s (omega arith) in
      (
        omega (arith, le-mul_ceil (n * rate.liquidity) s pos_s),
        omega (arith, mul_ceil-lt (n * rate.liquidity) s pos_s),
      )

  -- A deposit mints the largest whole amount of collateral whose value is not above it.
  pub liquidity_to_collateral_floor :
      (rate : CollateralExchangeRate) (n m : ℕ)
      → liquidity_to_collateral rate n ≡ ok m
      → (m * rate.liquidity ≤ n * one * rate.collateral_supply)
        × (n * one * rate.collateral_supply < (m + 1) * rate.liquidity)
  liquidity_to_collateral_floor rate n m e =
      let l = rate.liquidity in
      let (pos_l, _, m_eq) = mint_quotient rate n m e in
      let total : ℕ = rate.collateral_supply * n * one * one in
      let y : ℕ = total / l in
      let low : m * one * l ≤ y * l = mul-le-mul_right l (omega arith) in
      let high : (y + 1) * l ≤ (m + 1) * one * l = mul-le-mul_right l (omega arith) in
      let below = div-mul-le_self total l in
      let above : total < y * l + l = lt-div-mul-add pos_l in (omega arith, omega arith)

  -- What a deposit is asked to pay never exceeds what was offered: it is the value of what is minted,
  -- rounded up, and that is not above the offer.
  pub ceil-le-offer :
      (rate : CollateralExchangeRate) (n m d : ℕ)
      → liquidity_to_collateral rate n ≡ ok m
      → collateral_to_liquidity_ceil rate m ≡ ok d
      → d ≤ n
  ceil-le-offer rate n m d minted asked =
      let s = rate.collateral_supply in
      let (pos_s, d_eq) = ceil_quotient rate m d asked in
      let (low, _) = liquidity_to_collateral_floor rate n m minted in
      let x_le = ceil-le (m * rate.liquidity) s (n * one) pos_s low in omega arith

  pub liquidity_to_collateral-ne-err :
      (rate : CollateralExchangeRate) (n : ℕ) (e : LendingError)
      → liquidity_to_collateral rate n ≢ err e
  unfolding liquidity_to_collateral
  liquidity_to_collateral-ne-err rate n e = rw (Crates-eq-exact c laws) (λ h. ground arith)

  pub collateral_to_liquidity_ceil-ne-err :
      (rate : CollateralExchangeRate) (n : ℕ) (e : LendingError)
      → collateral_to_liquidity_ceil rate n ≢ err e
  unfolding collateral_to_liquidity_ceil
  collateral_to_liquidity_ceil-ne-err rate n e = rw (Crates-eq-exact c laws) (λ h. ground arith)
