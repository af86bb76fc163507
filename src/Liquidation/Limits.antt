-- ===== src/Liquidation/Limits.antt =====
-- Bounds on the bonus, the protocol's fee and the settled debt of a liquidation
-- (state/liquidation_operations.rs).
use kamino_lending.Liquidation.Amounts.{ceil_lem, share_le}
use kamino_lending.Base.{
  >>=-eq-ok, Result, arith, get_elem?, if_false, lt→leb_false, max, min, ok, u128_max, u64_max,
  unwrap, ℕ, ◌*◌, ◌+◌, ◌-◌, ◌/◌, ◌<◌, ◌≡◌, ◌≤◌,
}
use kamino_lending.Crates.{
  Crates, IsExact, last_checked, one, step_checked, step_difference, step_div,
}
use kamino_lending.Crates.Exact.{Crates-eq-exact}
use kamino_lending.Fraction.{from_bps, from_percent, to_ceil}
use kamino_lending.Reserve.{ReserveConfig}
use kamino_lending.Obligation.{Obligation, ObligationLiquidity, get_opportunity_type}
use kamino_lending.Liquidation.Defs.{
  LiquidationReason, bad_debt_threshold, close_factor, max_liquidatable_borrowed_amount,
  order_liquidatable_amount, order_size_amount, value_liquidatable_amount,
}
use kamino_lending.Liquidation.Bonus.{
  calculate_liquidation_bonus, calculate_protocol_liquidation_fee, regular_bonus,
}
use native.Mathlib.Nat.{mul-le-mul, le_refl}

pub part_le : (a b : ℕ) → b ≤ one → a * b / one ≤ a
part_le a b h = let p : a * b ≤ a * one = mul-le-mul (le_refl a) h in omega arith

collared : (a b d x : ℕ) → ◌≡◌ {A = Result ℕ} (ok (min (min a b) d)) (ok x) → (x ≤ d) × (x ≤ b)
collared a b d x e = ground arith

at_least_one :
    (a n x : ℕ) → 1 ≤ n → a ≤ n → ◌≡◌ {A = Result ℕ} (ok (max a 1)) (ok x) → (1 ≤ x) × (x ≤ n)
at_least_one a n x h k e = ground arith

capped_by : (a b x : ℕ) → ◌≡◌ {A = Result ℕ} (ok (min a b)) (ok x) → x ≤ b
capped_by a b x e = ground arith

module _ ⦃c : Crates⦄ (laws : IsExact c) where
  pub bps_lem : (n x : ℕ) → from_bps n ≡ ok x → x ≡ n * one / 10_000
  unfolding from_bps
  bps_lem n x = rw (Crates-eq-exact c laws) (λ e. ground arith)

  percent_le : (n x : ℕ) → n ≤ 100 → from_percent n ≡ ok x → x ≤ one
  unfolding from_percent
  percent_le n x h = rw (Crates-eq-exact c laws) (λ e. ground arith)

  regular_lem :
      (coll debt_config : ReserveConfig) (allowed ltv no_bf_ltv emode b : ℕ)
      → regular_bonus coll debt_config allowed ltv no_bf_ltv emode ≡ ok b
      → (allowed ≤ ltv) × (b + no_bf_ltv ≤ one) × (b ≤ emode * one / 10_000)
  unfolding regular_bonus
  regular_lem coll debt_config allowed ltv no_bf_ltv emode b e =
      let bps =
        min (max coll.max_liquidation_bonus_bps debt_config.max_liquidation_bonus_bps) emode in
      let (unhealthy, e₁) = step_difference _ (laws.sub_lem ltv allowed) e in
      let (max_bonus, max_eq, e₂) = >>=-eq-ok (from_bps bps) _ e₁ in
      let (min_bonus, _, e₃) =
        >>=-eq-ok
          (from_bps (max coll.min_liquidation_bonus_bps debt_config.min_liquidation_bonus_bps)) _
          e₂ in
      let (room, e₄) = step_difference _ (laws.sub_lem one no_bf_ltv) e₃ in
      let (to_debt, capped) =
        collared (max min_bonus (ltv - allowed)) max_bonus (one - no_bf_ltv) b e₄ in
      let cap = bps_lem bps max_bonus max_eq in
      (unhealthy, omega (arith, to_debt, room), omega (arith, capped, cap))

  -- Away from bad debt, seizing the bonus cannot leave an obligation with less than its debt: the
  -- bonus is at most what is missing from the plain LTV to 1, so that the debt with the bonus on it is
  -- at most the collateral. Nor is it above the elevation group's maximum.
  pub calculate_liquidation_bonus_solvent :
      (coll debt_config : ReserveConfig) (allowed ltv no_bf_ltv emode b : ℕ)
      → no_bf_ltv < bad_debt_threshold
      → calculate_liquidation_bonus coll debt_config allowed ltv no_bf_ltv emode ≡ ok b
      → (b + no_bf_ltv ≤ one) × (no_bf_ltv * (one + b) ≤ one * one) × (b ≤ emode * one / 10_000)
  unfolding calculate_liquidation_bonus
  calculate_liquidation_bonus_solvent coll debt_config allowed ltv no_bf_ltv emode b less e =
      let (_, room, capped) =
        regular_lem coll debt_config allowed ltv no_bf_ltv emode b
          (if_false _ (lt→leb_false _ _ less) e) in
      (
        room,
        (let p : no_bf_ltv * b ≤ one * b = mul-le-mul (omega (arith, room)) (le_refl b) in
            omega (arith, room, p)),
        capped,
      )

  -- The protocol's fee is at least one token and, for a percentage up to 100 and a liquidation of at
  -- least one token, never more than what is liquidated.
  pub calculate_protocol_liquidation_fee_bounds :
      (amount bonus pct fee : ℕ)
      → 1 ≤ amount
      → pct ≤ 100
      → calculate_protocol_liquidation_fee amount bonus pct ≡ ok fee
      → (1 ≤ fee) × (fee ≤ amount)
  unfolding calculate_protocol_liquidation_fee
  calculate_protocol_liquidation_fee_bounds amount bonus pct fee some_amount pct_le e =
      let (rate, rate_eq, e₁) = >>=-eq-ok (from_percent pct) _ e in
      let (_, e₂) = step_checked _ (laws.from_num_lem amount) e₁ in
      let (_, e₃) = step_checked _ (laws.add_lem bonus one) e₂ in
      let (_, e₄) =
        step_div {b = bonus + one} (amount * one * one) u128_max _
          (laws.div_lem (amount * one) (bonus + one)) e₃ in
      let (_, e₅) = step_difference _ (laws.sub_lem (amount * one) _) e₄ in
      let (_, e₆) = step_checked _ (laws.mul_lem _ rate) e₅ in
      let (fee', fee'_eq, e₇) = >>=-eq-ok (to_ceil u64_max _) _ e₆ in
      let (_, high) = ceil_lem laws _ fee' fee'_eq in
      let part =
        part_le (amount * one - amount * one * one / (bonus + one)) rate
          (percent_le pct rate pct_le rate_eq) in
      at_least_one fee' amount fee some_amount (omega (arith, high, part)) e₇

  order_le :
      (o : Obligation) (liquidity : ObligationLiquidity) (i x : ℕ)
      → order_liquidatable_amount o liquidity i ≡ ok x
      → x ≤ liquidity.borrowed_amount_sf
  unfolding order_liquidatable_amount
  order_le o liquidity i x e =
      let (order, _, e₁) = >>=-eq-ok (unwrap (get_elem? o.orders i)) _ e in
      let (opportunity, _, e₂) = >>=-eq-ok (get_opportunity_type order) _ e₁ in
      capped_by (order_size_amount order opportunity) liquidity.borrowed_amount_sf x e₂

  value_le :
      (o : Obligation) (close_pct market_max : ℕ) (liquidity : ObligationLiquidity)
      (user_ltv insolvency_pct x : ℕ)
      → value_liquidatable_amount o close_pct market_max liquidity user_ltv insolvency_pct ≡ ok x
      → x ≤ liquidity.borrowed_amount_sf
  unfolding value_liquidatable_amount
  value_le o close_pct market_max liquidity user_ltv insolvency_pct x e =
      let mv = liquidity.market_value_sf in
      let (rate, _, e₁) = >>=-eq-ok (close_factor close_pct user_ltv insolvency_pct) _ e in
      let (_, e₂) = step_checked _ (laws.from_num_lem market_max) e₁ in
      let (_, e₃) = step_checked _ (laws.mul_lem o.borrowed_assets_market_value_sf rate) e₂ in
      let top = min (min (o.borrowed_assets_market_value_sf * rate / one) mv) (market_max * one) in
      let (pos, e₄) = step_div {b = mv} (top * one) u128_max _ (laws.div_lem top mv) e₃ in
      let le = share_le liquidity.borrowed_amount_sf top mv (omega arith) pos in
      let x_eq = last_checked u128_max (laws.mul_lem liquidity.borrowed_amount_sf _) e₄ in
      rw x_eq le

  -- What may be liquidated of a debt that is not liquidated whole is no more than what is owed.
  pub max_liquidatable_borrowed_amount_le :
      (o : Obligation) (close_pct market_max : ℕ) (liquidity : ObligationLiquidity)
      (user_ltv insolvency_pct : ℕ) (reason : LiquidationReason) (x : ℕ)
      → max_liquidatable_borrowed_amount o close_pct market_max liquidity user_ltv insolvency_pct
          reason
        ≡ ok x
      → x ≤ liquidity.borrowed_amount_sf
  unfolding max_liquidatable_borrowed_amount
  max_liquidatable_borrowed_amount_le o close_pct market_max liquidity user_ltv insolvency_pct
        (LiquidationReason.obligation_order i) x e =
      order_le o liquidity i x e
  max_liquidatable_borrowed_amount_le o close_pct market_max liquidity user_ltv insolvency_pct
        LiquidationReason.ltv_exceeded x e =
      value_le o close_pct market_max liquidity user_ltv insolvency_pct x e
  max_liquidatable_borrowed_amount_le o close_pct market_max liquidity user_ltv insolvency_pct
        LiquidationReason.individual_deleveraging x e =
      value_le o close_pct market_max liquidity user_ltv insolvency_pct x e
  max_liquidatable_borrowed_amount_le o close_pct market_max liquidity user_ltv insolvency_pct
        LiquidationReason.market_wide_deleveraging x e =
      value_le o close_pct market_max liquidity user_ltv insolvency_pct x e
