-- ===== src/Reserve/Deposits.antt =====
-- Deposits and redemptions of a reserve (state/reserve.rs): what a user can gain or lose by them.
use kamino_lending.Base.{
  >>=-eq-ok, >>=-ne-err, LendingError, arith, err, inl, inr, ok, sym, ℕ, ◌*◌, ◌+◌, ◌-◌, ◌<◌, ◌≡◌,
  ◌≢◌, ◌≤◌, ◌⊎◌,
}
use kamino_lending.Crates.{Crates, IsExact, one}
use kamino_lending.Crates.Exact.{Crates-eq-exact}
use native.Mathlib.Nat.{le_of_mul-le-mul_right}
use kamino_lending.Reserve.Liquidity.{ReserveLiquidity, total_supply}
use kamino_lending.Reserve.Collateral.{
  CollateralExchangeRate, collateral_to_liquidity, collateral_to_liquidity_ceil,
  initial_collateral_rate, liquidity_to_collateral,
}
use kamino_lending.Reserve.State.{
  DepositLiquidityResult, Reserve, collateral_exchange_rate,
  compute_depositable_amount_and_minted_collateral, deposit_liquidity, redeem_collateral,
}
use kamino_lending.Reserve.Exchange.{
  ceil-le-offer, collateral_to_liquidity_ceil-ne-err, collateral_to_liquidity_ceil_least,
  collateral_to_liquidity_floor, liquidity_to_collateral-ne-err,
}

-- The rate that `exchange_rate` gives to a reserve that has minted collateral.
record IsRate (rate : CollateralExchangeRate) (supply liquidity : ℕ) : Type 0 where
  either :
      ((liquidity ≡ 0) × (rate ≡ initial_collateral_rate))
      ⊎ ((0 < liquidity) × (rate ≡ record { collateral_supply = supply; liquidity = liquidity }))

undiluted : (v v' w s s' n : ℕ) → v ≡ v' + w → s ≡ s' + n → w * s ≤ n * v → v * s' ≤ v' * s
undiluted v v' w s s' n hv hs h =
    let h' : w * (s' + n) ≤ n * (v' + w) = rw (hs, hv) at h in rw (hv, hs) (omega arith)

-- The redemption of what a deposit of d has just minted, in a pool of v / s.
no_profit :
    (v s m d out : ℕ)
    → 0 < s
    → m * v ≤ d * one * s
    → out * one * (s + m) ≤ m * (v + d * one)
    → out ≤ d
no_profit v s m d out pos_s cover paid =
    let bound : out * one * (s + m) ≤ d * one * (s + m) = omega arith in
    let cancelled : out * one ≤ d * one = le_of_mul-le-mul_right bound (omega arith) in omega arith

module _ ⦃c : Crates⦄ (laws : IsExact c) where
  pub total_supply_lem :
      (l : ReserveLiquidity) (v : ℕ)
      → total_supply l ≡ ok v
      → v + l.accumulated_protocol_fees_sf + l.accumulated_referrer_fees_sf
          + l.pending_referrer_fees_sf
        ≡ l.available_amount * one + l.borrowed_amount_sf
  unfolding total_supply
  total_supply_lem l v = rw (Crates-eq-exact c laws) (λ e. ground arith)

  total_supply-ne-err : (l : ReserveLiquidity) (e : LendingError) → total_supply l ≢ err e
  unfolding total_supply
  total_supply-ne-err l e = rw (Crates-eq-exact c laws) (λ h. ground arith)

  rate-ne-err : (r : Reserve) (e : LendingError) → collateral_exchange_rate r ≢ err e
  unfolding collateral_exchange_rate
  rate-ne-err r e =
      >>=-ne-err (total_supply r.liquidity) _ (total_supply-ne-err r.liquidity e) λ v _ h. cc

  rate_lem :
      (r : Reserve) (rate : CollateralExchangeRate) (v : ℕ)
      → total_supply r.liquidity ≡ ok v
      → 0 < r.collateral.mint_total_supply
      → collateral_exchange_rate r ≡ ok rate
      → IsRate rate r.collateral.mint_total_supply v
  unfolding collateral_exchange_rate
  rate_lem r rate v h pos_s e = ground arith

  -- The three steps of a computation of deposit terms that succeeds.
  record Terms (r : Reserve) (n : ℕ) (res : DepositLiquidityResult) : Type 0 where
    rate : CollateralExchangeRate
    rate_eq : collateral_exchange_rate r ≡ ok rate
    minted : liquidity_to_collateral rate n ≡ ok res.collateral_amount
    asked : collateral_to_liquidity_ceil rate res.collateral_amount ≡ ok res.liquidity_amount

  terms :
      (r : Reserve) (n : ℕ) (res : DepositLiquidityResult)
      → compute_depositable_amount_and_minted_collateral r n ≡ ok res
      → Terms r n res
  unfolding compute_depositable_amount_and_minted_collateral
  terms r n res e =
      let (rate, rate_eq, e₁) = >>=-eq-ok (collateral_exchange_rate r) _ e in
      let (m, minted, e₂) = >>=-eq-ok (liquidity_to_collateral rate n) _ e₁ in
      let (d, asked, e₃) = >>=-eq-ok (collateral_to_liquidity_ceil rate m) _ e₂ in
      let m_eq : m ≡ res.collateral_amount = ground arith in
      let d_eq : d ≡ res.liquidity_amount = ground arith in
      record { rate = rate; rate_eq = rate_eq; minted = cc; asked = cc }

  -- The terms of a deposit are never refused: the guard against a payment above the offer cannot
  -- fire, and no other step returns an error.
  pub deposit_terms-ne-err :
      (r : Reserve) (n : ℕ) (e : LendingError)
      → compute_depositable_amount_and_minted_collateral r n ≢ err e
  unfolding compute_depositable_amount_and_minted_collateral
  deposit_terms-ne-err r n e = >>=-ne-err (collateral_exchange_rate r) _ (rate-ne-err r e) λ rate _.
      >>=-ne-err (liquidity_to_collateral rate n) _ (liquidity_to_collateral-ne-err laws rate n e)
        λ m minted.
          >>=-ne-err (collateral_to_liquidity_ceil rate m) _
            (collateral_to_liquidity_ceil-ne-err laws rate m e)
            λ d asked h. ground (arith, ceil-le-offer laws rate n m d minted asked)

  -- A deposit never asks for more than was offered, nor for less than what the minted collateral is
  -- worth at the pool's liquidity per collateral token.
  pub deposit_terms_bounds :
      (r : Reserve) (n v : ℕ) (res : DepositLiquidityResult)
      → total_supply r.liquidity ≡ ok v
      → 0 < r.collateral.mint_total_supply
      → compute_depositable_amount_and_minted_collateral r n ≡ ok res
      → (res.liquidity_amount ≤ n)
        × (res.collateral_amount * v ≤ res.liquidity_amount * one * r.collateral.mint_total_supply)
        × ((0 < v) ⊎ (res.collateral_amount ≤ res.liquidity_amount))
  deposit_terms_bounds r n v res h pos_s e =
      let t = terms r n res e in
      let m = res.collateral_amount in
      let d = res.liquidity_amount in
      let is_rate = rate_lem r t.rate v h pos_s t.rate_eq in
      let cover = (collateral_to_liquidity_ceil_least laws t.rate m d t.asked).0 in
      let asked_le = ceil-le-offer laws t.rate n m d t.minted t.asked in
      elim is_rate.either [
        | inl (empty, initial) ↦
            let cover' : m * one ≤ d * one * 1 = rw initial at cover in
            (asked_le, rw empty (omega arith), inr (omega arith))
        | inr (pos_v, same) ↦
            let cover' : m * v ≤ d * one * r.collateral.mint_total_supply = rw same at cover in
            (asked_le, cover', inl pos_v)
      ]

  -- In a pool that has collateral out, a deposit at the computed terms never lowers the liquidity
  -- that each collateral token stands for: v / s before is at most v' / s' after.
  pub deposit_undiluted :
      (r r' : Reserve) (n v v' : ℕ) (res : DepositLiquidityResult)
      → total_supply r.liquidity ≡ ok v
      → 0 < r.collateral.mint_total_supply
      → compute_depositable_amount_and_minted_collateral r n ≡ ok res
      → deposit_liquidity r res.liquidity_amount res.collateral_amount ≡ ok r'
      → total_supply r'.liquidity ≡ ok v'
      → (v' ≡ v + res.liquidity_amount * one)
        × (r'.collateral.mint_total_supply ≡ r.collateral.mint_total_supply + res.collateral_amount)
        × (v * r'.collateral.mint_total_supply ≤ v' * r.collateral.mint_total_supply)
  unfolding deposit_liquidity
  deposit_undiluted r r' n v v' res h pos_s e done h' =
      let before = total_supply_lem r.liquidity v h in
      let after = total_supply_lem r'.liquidity v' h' in
      let v_eq : v' ≡ v + res.liquidity_amount * one = ground arith in
      let s_eq : r'.collateral.mint_total_supply
          ≡ r.collateral.mint_total_supply + res.collateral_amount =
        ground arith in
      let bounds = deposit_terms_bounds r n v res h pos_s e in
      (v_eq, s_eq, rw (v_eq, s_eq) (omega arith))

  redeem_steps :
      (r r' : Reserve) (n out : ℕ)
      → redeem_collateral r n ≡ ok (r', out)
      → (rate : CollateralExchangeRate) × (collateral_exchange_rate r ≡ ok rate)
        × (collateral_to_liquidity rate n ≡ ok out)
        × (r'.collateral.mint_total_supply + n ≡ r.collateral.mint_total_supply)
        × (r'.liquidity
            ≡ record r.liquidity { available_amount = r.liquidity.available_amount - out })
        × (out ≤ r.liquidity.available_amount)
  unfolding redeem_collateral
  redeem_steps r r' n out e =
      let (rate, rate_eq, e₁) = >>=-eq-ok (collateral_exchange_rate r) _ e in
      let (w, paid, e₂) = >>=-eq-ok (collateral_to_liquidity rate n) _ e₁ in
      let w_eq : w ≡ out = ground arith in
      (rate, rate_eq, cc, ground arith, ground arith, ground arith)

  -- In a pool that has collateral out, a redemption never lowers the liquidity that each remaining
  -- collateral token stands for.
  pub redeem_undiluted :
      (r r' : Reserve) (n out v v' : ℕ)
      → total_supply r.liquidity ≡ ok v
      → 0 < r.collateral.mint_total_supply
      → redeem_collateral r n ≡ ok (r', out)
      → total_supply r'.liquidity ≡ ok v'
      → (v ≡ v' + out * one)
        × (r.collateral.mint_total_supply ≡ r'.collateral.mint_total_supply + n)
        × (v * r'.collateral.mint_total_supply ≤ v' * r.collateral.mint_total_supply)
  redeem_undiluted r r' n out v v' h pos_s e h' =
      let (rate, rate_eq, paid, burnt, moved, enough) = redeem_steps r r' n out e in
      let before = total_supply_lem r.liquidity v h in
      let after = total_supply_lem r'.liquidity v' h' in
      let v_eq : v ≡ v' + out * one = ground arith in
      let is_rate = rate_lem r rate v h pos_s rate_eq in
      let floor_bound = (collateral_to_liquidity_floor laws rate n out paid).0 in
      elim is_rate.either [
        | inl (empty, initial) ↦ (v_eq, sym burnt, rw empty (omega arith))
        | inr (pos_v, same) ↦
            let bound : out * one * r.collateral.mint_total_supply ≤ n * v =
              rw same at floor_bound in
            (
              v_eq,
              sym burnt,
              undiluted v v' (out * one) r.collateral.mint_total_supply
                  r'.collateral.mint_total_supply n v_eq (sym burnt) bound,
            )
      ]

  -- In a pool that has collateral out, whoever redeems at once the collateral that a deposit has
  -- minted gets no more than the deposit took, and so no more than was offered.
  pub deposit_then_redeem :
      (r r' r'' : Reserve) (n v v' out : ℕ) (res : DepositLiquidityResult)
      → total_supply r.liquidity ≡ ok v
      → 0 < r.collateral.mint_total_supply
      → compute_depositable_amount_and_minted_collateral r n ≡ ok res
      → deposit_liquidity r res.liquidity_amount res.collateral_amount ≡ ok r'
      → total_supply r'.liquidity ≡ ok v'
      → redeem_collateral r' res.collateral_amount ≡ ok (r'', out)
      → (out ≤ res.liquidity_amount) × (res.liquidity_amount ≤ n)
  deposit_then_redeem r r' r'' n v v' out res h pos_s e done h' redeemed =
      let (v_eq, s_eq, _) = deposit_undiluted r r' n v v' res h pos_s e done h' in
      let (asked_le, cover, worth) = deposit_terms_bounds r n v res h pos_s e in
      let (rate, rate_eq, paid, _, _, _) = redeem_steps r' r'' res.collateral_amount out redeemed in
      let is_rate = rate_lem r' rate v' h' (omega arith) rate_eq in
      let floor_bound =
        (collateral_to_liquidity_floor laws rate res.collateral_amount out paid).0 in
      elim is_rate.either [
        | inl (empty, initial) ↦
            let at_par : out * one * 1 ≤ res.collateral_amount * one = rw initial at floor_bound in
            (omega arith, asked_le)
        | inr (pos_v, same) ↦
            let bound : out * one * r'.collateral.mint_total_supply ≤ res.collateral_amount * v' =
              rw same at floor_bound in
            let bound' = rw (s_eq, v_eq) at bound in
            (
              no_profit v r.collateral.mint_total_supply res.collateral_amount res.liquidity_amount
                  out pos_s cover bound',
              asked_le,
            )
      ]
