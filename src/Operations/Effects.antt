-- ===== src/Operations/Effects.antt =====
-- What each operation on a reserve does to its books (lending_operations.rs).
use kamino_lending.Reserve.Deposits.{deposit_terms_bounds, total_supply_lem}
use kamino_lending.Operations.Checks.{require_fresh}
use kamino_lending.WithdrawalCap.{sub_from_withdrawal_accum}
use kamino_lending.Operations.Pool.{
  GetPriceResult, deposit_reserve_liquidity, is_saved_price_age_valid, marked_stale, refresh_price,
  refresh_reserve, with_deposit_cap,
}
use kamino_lending.Operations.Accounts.{Clock, timestamp_of}
use kamino_lending.Base.{
  >>=-eq-ok, Bool-cases, LendingError, Option, after_guard, ap, arith, if_false, if_true, inl, inr,
  ltb, none, not, ok, ok_injective, same_value, some, sym, ℕ, ◌*◌, ◌+◌, ◌<◌, ◌==◌, ◌∙◌, ◌≡◌, ◌≤◌,
}
use kamino_lending.Crates.{Crates, IsExact, one, step_checked}
use kamino_lending.Crates.Exact.{Crates-eq-exact}
use kamino_lending.Fraction.{from_bps, from_percent}
use kamino_lending.LastUpdate.{no_checks, slots_elapsed, update_slot}
use kamino_lending.Reserve.Compounding.{compound_interest_shares}
use kamino_lending.Reserve.{
  DepositLiquidityResult, Reserve, ReserveLiquidity, accrue_interest, compound_interest,
  compute_depositable_amount_and_minted_collateral, current_borrow_rate, deposit_liquidity,
  total_supply,
}

-- The five amounts from which the total supply is computed are the same.
pub record IsSame (l l' : ReserveLiquidity) : Type 0 where
  pub same_available : l'.available_amount ≡ l.available_amount
  pub same_borrowed : l'.borrowed_amount_sf ≡ l.borrowed_amount_sf
  pub same_protocol : l'.accumulated_protocol_fees_sf ≡ l.accumulated_protocol_fees_sf
  pub same_referrer : l'.accumulated_referrer_fees_sf ≡ l.accumulated_referrer_fees_sf
  pub same_pending : l'.pending_referrer_fees_sf ≡ l.pending_referrer_fees_sf

equal-IsSame : (r r' : Reserve) → r' ≡ r → IsSame r.liquidity r'.liquidity
equal-IsSame r r' r_eq = record {
  same_available = ap (λ x. x.liquidity.available_amount) r_eq;
  same_borrowed = ap (λ x. x.liquidity.borrowed_amount_sf) r_eq;
  same_protocol = ap (λ x. x.liquidity.accumulated_protocol_fees_sf) r_eq;
  same_referrer = ap (λ x. x.liquidity.accumulated_referrer_fees_sf) r_eq;
  same_pending = ap (λ x. x.liquidity.pending_referrer_fees_sf) r_eq;
}

deposit_steps :
    (r r' : Reserve) (d m : ℕ)
    → deposit_liquidity r d m ≡ ok r'
    → (r'.liquidity ≡ record r.liquidity { available_amount = r.liquidity.available_amount + d })
      × (r'.collateral.mint_total_supply ≡ r.collateral.mint_total_supply + m)
unfolding deposit_liquidity
deposit_steps r r' d m e = ground arith

module _ ⦃c : Crates⦄ (laws : IsExact c) where
  pub total_supply-IsSame :
      (l l' : ReserveLiquidity) (v : ℕ)
      → IsSame l l'
      → total_supply l' ≡ ok v
      → total_supply l ≡ ok v
  unfolding total_supply
  total_supply-IsSame l l' v s e =
      let a = s.same_available in
      let b = s.same_borrowed in
      let p = s.same_protocol in
      let q = s.same_referrer in let w = s.same_pending in rw (a, b, p, q, w) at e

  take_rate_le : (pct v : ℕ) → pct ≤ 100 → from_percent pct ≡ ok v → v ≤ one
  unfolding from_percent
  take_rate_le pct v le = rw (Crates-eq-exact c laws) (λ e. ground arith)

  accrue_lem :
      (r r' : Reserve) (slot bps v v' : ℕ)
      → r.config.protocol_take_rate_pct ≤ 100
      → accrue_interest r slot bps ≡ ok r'
      → total_supply r.liquidity ≡ ok v
      → total_supply r'.liquidity ≡ ok v'
      → (v ≤ v') × (r'.collateral ≡ r.collateral)
  unfolding accrue_interest
  accrue_lem r r' slot bps v v' le e h h' =
      let (elapsed, _, e₁) = >>=-eq-ok (slots_elapsed r.last_update slot) _ e in
      elim (Bool-cases (ltb 0 elapsed)) [
        | inl some_slots ↦
            let e₂ = if_true _ some_slots e₁ in
            let (rate, _, e₃) = >>=-eq-ok (current_borrow_rate r) _ e₂ in
            let (take, take_eq, e₄) =
              >>=-eq-ok (from_percent r.config.protocol_take_rate_pct) _ e₃ in
            let (referral, _, e₅) = >>=-eq-ok (from_bps bps) _ e₄ in
            let (host, _, e₆) = >>=-eq-ok (from_bps r.config.host_fixed_interest_rate_bps) _ e₅ in
            let (l, l_eq, e₇) =
              >>=-eq-ok (compound_interest r.liquidity rate host elapsed take referral) _ e₆ in
            let r_eq : r' ≡ record r { liquidity = l } = cc in
            let at_l : total_supply l ≡ ok v' = rw (ap (λ x. x.liquidity) r_eq) at h' in
            let shared =
              compound_interest_shares laws r.liquidity l rate host elapsed take referral v v'
                (take_rate_le r.config.protocol_take_rate_pct take le take_eq) l_eq h at_l in
            (shared.1, ap (λ x. x.collateral) r_eq)
        | inr no_slot ↦
            let e₂ : ok r ≡ ok r' = if_false _ no_slot e₁ in
            let r_eq : r' ≡ r = cc in
            let at_r : total_supply r.liquidity ≡ ok v' = rw (ap (λ x. x.liquidity) r_eq) at h' in
            let same : v ≡ v' = cc in (omega arith, ap (λ x. x.collateral) r_eq)
      ]

  -- What a refresh does to the books: interest accrues, and the rest of what it writes are the price and
  -- the mark.
  priced_lem :
      (r r' : Reserve) (clock : Clock) (price : Option GetPriceResult) (flags : Option ℕ)
      → refresh_price r clock price ≡ ok (r', flags)
      → IsSame r.liquidity r'.liquidity × (r'.collateral ≡ r.collateral)
  unfolding refresh_price
  priced_lem r r' clock (some result) flags e =
      let r_eq : r' ≡ record r {
        liquidity = record r.liquidity {
          market_price_sf = result.price;
          market_price_last_updated_ts = result.timestamp;
        };
      } =
        cc in
      (
        record {
          same_available = ap (λ x. x.liquidity.available_amount) r_eq;
          same_borrowed = ap (λ x. x.liquidity.borrowed_amount_sf) r_eq;
          same_protocol = ap (λ x. x.liquidity.accumulated_protocol_fees_sf) r_eq;
          same_referrer = ap (λ x. x.liquidity.accumulated_referrer_fees_sf) r_eq;
          same_pending = ap (λ x. x.liquidity.pending_referrer_fees_sf) r_eq;
        },
        ap (λ x. x.collateral) r_eq,
      )
  priced_lem r r' clock none flags e =
      let (valid, _, e₁) = >>=-eq-ok (is_saved_price_age_valid r clock.unix_timestamp) _ e in
      let r_eq : r' ≡ r = cc in (equal-IsSame r r' r_eq, ap (λ x. x.collateral) r_eq)

  pub refresh_reserve_lem :
      (r r' : Reserve) (clock : Clock) (price : Option GetPriceResult) (bps v v' : ℕ)
      → r.config.protocol_take_rate_pct ≤ 100
      → refresh_reserve r clock price bps ≡ ok r'
      → total_supply r.liquidity ≡ ok v
      → total_supply r'.liquidity ≡ ok v'
      → (v ≤ v') × (r'.collateral ≡ r.collateral)
  unfolding refresh_reserve
  refresh_reserve_lem r r' clock price bps v v' le e h h' =
      let (accrued, accrued_eq, e₁) = >>=-eq-ok (accrue_interest r clock.slot bps) _ e in
      let (priced, priced_eq, e₂) = >>=-eq-ok (refresh_price accrued clock price) _ e₁ in
      let r_eq : r'
          ≡ record priced.0 { last_update = update_slot priced.0.last_update clock.slot priced.1 } =
        cc in
      let (same, same_collateral) = priced_lem accrued priced.0 clock price priced.1 priced_eq in
      let at_priced : total_supply priced.0.liquidity ≡ ok v' =
        rw (ap (λ x. x.liquidity) r_eq) at h' in
      let at_accrued = total_supply-IsSame accrued.liquidity priced.0.liquidity v' same at_priced in
      let (grown, kept) = accrue_lem r accrued clock.slot bps v v' le accrued_eq h at_accrued in
      (grown, ap (λ x. x.collateral) r_eq ∙ same_collateral ∙ kept)

  -- A deposit into a pool with shares out takes no more than is offered, leaves the pool within its
  -- deposit limit, raises its value by what it takes, and mints shares that are worth no more than that.
  pub deposit_reserve_liquidity_lem :
      (r r' : Reserve) (clock : Clock) (n v v' : ℕ) (res : DepositLiquidityResult)
      → total_supply r.liquidity ≡ ok v
      → 0 < r.collateral.mint_total_supply
      → deposit_reserve_liquidity r clock n ≡ ok (r', res)
      → total_supply r'.liquidity ≡ ok v'
      → (res.collateral_amount * v ≤ res.liquidity_amount * one * r.collateral.mint_total_supply)
        × (v' ≡ v + res.liquidity_amount * one)
        × (r'.collateral.mint_total_supply ≡ r.collateral.mint_total_supply + res.collateral_amount)
        × (v' ≤ r.config.deposit_limit * one)
        × (res.liquidity_amount ≤ n)
  unfolding deposit_reserve_liquidity
  deposit_reserve_liquidity_lem r r' clock n v v' res h pos_s e h' =
      let (_, e₁) = after_guard {b = not (n == 0)} LendingError.invalid_amount _ e in
      let (_, _, e₂) =
        >>=-eq-ok (require_fresh r.last_update clock.slot no_checks LendingError.reserve_stale) _
          e₁ in
      let (terms, terms_eq, e₃) =
        >>=-eq-ok (compute_depositable_amount_and_minted_collateral r n) _ e₂ in
      let (_, e₄) = step_checked _ (laws.from_num_lem terms.liquidity_amount) e₃ in
      let (_, e₅) = step_checked _ (laws.from_num_lem r.config.deposit_limit) e₄ in
      let (v₁, v_eq, e₆) = >>=-eq-ok (total_supply r.liquidity) _ e₅ in
      let (_, e₇) = step_checked _ (laws.add_lem (terms.liquidity_amount * one) v₁) e₆ in
      let (within, e₈) =
        after_guard
          {b = not (ltb (r.config.deposit_limit * one) (terms.liquidity_amount * one + v₁))}
          LendingError.deposit_limit_exceeded _ e₇ in
      let (ts, _, e₉) = >>=-eq-ok (timestamp_of clock.unix_timestamp) _ e₈ in
      let (caps, _, e₁₀) =
        >>=-eq-ok
          (sub_from_withdrawal_accum r.config.deposit_withdrawal_cap terms.liquidity_amount ts) _
          e₉ in
      let (deposited, deposited_eq, e₁₁) =
        >>=-eq-ok
          (deposit_liquidity (with_deposit_cap r caps) terms.liquidity_amount
            terms.collateral_amount)
          _ e₁₀ in
      let terms_eq' : terms ≡ res = ap (λ p. p.1) (ok_injective e₁₁) in
      let r_eq : r' ≡ marked_stale deposited = sym (ap (λ p. p.0) (ok_injective e₁₁)) in
      let (books, minted) =
        deposit_steps (with_deposit_cap r caps) deposited terms.liquidity_amount
          terms.collateral_amount deposited_eq in
      let (asked, fair, _) = deposit_terms_bounds laws r n v terms h pos_s terms_eq in
      let d_eq : terms.liquidity_amount ≡ res.liquidity_amount =
        ap (λ x. x.liquidity_amount) terms_eq' in
      let m_eq : terms.collateral_amount ≡ res.collateral_amount =
        ap (λ x. x.collateral_amount) terms_eq' in
      let s_eq : r'.collateral.mint_total_supply
          ≡ r.collateral.mint_total_supply + terms.collateral_amount =
        ap (λ x. x.collateral.mint_total_supply) r_eq ∙ minted in
      let at_r' : total_supply deposited.liquidity ≡ ok v' =
        rw (ap (λ x. x.liquidity) r_eq) at h' in
      let before = total_supply_lem laws r.liquidity v h in
      let after = total_supply_lem laws deposited.liquidity v' at_r' in
      let v_eq' : v₁ ≡ v = same_value v_eq h in
      let a_eq = ap (λ x. x.available_amount) books in
      let b_eq = ap (λ x. x.borrowed_amount_sf) books in
      let p_eq = ap (λ x. x.accumulated_protocol_fees_sf) books in
      let q_eq = ap (λ x. x.accumulated_referrer_fees_sf) books in
      let w_eq = ap (λ x. x.pending_referrer_fees_sf) books in
      let grown : v' ≡ v + terms.liquidity_amount * one = omega arith in
      let limit : terms.liquidity_amount * one + v₁ ≤ r.config.deposit_limit * one = ground arith in
      rw (sym d_eq, sym m_eq) (fair, grown, s_eq, omega arith, asked)
