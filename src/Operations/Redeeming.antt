-- ===== src/Operations/Redeeming.antt =====
-- What redemptions and withdrawals of fees do to the books of a reserve (lending_operations.rs).
use kamino_lending.Operations.Effects.{IsSame, total_supply-IsSame}
use kamino_lending.Base.Int.{ℤ}
use kamino_lending.Reserve.Deposits.{redeem_undiluted, total_supply_lem}
use kamino_lending.Operations.Checks.{require_fresh}
use kamino_lending.WithdrawalCap.{add_to_withdrawal_accum}
use kamino_lending.Operations.Pool.{
  add_to_caps, marked_stale, redeem_reserve_collateral, redeem_reserve_fees,
  refresh_reserve_limit_timestamps,
}
use kamino_lending.Operations.Accounts.{Clock, timestamp_of}
use kamino_lending.Base.{
  >>=-eq-ok, Bool, LendingError, after_guard, ap, arith, false, not, ok, ok_injective, sym, true, ℕ,
  ◌*◌, ◌+◌, ◌<◌, ◌==◌, ◌∙◌, ◌≡◌, ◌≤◌,
}
use kamino_lending.Crates.{Crates, IsExact, one}
use kamino_lending.Crates.Exact.{Crates-eq-exact}
use kamino_lending.LastUpdate.{no_checks}
use kamino_lending.Reserve.{
  Reserve, ReserveLiquidity, borrow_limit_crossed, calculate_redeem_fees, deposit_limit_crossed,
  redeem_collateral, redeem_fees, total_supply, update_borrow_limit_crossed_timestamp,
  update_deposit_limit_crossed_timestamp,
}

module _ ⦃c : Crates⦄ (laws : IsExact c) where
  pub limits_lem :
      (r r' : Reserve) (ts : ℕ)
      → refresh_reserve_limit_timestamps r ts ≡ ok r'
      → IsSame r.liquidity r'.liquidity × (r'.collateral ≡ r.collateral)
  unfolding refresh_reserve_limit_timestamps update_deposit_limit_crossed_timestamp
      update_borrow_limit_crossed_timestamp
  limits_lem r r' ts e =
      let (r₁, r₁_eq, e₁) = >>=-eq-ok (update_deposit_limit_crossed_timestamp r ts) _ e in
      let (crossed, _, e₂) = >>=-eq-ok (deposit_limit_crossed r) _ r₁_eq in
      let (crossed', _, e₃) = >>=-eq-ok (borrow_limit_crossed r₁) _ e₁ in
      let first = ok_injective e₂ in
      let second = ok_injective e₃ in
      (
        record {
          same_available =
              sym (ap (λ x. x.liquidity.available_amount) second)
              ∙ sym (ap (λ x. x.liquidity.available_amount) first);
          same_borrowed =
              sym (ap (λ x. x.liquidity.borrowed_amount_sf) second)
              ∙ sym (ap (λ x. x.liquidity.borrowed_amount_sf) first);
          same_protocol =
              sym (ap (λ x. x.liquidity.accumulated_protocol_fees_sf) second)
              ∙ sym (ap (λ x. x.liquidity.accumulated_protocol_fees_sf) first);
          same_referrer =
              sym (ap (λ x. x.liquidity.accumulated_referrer_fees_sf) second)
              ∙ sym (ap (λ x. x.liquidity.accumulated_referrer_fees_sf) first);
          same_pending =
              sym (ap (λ x. x.liquidity.pending_referrer_fees_sf) second)
              ∙ sym (ap (λ x. x.liquidity.pending_referrer_fees_sf) first);
        },
        sym (ap (λ x. x.collateral) second) ∙ sym (ap (λ x. x.collateral) first),
      )

  caps_lem :
      (asked : Bool) (r r' : Reserve) (amount : ℕ) (now : ℤ)
      → add_to_caps asked r amount now ≡ ok r'
      → (r'.liquidity ≡ r.liquidity) × (r'.collateral ≡ r.collateral)
  unfolding add_to_caps
  caps_lem false r r' amount now e =
      let same = ok_injective e in
      (sym (ap (λ x. x.liquidity) same), sym (ap (λ x. x.collateral) same))
  caps_lem true r r' amount now e =
      let (ts, _, e₁) = >>=-eq-ok (timestamp_of now) _ e in
      let (caps, _, e₂) =
        >>=-eq-ok (add_to_withdrawal_accum r.config.deposit_withdrawal_cap amount ts) _ e₁ in
      let same = ok_injective e₂ in
      (sym (ap (λ x. x.liquidity) same), sym (ap (λ x. x.collateral) same))

  pub redeem_reserve_collateral_lem :
      (r r' : Reserve) (n out : ℕ) (clock : Clock) (asked : Bool) (v v' : ℕ)
      → total_supply r.liquidity ≡ ok v
      → 0 < r.collateral.mint_total_supply
      → redeem_reserve_collateral r n clock asked ≡ ok (r', out)
      → total_supply r'.liquidity ≡ ok v'
      → (v ≡ v' + out * one)
        × (r.collateral.mint_total_supply ≡ r'.collateral.mint_total_supply + n)
        × (v * r'.collateral.mint_total_supply ≤ v' * r.collateral.mint_total_supply)
  unfolding redeem_reserve_collateral
  redeem_reserve_collateral_lem r r' n out clock asked v v' h pos_s e h' =
      let (_, e₁) = after_guard {b = not (n == 0)} LendingError.invalid_amount _ e in
      let (_, _, e₂) =
        >>=-eq-ok (require_fresh r.last_update clock.slot no_checks LendingError.reserve_stale) _
          e₁ in
      let (redeemed, redeemed_eq, e₃) = >>=-eq-ok (redeem_collateral r n) _ e₂ in
      let (ts, _, e₄) = >>=-eq-ok (timestamp_of clock.unix_timestamp) _ e₃ in
      let (stamped, stamped_eq, e₅) =
        >>=-eq-ok (refresh_reserve_limit_timestamps redeemed.0 ts) _ e₄ in
      let (capped, capped_eq, e₆) =
        >>=-eq-ok (add_to_caps asked (marked_stale stamped) redeemed.1 clock.unix_timestamp) _ e₅ in
      let result = ok_injective e₆ in
      let r_eq : capped ≡ r' = ap (λ p. p.0) result in
      let out_eq : redeemed.1 ≡ out = ap (λ p. p.1) result in
      let (same_l, same_c) =
        caps_lem asked (marked_stale stamped) capped redeemed.1 clock.unix_timestamp capped_eq in
      let (stamps, same_c') = limits_lem redeemed.0 stamped ts stamped_eq in
      let same_l' : r'.liquidity ≡ stamped.liquidity = sym (ap (λ x. x.liquidity) r_eq) ∙ same_l in
      let at_stamped : total_supply stamped.liquidity ≡ ok v' = rw same_l' at h' in
      let at_redeemed =
        total_supply-IsSame laws redeemed.0.liquidity stamped.liquidity v' stamps at_stamped in
      let shares : r'.collateral ≡ redeemed.0.collateral =
        sym (ap (λ x. x.collateral) r_eq) ∙ same_c ∙ same_c' in
      rw (shares, sym out_eq)
        (redeem_undiluted laws r redeemed.0 n redeemed.1 v v' h pos_s redeemed_eq at_redeemed)

  fees_steps :
      (l l' : ReserveLiquidity) (n v v' : ℕ)
      → redeem_fees l n ≡ ok l'
      → v + l.accumulated_protocol_fees_sf + l.accumulated_referrer_fees_sf
          + l.pending_referrer_fees_sf
        ≡ l.available_amount * one + l.borrowed_amount_sf
      → v' + l'.accumulated_protocol_fees_sf + l'.accumulated_referrer_fees_sf
          + l'.pending_referrer_fees_sf
        ≡ l'.available_amount * one + l'.borrowed_amount_sf
      → v' ≡ v
  unfolding redeem_fees
  fees_steps l l' n v v' = rw (Crates-eq-exact c laws) (λ e before after. ground arith)

  fees_lem :
      (l l' : ReserveLiquidity) (n v v' : ℕ)
      → redeem_fees l n ≡ ok l'
      → total_supply l ≡ ok v
      → total_supply l' ≡ ok v'
      → v' ≡ v
  unfolding redeem_fees
  fees_lem l l' n v v' e h h' =
      let before = total_supply_lem laws l v h in
      let after = total_supply_lem laws l' v' h' in fees_steps l l' n v v' e before after

  pub redeem_reserve_fees_lem :
      (r r' : Reserve) (slot out v v' : ℕ)
      → redeem_reserve_fees r slot ≡ ok (r', out)
      → total_supply r.liquidity ≡ ok v
      → total_supply r'.liquidity ≡ ok v'
      → (v' ≡ v) × (r'.collateral ≡ r.collateral)
  unfolding redeem_reserve_fees
  redeem_reserve_fees_lem r r' slot out v v' e h h' =
      let (_, _, e₁) =
        >>=-eq-ok (require_fresh r.last_update slot no_checks LendingError.reserve_stale) _ e in
      let (n, _, e₂) = >>=-eq-ok (calculate_redeem_fees r) _ e₁ in
      let (_, e₃) =
        after_guard {b = not (n == 0)} LendingError.insufficient_protocol_fees_to_redeem _ e₂ in
      let (l, l_eq, e₄) = >>=-eq-ok (redeem_fees r.liquidity n) _ e₃ in
      let r_eq : marked_stale (record r { liquidity = l }) ≡ r' = ap (λ p. p.0) (ok_injective e₄) in
      let at_l : total_supply l ≡ ok v' = rw (sym (ap (λ x. x.liquidity) r_eq)) at h' in
      (fees_lem r.liquidity l n v v' l_eq h at_l, sym (ap (λ x. x.collateral) r_eq))
