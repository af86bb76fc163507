-- ===== src/Operations/Referrals.antt =====
-- What the referrers' fees do to the books of a reserve (lending_operations.rs).
use kamino_lending.Base.{
  >>=-eq-ok, Bool, Bool-cases, LendingError, Option, after_guard, ap, arith, if_false, if_true, inl,
  inr, ltb, not, ok, ok_injective, refl, sym, u128_max, ℕ, ◌&&◌, ◌*◌, ◌+◌, ◌-◌, ◌==◌, ◌∙◌, ◌≡◌,
}
use kamino_lending.Crates.{Crates, IsExact, one, step_checked, step_difference}
use kamino_lending.Crates.Exact.{Crates-eq-exact}
use kamino_lending.Fraction.{Fraction}
use kamino_lending.LastUpdate.{all_checks}
use kamino_lending.LendingMarket.{LendingMarket}
use kamino_lending.Reserve.{
  Pubkey, ReferrerTokenState, Reserve, ReserveLiquidity, get_withdraw_referrer_fees, total_supply,
  withdraw_referrer_fees,
}
use kamino_lending.Reserve.Deposits.{total_supply_lem}
use kamino_lending.Operations.Accounts.{next_key}
use kamino_lending.Operations.Checks.{require_fresh}
use kamino_lending.Operations.Pool.{
  add_referrer_fee, keep_referrer_fee, marked_stale, refresh_reserve_limit_timestamps,
  withdraw_reserve_referrer_fees,
}
use kamino_lending.Operations.Refresh.{BorrowPass}
use kamino_lending.Operations.RefreshBorrows.{
  DeriveAddress, accumulate_referrer_fees, pay_referrer, pending_fee, validate_referrer_token_state,
  with_pending,
}
use kamino_lending.Operations.Effects.{total_supply-IsSame}
use kamino_lending.Operations.Redeeming.{limits_lem}
use kamino_lending.Operations.Lending.{credited_lem, keep_lem}

module _ ⦃c : Crates⦄ (laws : IsExact c) where
  -- The referrer's part of a fee stays in the pool, and its value stays what it was.
  pub keep_referrer_fee_lem :
      (market : LendingMarket) (r r' : Reserve) (state state' : Option ReferrerTokenState)
      (fee v v' : ℕ)
      → keep_referrer_fee market r state fee ≡ ok (r', state')
      → total_supply r.liquidity ≡ ok v
      → total_supply r'.liquidity ≡ ok v'
      → (v' ≡ v) × (r'.collateral ≡ r.collateral)
  keep_referrer_fee_lem market r r' state state' fee v v' e h h' =
      let k = keep_lem laws market r r' state state' fee e in
      let before = total_supply_lem laws r.liquidity v h in
      let after = total_supply_lem laws r'.liquidity v' h' in
      let a = k.more_available in
      let b = k.same_borrowed in
      let p = k.same_protocol in
      let q = k.more_referrer in
      let w = k.same_pending in (omega (arith, before, after, a, b, p, q, w), k.same_collateral)

  withdrawal_steps :
      (l l' : ReserveLiquidity) (state state' : ReferrerTokenState) (n v v' : ℕ)
      → withdraw_referrer_fees l n state ≡ ok (l', state')
      → v + l.accumulated_protocol_fees_sf + l.accumulated_referrer_fees_sf
          + l.pending_referrer_fees_sf
        ≡ l.available_amount * one + l.borrowed_amount_sf
      → v' + l'.accumulated_protocol_fees_sf + l'.accumulated_referrer_fees_sf
          + l'.pending_referrer_fees_sf
        ≡ l'.available_amount * one + l'.borrowed_amount_sf
      → v' ≡ v
  unfolding withdraw_referrer_fees
  withdrawal_steps l l' state state' n v v' =
      rw (Crates-eq-exact c laws) (λ e before after. ground arith)

  pub withdraw_reserve_referrer_fees_lem :
      (r r' : Reserve) (slot out : ℕ) (state state' : ReferrerTokenState) (v v' : ℕ)
      → withdraw_reserve_referrer_fees r slot state ≡ ok (r', state', out)
      → total_supply r.liquidity ≡ ok v
      → total_supply r'.liquidity ≡ ok v'
      → (v' ≡ v) × (r'.collateral ≡ r.collateral)
  unfolding withdraw_reserve_referrer_fees
  withdraw_reserve_referrer_fees_lem r r' slot out state state' v v' e h h' =
      let (_, _, e₁) =
        >>=-eq-ok (require_fresh r.last_update slot all_checks LendingError.reserve_stale) _ e in
      let (n, _, e₂) = >>=-eq-ok (get_withdraw_referrer_fees r state) _ e₁ in
      let (_, e₃) =
        after_guard {b = not (n == 0)} LendingError.insufficient_referral_fees_to_redeem _ e₂ in
      let (paid, paid_eq, e₄) = >>=-eq-ok (withdraw_referrer_fees r.liquidity n state) _ e₃ in
      let r_eq : marked_stale (record r { liquidity = paid.0 }) ≡ r' =
        ap (λ p. p.0) (ok_injective e₄) in
      let at_l : total_supply paid.0 ≡ ok v' = rw (sym (ap (λ x. x.liquidity) r_eq)) at h' in
      (
        withdrawal_steps r.liquidity paid.0 state paid.1 n v v' paid_eq
            (total_supply_lem laws r.liquidity v h) (total_supply_lem laws paid.0 v' at_l),
        sym (ap (λ x. x.collateral) r_eq),
      )

  paid_lem :
      (derive : DeriveAddress) (key : Pubkey) (r r' : Reserve) (referrer : Pubkey) (fee : Fraction)
      (pass pass' : BorrowPass)
      → pay_referrer derive key r referrer fee pass ≡ ok (r', pass')
      → r' ≡ record r {
        liquidity = record r.liquidity {
          accumulated_referrer_fees_sf = r.liquidity.accumulated_referrer_fees_sf + fee;
        };
      }
  unfolding pay_referrer
  paid_lem derive key r r' referrer fee pass pass' e =
      let (taken, _, e₁) = >>=-eq-ok (next_key pass.state_keys) _ e in
      let state = pass.states taken.0 in
      let (_, _, e₂) =
        >>=-eq-ok
          (validate_referrer_token_state derive state taken.0 r.liquidity.mint_pubkey referrer key)
          _ e₁ in
      let (credited, credited_eq, e₃) = >>=-eq-ok (add_referrer_fee r state fee) _ e₂ in
      sym (ap (λ p. p.0) (ok_injective e₃))
      ∙ credited_lem laws r credited.0 state credited.1 fee credited_eq

  -- The fee moves from the pending fees to the referrer's or to the protocol's.
  pub accumulate_referrer_fees_lem :
      (derive : DeriveAddress) (key : Pubkey) (r r' : Reserve) (referrer : Pubkey) (bps elapsed : ℕ)
      (owed previous : Fraction) (referred : Bool) (pass pass' : BorrowPass) (v v' : ℕ)
      → accumulate_referrer_fees derive key r referrer bps elapsed owed previous referred pass
        ≡ ok (r', pass')
      → total_supply r.liquidity ≡ ok v
      → total_supply r'.liquidity ≡ ok v'
      → (v' ≡ v) × (r'.collateral ≡ r.collateral)
  unfolding accumulate_referrer_fees
  accumulate_referrer_fees_lem derive key r r' referrer bps elapsed owed previous referred pass
        pass' v v' e h h' =
      let before = total_supply_lem laws r.liquidity v h in
      let after = total_supply_lem laws r'.liquidity v' h' in
      elim (Bool-cases (r.liquidity.absolute_referral_rate_sf == 0)) [
        | inl no_rate ↦
            let same = ap (λ p. p.0) (ok_injective (if_true _ no_rate e)) in
            let after' = rw (← same) at after in
            (omega (arith, before, after'), sym (ap (λ x. x.collateral) same))
        | inr rated ↦
            let (fee, _, e₁) =
              >>=-eq-ok (pending_fee r elapsed owed previous) _ (if_false _ rated e) in
            let pending = r.liquidity.pending_referrer_fees_sf in
            let (enough, e₂) = step_difference {a = pending} {b = fee} _ refl e₁ in
            let left = with_pending r (pending - fee) in
            elim (Bool-cases (referred && ltb 0 bps)) [
              | inl to_referrer ↦
                  let r_eq =
                    paid_lem derive key left r' referrer fee pass pass'
                      (if_true _ to_referrer e₂) in
                  let after' = rw r_eq at after in
                  (omega (arith, before, after', enough), ap (λ x. x.collateral) r_eq)
              | inr to_protocol ↦
                  let (_, e₃) =
                    step_checked {bound = u128_max}
                      {v = r.liquidity.accumulated_protocol_fees_sf + fee} _ refl
                      (if_false _ to_protocol e₂) in
                  let r_eq = sym (ap (λ p. p.0) (ok_injective e₃)) in
                  let after' = rw r_eq at after in
                  (omega (arith, before, after', enough), ap (λ x. x.collateral) r_eq)
            ]
      ]

  pub stamps_lem :
      (r r' : Reserve) (timestamp v v' : ℕ)
      → refresh_reserve_limit_timestamps r timestamp ≡ ok r'
      → total_supply r.liquidity ≡ ok v
      → total_supply r'.liquidity ≡ ok v'
      → (v' ≡ v) × (r'.collateral ≡ r.collateral)
  stamps_lem r r' timestamp v v' e h h' =
      let (stamps, same) = limits_lem laws r r' timestamp e in
      (
        ok_injective (sym (total_supply-IsSame laws r.liquidity r'.liquidity v' stamps h') ∙ h),
        same,
      )
