-- ===== src/Operations/Health.antt =====
-- What holds of an obligation after a borrow (lending_operations.rs).
use kamino_lending.Operations.Accounts.{Accounts, Clock, at, put, timestamp_of}
use kamino_lending.Operations.Checks.{require_fresh}
use kamino_lending.Operations.Values.{
  above_least, calculate_market_value_from_liquidity_amount, post_borrow_obligation_invariants,
}
use kamino_lending.Operations.Trackers.{update_elevation_group_debt_trackers_on_borrow}
use kamino_lending.Operations.Tiers.{validate_obligation_asset_tiers}
use kamino_lending.Operations.Pool.{is_given, keep_referrer_fee, with_debt_cap}
use kamino_lending.Operations.Loans.{
  BorrowOutcome, borrow_obligation_liquidity, check_borrow, check_utilization_limit,
  complete_borrow, enter_debt, stale_obligation,
}
use kamino_lending.Base.{
  >>=-eq-ok, Bool, LendingError, List, Option, after_guard, ap, arith, false, ltb, not, ok,
  ok_injective, refl, sym, true, u128_max, u64_max, ℕ, ◌&&◌, ◌*◌, ◌+◌, ◌/◌, ◌<◌, ◌==◌, ◌∙◌, ◌≡◌,
  ◌≤◌, ◌⊎◌,
}
use kamino_lending.Crates.{Crates, IsExact, one, step_checked, step_div}
use kamino_lending.Fraction.{Fraction, to_ceil}
use kamino_lending.LastUpdate.{all_checks}
use kamino_lending.WithdrawalCap.{add_to_withdrawal_accum}
use kamino_lending.Reserve.{
  CalculateBorrowResult, Pubkey, ReferrerTokenState, Reserve, borrow_factor_f, calculate_borrow,
  utilization_rate,
}
use kamino_lending.LendingMarket.{
  LendingMarket, elevation_group_at, elevation_group_none, is_borrowing_disabled,
}
use kamino_lending.Obligation.{
  Obligation, check_not_marked_for_deleveraging, has_obsolete_reserves, unhealthy_loan_to_value,
}
use kamino_lending.Orders.{check_orders_supported_after_user_operation}

module _ ⦃c : Crates⦄ where
  -- The obligation with a new debt of this amount: the debt that is weighed by the borrow factor keeps it
  -- within its unhealthy LTV, its deposits are worth more than its debts, and what it owes of the asset is
  -- not dust.
  pub record IsHealthy (o : Obligation) (r : Reserve) (amount value_before least : Fraction)
      : Type 0 where
    pub value : Fraction
    pub factor : Fraction
    pub limit : Fraction
    pub value_eq : calculate_market_value_from_liquidity_amount r amount ≡ ok value
    pub factor_eq : borrow_factor_f r (not (o.elevation_group == elevation_group_none)) ≡ ok factor
    pub limit_eq : unhealthy_loan_to_value o ≡ ok limit
    pub within :
        (o.borrow_factor_adjusted_debt_value_sf + value * factor / one) * one / o.deposited_value_sf
        ≤ limit
    pub covered : o.borrowed_assets_market_value_sf + value < o.deposited_value_sf
    pub not_dust : (value_before + value ≡ 0) ⊎ (least ≤ value_before + value)

  -- What the reserve and the market allowed.
  pub record IsAllowed (market : LendingMarket) (r : Reserve) (o : Obligation) (n : ℕ)
      : Type 0 where
    pub enabled : is_borrowing_disabled market ≡ false
    pub no_obsolete : has_obsolete_reserves o ≡ false
    pub within_limit :
        (n ≡ u64_max) ⊎ (n * one + r.liquidity.borrowed_amount_sf ≤ r.config.borrow_limit * one)

  transport-IsHealthy :
      {o o' : Obligation} {r r' : Reserve} {f f' value least : Fraction}
      → o ≡ o'
      → r ≡ r'
      → f ≡ f'
      → IsHealthy o r f value least
      → IsHealthy o' r' f' value least
  transport-IsHealthy o_eq r_eq f_eq h = rw (sym o_eq, sym r_eq, sym f_eq) h

  positive : (n : ℕ) → not (n == 0) ≡ true → 0 < n
  positive n e = ground arith

  positive_at : {n m : ℕ} → n ≡ m → 0 < n → 0 < m
  positive_at e h = omega arith

  dust_lem : (value least : ℕ) → above_least value least ≡ ok tt → (value ≡ 0) ⊎ (least ≤ value)
  dust_lem value least e = ground arith

module _ ⦃c : Crates⦄ (laws : IsExact c) where
  pub post_borrow_lem :
      (amount : Fraction) (o : Obligation) (r : Reserve) (value_before least : Fraction)
      → post_borrow_obligation_invariants amount o r value_before least ≡ ok tt
      → IsHealthy o r amount value_before least
  unfolding post_borrow_obligation_invariants
  post_borrow_lem amount o r value_before least e =
      let (mv, mv_eq, e₁) = >>=-eq-ok (calculate_market_value_from_liquidity_amount r amount) _ e in
      let (factor, factor_eq, e₂) =
        >>=-eq-ok (borrow_factor_f r (not (o.elevation_group == elevation_group_none))) _ e₁ in
      let (_, e₃) = step_checked _ (laws.mul_lem mv factor) e₂ in
      let (_, e₄) =
        step_checked _ (laws.add_lem o.borrow_factor_adjusted_debt_value_sf (mv * factor / one))
          e₃ in
      let (_, e₅) = step_checked _ (laws.add_lem o.borrowed_assets_market_value_sf mv) e₄ in
      let (_, e₆) = step_checked _ (laws.add_lem value_before mv) e₅ in
      let (_, least_eq, e₇) = >>=-eq-ok (above_least (value_before + mv) least) _ e₆ in
      let (_, e₈) =
        step_div _ u128_max _
          (laws.div_lem (o.borrow_factor_adjusted_debt_value_sf + mv * factor / one)
            o.deposited_value_sf)
          e₇ in
      let (limit, limit_eq, e₉) = >>=-eq-ok (unhealthy_loan_to_value o) _ e₈ in
      let ltv =
        (o.borrow_factor_adjusted_debt_value_sf + mv * factor / one) * one / o.deposited_value_sf in
      let (below, e₁₀) =
        after_guard {b = not (ltb limit ltv)} LendingError.worse_ltv_than_unhealthy_ltv _ e₉ in
      record {
        value = mv;
        factor = factor;
        limit = limit;
        value_eq = mv_eq;
        factor_eq = factor_eq;
        limit_eq = limit_eq;
        within = ground arith;
        covered = ground arith;
        not_dust = dust_lem (value_before + mv) least least_eq;
      }

  limit_lem :
      (n limit borrowed : ℕ)
      → not (not (n == u64_max) && ltb limit (n * one + borrowed)) ≡ true
      → (n ≡ u64_max) ⊎ (n * one + borrowed ≤ limit)
  limit_lem n limit borrowed e = ground arith

  false_of_not : (b : Bool) → not b ≡ true → b ≡ false
  false_of_not false e = refl
  false_of_not true e = cc

  pub check_borrow-IsAllowed :
      (market : LendingMarket) (r : Reserve) (o : Obligation) (n slot : ℕ)
      (limits : Fraction × Fraction)
      → check_borrow market r o n slot ≡ ok limits
      → IsAllowed market r o n
  unfolding check_borrow
  check_borrow-IsAllowed market r o n slot limits e =
      let (_, e₁) = after_guard {b = not (n == 0)} LendingError.invalid_amount _ e in
      let (_, _, e₂) =
        >>=-eq-ok (require_fresh r.last_update slot all_checks LendingError.reserve_stale) _ e₁ in
      let (enabled, e₃) =
        after_guard {b = not (is_borrowing_disabled market)} LendingError.borrowing_disabled _ e₂ in
      let (_, _, e₄) = >>=-eq-ok (check_not_marked_for_deleveraging o) _ e₃ in
      let (current, e₅) =
        after_guard {b = not (has_obsolete_reserves o)} LendingError.obligation_in_obsolete_reserve
          _ e₄ in
      let (_, _, e₆) = >>=-eq-ok (utilization_rate r.liquidity) _ e₅ in
      let (_, e₇) = step_checked _ (laws.from_num_lem n) e₆ in
      let (_, e₈) = step_checked _ (laws.from_num_lem r.config.borrow_limit) e₇ in
      let (_, e₉) = step_checked _ (laws.add_lem (n * one) r.liquidity.borrowed_amount_sf) e₈ in
      let (within, _) =
        after_guard
          {b = not (
            not (n == u64_max)
            && ltb (r.config.borrow_limit * one) (n * one + r.liquidity.borrowed_amount_sf))}
          LendingError.borrow_limit_exceeded _ e₉ in
      record {
        enabled = false_of_not (is_borrowing_disabled market) enabled;
        no_obsolete = false_of_not (has_obsolete_reserves o) current;
        within_limit =
            limit_lem n (r.config.borrow_limit * one) r.liquidity.borrowed_amount_sf within;
      }

  refl_true : (key : ℕ) → (key == key) ≡ true
  refl_true key = ground arith

  put_same : (accounts : Accounts) (key : Pubkey) (r : Reserve) → put accounts key r key ≡ r
  put_same accounts key r = rw (refl_true key) refl

  finish_lem :
      (accounts : Accounts) (key : Pubkey) (r : Reserve) (o : Obligation)
      (state : Option ReferrerTokenState) (res : CalculateBorrowResult) (out : BorrowOutcome)
      → record {
        accounts = put accounts key r;
        obligation = o;
        referrer_token_state = state;
        result = res;
      }
        ≡ out
      → (out.result ≡ res) × (o ≡ out.obligation) × (r ≡ out.accounts key)
  finish_lem accounts key r o state res out e = (
    sym (ap (λ x. x.result) e),
    ap (λ x. x.obligation) e,
    sym (put_same accounts key r) ∙ ap (λ x. x.accounts key) e,
  )

  complete_borrow_lem :
      (market : LendingMarket) (accounts : Accounts) (o : Obligation) (r : Reserve) (key : Pubkey)
      (state : Option ReferrerTokenState) (deposit_keys : List Pubkey) (res : CalculateBorrowResult)
      (amount : ℕ) (out : BorrowOutcome)
      → complete_borrow market accounts o r key state deposit_keys res amount ≡ ok out
      → (out.result ≡ res)
        × (value_before : Fraction) × IsHealthy out.obligation
            (out.accounts key)
            res.borrow_amount_f
            value_before
            market.min_net_value_in_obligation_sf
  unfolding complete_borrow
  complete_borrow_lem market accounts o r key state deposit_keys res amount out e =
      let (entered, _, e₇) = >>=-eq-ok (enter_debt r o key res.borrow_amount_f) _ e in
      let (kept, _, e₈) =
        >>=-eq-ok (keep_referrer_fee market entered.0 state res.referrer_fee) _ e₇ in
      let (_, _, e₉) = >>=-eq-ok (check_orders_supported_after_user_operation entered.1) _ e₈ in
      let o₁ = stale_obligation (record entered.1 { has_debt = 1 }) in
      let (_, _, e₁₀) = >>=-eq-ok (check_utilization_limit kept.0) _ e₉ in
      let (_, _, e₁₁) = >>=-eq-ok (validate_obligation_asset_tiers o₁) _ e₁₀ in
      let (group, _, e₁₂) = >>=-eq-ok (elevation_group_at market o₁.elevation_group) _ e₁₁ in
      let (tracked, _, e₁₃) =
        >>=-eq-ok
          (update_elevation_group_debt_trackers_on_borrow amount o₁ entered.2 group key kept.0
            deposit_keys accounts)
          _ e₁₂ in
      let (t, _, e₁₄) = >>=-eq-ok (at tracked.0.borrows entered.2) _ e₁₃ in
      let (_, healthy, e₁₅) =
        >>=-eq-ok
          (post_borrow_obligation_invariants res.borrow_amount_f tracked.0 tracked.1
            t.market_value_sf market.min_net_value_in_obligation_sf)
          _ e₁₄ in
      let (res_eq, o_eq, r_eq) =
        finish_lem tracked.2 key tracked.1 tracked.0 kept.1 res out (ok_injective e₁₅) in
      (
        res_eq,
        t.market_value_sf,
        transport-IsHealthy o_eq r_eq refl (
            post_borrow_lem res.borrow_amount_f tracked.0 tracked.1 t.market_value_sf
              market.min_net_value_in_obligation_sf healthy),
      )

  -- A borrow that succeeds was allowed by the market and the limit of the reserve, pays out at least one
  -- token, and leaves the obligation healthy: the new debt included, its LTV is at most the unhealthy one and its
  -- deposits are worth more than its debts.
  pub borrow_obligation_liquidity-IsHealthy :
      (market : LendingMarket) (accounts : Accounts) (o : Obligation) (n : ℕ) (clock : Clock)
      (key : Pubkey) (state : Option ReferrerTokenState) (deposit_keys : List Pubkey)
      (out : BorrowOutcome)
      → borrow_obligation_liquidity market accounts o n clock key state deposit_keys ≡ ok out
      → IsAllowed market (accounts key) o n
        × (0 < out.result.receive_amount)
        × (value_before : Fraction) × IsHealthy out.obligation
            (out.accounts key)
            out.result.borrow_amount_f
            value_before
            market.min_net_value_in_obligation_sf
  unfolding borrow_obligation_liquidity
  borrow_obligation_liquidity-IsHealthy market accounts o n clock key state deposit_keys out e =
      let r = accounts key in
      let (limits, limits_eq, e₁) = >>=-eq-ok (check_borrow market r o n clock.slot) _ e in
      let (res, _, e₂) =
        >>=-eq-ok
          (calculate_borrow r n limits.0 limits.1 market.referral_fee_bps
            (not (o.elevation_group == elevation_group_none)) (is_given state))
          _ e₁ in
      let (amount, _, e₃) = >>=-eq-ok (to_ceil u64_max res.borrow_amount_f) _ e₂ in
      let (ts, _, e₄) = >>=-eq-ok (timestamp_of clock.unix_timestamp) _ e₃ in
      let (caps, _, e₅) =
        >>=-eq-ok (add_to_withdrawal_accum r.config.debt_withdrawal_cap amount ts) _ e₄ in
      let (some_paid, e₆) =
        after_guard {b = not (res.receive_amount == 0)} LendingError.borrow_too_small _ e₅ in
      let (res_eq, value_before, healthy) =
        complete_borrow_lem market accounts o (with_debt_cap r caps) key state deposit_keys res
          amount out e₆ in
      (
        check_borrow-IsAllowed market r o n clock.slot limits limits_eq,
        positive_at (ap (λ x. x.receive_amount) (sym res_eq))
            (positive res.receive_amount some_paid),
        value_before,
        transport-IsHealthy refl refl (ap (λ x. x.borrow_amount_f) (sym res_eq)) healthy,
      )
