-- ===== src/Operations/Lending.antt =====
-- What lending, repayments and flash loans do to the books of a reserve (lending_operations.rs).
use kamino_lending.Reserve.Deposits.{total_supply_lem}
use kamino_lending.Fraction.{Fraction}
use kamino_lending.Operations.Redeeming.{limits_lem}
use kamino_lending.LendingMarket.{LendingMarket}
use kamino_lending.Operations.Accounts.{at}
use kamino_lending.Operations.Pool.{
  add_referrer_fee, flash_borrow_reserve_liquidity, flash_repay_reserve_liquidity, is_given,
  keep_referrer_fee, marked_stale, refresh_reserve_limit_timestamps,
}
use kamino_lending.Operations.Loans.{enter_debt, settle_debt}
use kamino_lending.Base.{
  >>=-eq-ok, Bool-cases, LendingError, Option, after_guard, ap, arith, if_false, if_true, inl, inr,
  ltb, none, not, ok, ok_injective, refl, some, sym, u128_max, u64_max, ℕ, ◌%◌, ◌*◌, ◌+◌, ◌-◌, ◌/◌,
  ◌<◌, ◌==◌, ◌∙◌, ◌≡◌, ◌≤◌, ◌⊎◌,
}
use kamino_lending.Crates.{Crates, IsExact, one, step_checked}
use kamino_lending.Reserve.Accounting.{borrow_conserves, borrow_steps, repay_conserves, repay_steps}
use kamino_lending.Reserve.{
  CalculateRepayResult, Pubkey, ReferrerTokenState, Reserve, ReserveLiquidity, borrow,
  calculate_flash_loan_fees, calculate_repay, get_asset_tier, repay, total_supply,
}
use kamino_lending.Obligation.{
  Obligation, borrow_entry, find_or_add_liquidity_to_borrows, repay_borrow,
}

-- A reserve that has kept none or all of a referrer's fee: it is available, and owed to the referrer.
pub record IsKept (r r' : Reserve) (fee : ℕ) : Type 0 where
  pub extra : ℕ
  pub either : (extra ≡ 0) ⊎ (extra ≡ fee)
  pub more_available : r'.liquidity.available_amount ≡ r.liquidity.available_amount + extra
  pub more_referrer :
      r'.liquidity.accumulated_referrer_fees_sf
      ≡ r.liquidity.accumulated_referrer_fees_sf + extra * one
  pub same_borrowed : r'.liquidity.borrowed_amount_sf ≡ r.liquidity.borrowed_amount_sf
  pub same_protocol :
      r'.liquidity.accumulated_protocol_fees_sf ≡ r.liquidity.accumulated_protocol_fees_sf
  pub same_pending : r'.liquidity.pending_referrer_fees_sf ≡ r.liquidity.pending_referrer_fees_sf
  pub same_collateral : r'.collateral ≡ r.collateral

fee_le : (extra fee : ℕ) → (extra ≡ 0) ⊎ (extra ≡ fee) → extra ≤ fee
fee_le extra fee (inl none_kept) = omega arith
fee_le extra fee (inr all_kept) = omega arith

value_lem :
    (v v' n extra : ℕ) (l l' : ReserveLiquidity)
    → n * one ≤ l.borrowed_amount_sf
    → v + l.accumulated_protocol_fees_sf + l.accumulated_referrer_fees_sf
        + l.pending_referrer_fees_sf
      ≡ l.available_amount * one + l.borrowed_amount_sf
    → v' + l'.accumulated_protocol_fees_sf + l'.accumulated_referrer_fees_sf
        + l'.pending_referrer_fees_sf
      ≡ l'.available_amount * one + l'.borrowed_amount_sf
    → l'.available_amount ≡ l.available_amount + n + extra
    → l'.borrowed_amount_sf ≡ l.borrowed_amount_sf - n * one
    → l'.accumulated_protocol_fees_sf ≡ l.accumulated_protocol_fees_sf
    → l'.accumulated_referrer_fees_sf ≡ l.accumulated_referrer_fees_sf + extra * one
    → l'.pending_referrer_fees_sf ≡ l.pending_referrer_fees_sf
    → v' ≡ v
value_lem v v' n extra l l' owed before after a b p q w = omega arith

module _ ⦃c : Crates⦄ (laws : IsExact c) where
  pub enter_debt_lem :
      (r r' : Reserve) (o o' : Obligation) (key : Pubkey) (f i v v' : ℕ)
      → enter_debt r o key f ≡ ok (r', o', i)
      → total_supply r.liquidity ≡ ok v
      → total_supply r'.liquidity ≡ ok v'
      → (v' ≡ v + f % one)
        × (r'.liquidity.available_amount + f / one ≡ r.liquidity.available_amount)
        × (r'.liquidity.borrowed_amount_sf ≡ r.liquidity.borrowed_amount_sf + f)
        × (r'.collateral ≡ r.collateral)
  unfolding enter_debt
  enter_debt_lem r r' o o' key f i v v' e h h' =
      let (l, l_eq, e₁) = >>=-eq-ok (borrow r.liquidity f) _ e in
      let (tier, _, e₂) = >>=-eq-ok (get_asset_tier r.config) _ e₁ in
      let (entry, _, e₃) =
        >>=-eq-ok (find_or_add_liquidity_to_borrows o key l.cumulative_borrow_rate_bsf tier) _ e₂ in
      let (t, _, e₄) = >>=-eq-ok (at entry.0.borrows entry.1) _ e₃ in
      let (t', _, e₅) = >>=-eq-ok (borrow_entry t f) _ e₄ in
      let r_eq : marked_stale (record r { liquidity = l }) ≡ r' = ap (λ p. p.0) (ok_injective e₅) in
      let at_l : total_supply l ≡ ok v' = rw (sym (ap (λ x. x.liquidity) r_eq)) at h' in
      let (enough, steps) = borrow_steps laws r.liquidity l f l_eq in
      let (grown, value) = borrow_conserves laws r.liquidity l f v v' l_eq h at_l in
      let a_eq : l.available_amount ≡ r.liquidity.available_amount - f / one =
        ap (λ x. x.available_amount) steps in
      let a_eq' : r'.liquidity.available_amount ≡ l.available_amount =
        sym (ap (λ x. x.liquidity.available_amount) r_eq) in
      let b_eq' : r'.liquidity.borrowed_amount_sf ≡ l.borrowed_amount_sf =
        sym (ap (λ x. x.liquidity.borrowed_amount_sf) r_eq) in
      (value, omega arith, b_eq' ∙ grown, sym (ap (λ x. x.collateral) r_eq))

  pub settle_debt_lem :
      (r r' : Reserve) (o o' : Obligation) (i n owed v v' : ℕ) (res : CalculateRepayResult)
      → calculate_repay n owed ≡ ok res
      → owed ≤ r.liquidity.borrowed_amount_sf
      → settle_debt r o i res.repay_amount res.settle_amount ≡ ok (r', o')
      → total_supply r.liquidity ≡ ok v
      → total_supply r'.liquidity ≡ ok v'
      → (v ≤ v')
        × (v' < v + one)
        × (r'.liquidity.borrowed_amount_sf + res.settle_amount ≡ r.liquidity.borrowed_amount_sf)
        × (r'.collateral ≡ r.collateral)
  unfolding settle_debt
  settle_debt_lem r r' o o' i n owed v v' res terms le e h h' =
      let (l, l_eq, e₁) = >>=-eq-ok (repay r.liquidity res.repay_amount res.settle_amount) _ e in
      let (repaid, _, e₂) = >>=-eq-ok (repay_borrow o res.settle_amount i) _ e₁ in
      let r_eq : marked_stale (record r { liquidity = l }) ≡ r' = ap (λ p. p.0) (ok_injective e₂) in
      let at_l : total_supply l ≡ ok v' = rw (sym (ap (λ x. x.liquidity) r_eq)) at h' in
      let (_, settled, more, less) =
        repay_conserves laws r.liquidity l n owed v v' res terms le l_eq h at_l in
      let b_eq' : r'.liquidity.borrowed_amount_sf ≡ l.borrowed_amount_sf =
        sym (ap (λ x. x.liquidity.borrowed_amount_sf) r_eq) in
      (more, less, omega arith, sym (ap (λ x. x.collateral) r_eq))

  pub flash_borrow_lem :
      (r r' : Reserve) (n v v' : ℕ)
      → flash_borrow_reserve_liquidity r n ≡ ok r'
      → total_supply r.liquidity ≡ ok v
      → total_supply r'.liquidity ≡ ok v'
      → (v' ≡ v)
        × (r'.liquidity.available_amount + n ≡ r.liquidity.available_amount)
        × (r'.liquidity.borrowed_amount_sf ≡ r.liquidity.borrowed_amount_sf + n * one)
        × (r'.collateral ≡ r.collateral)
  unfolding flash_borrow_reserve_liquidity
  flash_borrow_lem r r' n v v' e h h' =
      let (_, e₁) =
        after_guard {b = not (r.config.fees.flash_loan_fee_sf == u64_max)}
          LendingError.flash_loans_disabled _ e in
      let (_, e₂) = step_checked _ (laws.from_num_lem n) e₁ in
      let (l, l_eq, e₃) = >>=-eq-ok (borrow r.liquidity (n * one)) _ e₂ in
      let r_eq : marked_stale (record r { liquidity = l }) ≡ r' = ok_injective e₃ in
      let at_l : total_supply l ≡ ok v' = rw (sym (ap (λ x. x.liquidity) r_eq)) at h' in
      let (enough, steps) = borrow_steps laws r.liquidity l (n * one) l_eq in
      let (grown, value) = borrow_conserves laws r.liquidity l (n * one) v v' l_eq h at_l in
      let a_eq : l.available_amount ≡ r.liquidity.available_amount - n * one / one =
        ap (λ x. x.available_amount) steps in
      let a_eq' : r'.liquidity.available_amount ≡ l.available_amount =
        sym (ap (λ x. x.liquidity.available_amount) r_eq) in
      let b_eq' : r'.liquidity.borrowed_amount_sf ≡ l.borrowed_amount_sf =
        sym (ap (λ x. x.liquidity.borrowed_amount_sf) r_eq) in
      (omega arith, omega arith, b_eq' ∙ grown, sym (ap (λ x. x.collateral) r_eq))

  pub credited_lem :
      (r r' : Reserve) (state state' : ReferrerTokenState) (fee : Fraction)
      → add_referrer_fee r state fee ≡ ok (r', state')
      → r' ≡ record r {
        liquidity = record r.liquidity {
          accumulated_referrer_fees_sf = r.liquidity.accumulated_referrer_fees_sf + fee;
        };
      }
  unfolding add_referrer_fee
  credited_lem r r' state state' fee e =
      let (_, e₁) =
        step_checked {bound = u128_max} {v = state.amount_cumulative_sf + fee} _ refl e in
      let (_, e₂) =
        step_checked {bound = u128_max} {v = state.amount_unclaimed_sf + fee} _ refl e₁ in
      let (_, e₃) =
        step_checked {bound = u128_max} {v = r.liquidity.accumulated_referrer_fees_sf + fee} _ refl
          e₂ in
      sym (ap (λ p. p.0) (ok_injective e₃))

  unkept_lem : (r r' : Reserve) (fee : ℕ) → r ≡ r' → IsKept r r' fee
  unkept_lem r r' fee same = record {
    extra = 0;
    either = inl refl;
    more_available = rw same (omega arith);
    more_referrer = rw same (omega arith);
    same_borrowed = rw same refl;
    same_protocol = rw same refl;
    same_pending = rw same refl;
    same_collateral = rw same refl;
  }

  pub keep_lem :
      (market : LendingMarket) (r r' : Reserve) (state state' : Option ReferrerTokenState) (fee : ℕ)
      → keep_referrer_fee market r state fee ≡ ok (r', state')
      → IsKept r r' fee
  unfolding keep_referrer_fee
  keep_lem market r r' none state' fee e = unkept_lem r r' fee (ap (λ p. p.0) (ok_injective e))
  keep_lem market r r' (some state) state' fee e =
      elim (Bool-cases (ltb 0 market.referral_fee_bps)) [
        | inr no_share ↦ unkept_lem r r' fee (ap (λ p. p.0) (ok_injective (if_false _ no_share e)))
        | inl share ↦
            let e₁ = if_true _ share e in
            let (_, e₂) = step_checked _ (laws.from_num_lem fee) e₁ in
            let (credited, credited_eq, e₃) =
              >>=-eq-ok (add_referrer_fee r state (fee * one)) _ e₂ in
            let (_, e₄) =
              step_checked {bound = u64_max} {v = credited.0.liquidity.available_amount + fee} _
                refl e₃ in
            let r_eq = sym (ap (λ p. p.0) (ok_injective e₄)) in
            let c_eq = credited_lem r credited.0 state credited.1 (fee * one) credited_eq in
            record {
              extra = fee;
              either = inr refl;
              more_available =
                  ap (λ x. x.liquidity.available_amount) r_eq
                  ∙ ap (λ x. x.liquidity.available_amount + fee) c_eq;
              more_referrer =
                  ap (λ x. x.liquidity.accumulated_referrer_fees_sf) r_eq
                  ∙ ap (λ x. x.liquidity.accumulated_referrer_fees_sf) c_eq;
              same_borrowed =
                  ap (λ x. x.liquidity.borrowed_amount_sf) r_eq
                  ∙ ap (λ x. x.liquidity.borrowed_amount_sf) c_eq;
              same_protocol =
                  ap (λ x. x.liquidity.accumulated_protocol_fees_sf) r_eq
                  ∙ ap (λ x. x.liquidity.accumulated_protocol_fees_sf) c_eq;
              same_pending =
                  ap (λ x. x.liquidity.pending_referrer_fees_sf) r_eq
                  ∙ ap (λ x. x.liquidity.pending_referrer_fees_sf) c_eq;
              same_collateral = ap (λ x. x.collateral) r_eq ∙ ap (λ x. x.collateral) c_eq;
            }
      ]

  pub flash_repay_lem :
      (market : LendingMarket) (r r' : Reserve) (n timestamp total fee v v' : ℕ)
      (state state' : Option ReferrerTokenState)
      → n * one ≤ r.liquidity.borrowed_amount_sf
      → flash_repay_reserve_liquidity market r n timestamp state ≡ ok (r', state', total, fee)
      → total_supply r.liquidity ≡ ok v
      → total_supply r'.liquidity ≡ ok v'
      → (v' ≡ v)
        × (r'.liquidity.available_amount ≤ r.liquidity.available_amount + total)
        × (r.liquidity.available_amount + n ≤ r'.liquidity.available_amount)
        × (r'.liquidity.borrowed_amount_sf + n * one ≡ r.liquidity.borrowed_amount_sf)
        × (r'.collateral ≡ r.collateral)
  unfolding flash_repay_reserve_liquidity
  flash_repay_lem market r r' n timestamp total fee v v' state state' owed e h h' =
      let (_, e₁) = step_checked _ (laws.from_num_lem n) e in
      let (fees, _, e₂) =
        >>=-eq-ok
          (calculate_flash_loan_fees r.config.fees (n * one) market.referral_fee_bps
            (is_given state))
          _ e₁ in
      let (l, l_eq, e₃) = >>=-eq-ok (repay r.liquidity n (n * one)) _ e₂ in
      let (stamped, stamped_eq, e₄) =
        >>=-eq-ok (refresh_reserve_limit_timestamps (record r { liquidity = l }) timestamp) _ e₃ in
      let (kept, kept_eq, e₅) =
        >>=-eq-ok (keep_referrer_fee market (marked_stale stamped) state fees.1) _ e₄ in
      let (_, e₆) = step_checked {bound = u64_max} {v = n + fees.1} _ refl e₅ in
      let r_eq : kept.0 ≡ r' = ap (λ p. p.0) (ok_injective e₆) in
      let total_eq : n + fees.1 ≡ total = ap (λ p. p.2) (ok_injective e₆) in
      let l_steps = repay_steps laws r.liquidity l n (n * one) l_eq in
      let (stamps, same_c) =
        limits_lem laws (record r { liquidity = l }) stamped timestamp stamped_eq in
      let k = keep_lem market (marked_stale stamped) kept.0 state kept.1 fees.1 kept_eq in
      let h_k : total_supply kept.0.liquidity ≡ ok v' =
        rw (sym (ap (λ x. x.liquidity) r_eq)) at h' in
      let before = total_supply_lem laws r.liquidity v h in
      let after = total_supply_lem laws kept.0.liquidity v' h_k in
      let a₁ : l.available_amount ≡ r.liquidity.available_amount + n =
        ap (λ x. x.available_amount) l_steps in
      let b₁ : l.borrowed_amount_sf ≡ r.liquidity.borrowed_amount_sf - n * one =
        ap (λ x. x.borrowed_amount_sf) l_steps in
      let p₁ : l.accumulated_protocol_fees_sf ≡ r.liquidity.accumulated_protocol_fees_sf =
        ap (λ x. x.accumulated_protocol_fees_sf) l_steps in
      let q₁ : l.accumulated_referrer_fees_sf ≡ r.liquidity.accumulated_referrer_fees_sf =
        ap (λ x. x.accumulated_referrer_fees_sf) l_steps in
      let w₁ : l.pending_referrer_fees_sf ≡ r.liquidity.pending_referrer_fees_sf =
        ap (λ x. x.pending_referrer_fees_sf) l_steps in
      let a : kept.0.liquidity.available_amount ≡ r.liquidity.available_amount + n + k.extra =
        k.more_available ∙ ap (λ x. x + k.extra) (stamps.same_available ∙ a₁) in
      let b : kept.0.liquidity.borrowed_amount_sf ≡ r.liquidity.borrowed_amount_sf - n * one =
        k.same_borrowed ∙ stamps.same_borrowed ∙ b₁ in
      let p : kept.0.liquidity.accumulated_protocol_fees_sf
          ≡ r.liquidity.accumulated_protocol_fees_sf =
        k.same_protocol ∙ stamps.same_protocol ∙ p₁ in
      let q : kept.0.liquidity.accumulated_referrer_fees_sf
          ≡ r.liquidity.accumulated_referrer_fees_sf + k.extra * one =
        k.more_referrer ∙ ap (λ x. x + k.extra * one) (stamps.same_referrer ∙ q₁) in
      let w : kept.0.liquidity.pending_referrer_fees_sf ≡ r.liquidity.pending_referrer_fees_sf =
        k.same_pending ∙ stamps.same_pending ∙ w₁ in
      let extra_le : k.extra ≤ fees.1 = fee_le k.extra fees.1 k.either in
      let a' : r'.liquidity.available_amount ≡ r.liquidity.available_amount + n + k.extra =
        sym (ap (λ x. x.liquidity.available_amount) r_eq) ∙ a in
      let b' : r'.liquidity.borrowed_amount_sf ≡ r.liquidity.borrowed_amount_sf - n * one =
        sym (ap (λ x. x.liquidity.borrowed_amount_sf) r_eq) ∙ b in
      (
        value_lem v v' n k.extra r.liquidity kept.0.liquidity owed before after a b p q w,
        omega arith,
        omega arith,
        omega arith,
        sym (ap (λ x. x.collateral) r_eq) ∙ k.same_collateral ∙ same_c,
      )

  -- A flash loan that is borrowed and then repaid, with nothing in between done to the reserve, leaves the
  -- debt and the value of the pool as they were, and its shares. What is available is at least what it
  -- was, and what is repaid besides the loan covers what it has grown by. Both succeed, and the total
  -- supply can be computed before, between and after them.
  pub flash_repay-flash_borrow :
      (market : LendingMarket) (r r₁ r₂ : Reserve) (n timestamp total fee v v₁ v₂ : ℕ)
      (state state' : Option ReferrerTokenState)
      → flash_borrow_reserve_liquidity r n ≡ ok r₁
      → flash_repay_reserve_liquidity market r₁ n timestamp state ≡ ok (r₂, state', total, fee)
      → total_supply r.liquidity ≡ ok v
      → total_supply r₁.liquidity ≡ ok v₁
      → total_supply r₂.liquidity ≡ ok v₂
      → (v₂ ≡ v)
        × (r₂.liquidity.borrowed_amount_sf ≡ r.liquidity.borrowed_amount_sf)
        × (r.liquidity.available_amount ≤ r₂.liquidity.available_amount)
        × (r₂.liquidity.available_amount + n ≤ r.liquidity.available_amount + total)
        × (r₂.collateral ≡ r.collateral)
  flash_repay-flash_borrow market r r₁ r₂ n timestamp total fee v v₁ v₂ state state' lent returned h
        h₁ h₂ =
      let (value₁, out, debt₁, shares₁) = flash_borrow_lem r r₁ n v v₁ lent h h₁ in
      let (value₂, most, least, debt₂, shares₂) =
        flash_repay_lem market r₁ r₂ n timestamp total fee v₁ v₂ state state' (omega arith) returned
          h₁ h₂ in
      (value₂ ∙ value₁, omega arith, omega arith, omega arith, shares₂ ∙ shares₁)
