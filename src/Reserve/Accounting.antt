-- ===== src/Reserve/Accounting.antt =====
-- What the operations of `ReserveLiquidity` (state/reserve.rs) do to the pool's total supply.
use kamino_lending.Base.{
  arith, if◌then◌else◌, min, ok, u64_max, ℕ, ◌%◌, ◌*◌, ◌+◌, ◌-◌, ◌/◌, ◌<◌, ◌==◌, ◌≡◌, ◌≤◌, ◌⊎◌,
}
use kamino_lending.Crates.{Crates, IsExact, one}
use kamino_lending.Crates.Exact.{Crates-eq-exact}
use kamino_lending.Fraction.{Fraction, to_floor}
use kamino_lending.Reserve.Liquidity.{
  ReferrerTokenState, ReserveLiquidity, borrow, forgive_debt, redeem_fees, repay, total_supply,
  withdraw_referrer_fees,
}
use kamino_lending.Reserve.Loans.{
  CalculateRepayResult, calculate_redeem_fees, calculate_repay, get_withdraw_referrer_fees,
}
use kamino_lending.Reserve.State.{Reserve}
use kamino_lending.Reserve.Deposits.{total_supply_lem}

module _ ⦃c : Crates⦄ (laws : IsExact c) where
  pub borrow_steps :
      (l l' : ReserveLiquidity) (f : Fraction)
      → borrow l f ≡ ok l'
      → (f / one ≤ l.available_amount)
        × (l' ≡ record l {
          available_amount = l.available_amount - f / one;
          borrowed_amount_sf = l.borrowed_amount_sf + f;
        })
  unfolding borrow to_floor
  borrow_steps l l' f = rw (Crates-eq-exact c laws) (λ e. ground arith)

  -- A borrow moves value from the available amount to the debt: the whole tokens leave the pool and
  -- the debt grows by the exact amount, so the total supply keeps the fraction, less than one token.
  pub borrow_conserves :
      (l l' : ReserveLiquidity) (f v v' : ℕ)
      → borrow l f ≡ ok l'
      → total_supply l ≡ ok v
      → total_supply l' ≡ ok v'
      → (l'.borrowed_amount_sf ≡ l.borrowed_amount_sf + f) × (v' ≡ v + f % one)
  borrow_conserves l l' f v v' e h h' =
      let (enough, l_eq) = borrow_steps l l' f e in
      let before = total_supply_lem laws l v h in
      let after = total_supply_lem laws l' v' h' in (ground arith, ground arith)

  pub repay_steps :
      (l l' : ReserveLiquidity) (n f : ℕ)
      → repay l n f ≡ ok l'
      → l' ≡ record l {
        available_amount = l.available_amount + n;
        borrowed_amount_sf = l.borrowed_amount_sf - f;
      }
  unfolding repay
  repay_steps l l' n f = rw (Crates-eq-exact c laws) (λ e. ground arith)

  -- What a repayment settles and what it costs: never more than what is owed, all of it where the
  -- amount is u64::MAX, and its cost is the settled debt rounded up to whole tokens.
  pub calculate_repay_bounds :
      (n owed : ℕ) (res : CalculateRepayResult)
      → calculate_repay n owed ≡ ok res
      → (res.settle_amount ≡ (if n == u64_max then owed else min (n * one) owed))
        × (res.settle_amount ≤ res.repay_amount * one)
        × (res.repay_amount * one < res.settle_amount + one)
        × ((n ≡ u64_max) ⊎ (res.repay_amount ≤ n))
  unfolding calculate_repay
  calculate_repay_bounds n owed res = rw (Crates-eq-exact c laws) (λ e. ground arith)

  -- A repayment by someone who owes no more than the pool's whole debt is charged what it settles,
  -- rounded up to whole tokens, so the pool never loses by it and gains less than one token.
  pub repay_conserves :
      (l l' : ReserveLiquidity) (n owed v v' : ℕ) (res : CalculateRepayResult)
      → calculate_repay n owed ≡ ok res
      → owed ≤ l.borrowed_amount_sf
      → repay l res.repay_amount res.settle_amount ≡ ok l'
      → total_supply l ≡ ok v
      → total_supply l' ≡ ok v'
      → (res.settle_amount ≤ owed)
        × (l'.borrowed_amount_sf + res.settle_amount ≡ l.borrowed_amount_sf)
        × (v ≤ v')
        × (v' < v + one)
  repay_conserves l l' n owed v v' res terms le e h h' =
      let l_eq = repay_steps l l' res.repay_amount res.settle_amount e in
      let (settled, low, high, _) = calculate_repay_bounds n owed res terms in
      let before = total_supply_lem laws l v h in
      let after = total_supply_lem laws l' v' h' in
      (ground arith, ground arith, ground arith, ground arith)

  -- The protocol fees that `calculate_redeem_fees` offers can always be taken, and taking them leaves
  -- the total supply as it was.
  pub redeem_fees_conserves :
      (r : Reserve) (n v : ℕ)
      → r.liquidity.available_amount ≤ u64_max
      → total_supply r.liquidity ≡ ok v
      → calculate_redeem_fees r ≡ ok n
      → (l' : ReserveLiquidity) × (redeem_fees r.liquidity n ≡ ok l')
        × (l'.available_amount + n ≡ r.liquidity.available_amount)
        × (l'.accumulated_protocol_fees_sf + n * one ≡ r.liquidity.accumulated_protocol_fees_sf)
        × (total_supply l' ≡ ok v)
  unfolding calculate_redeem_fees redeem_fees total_supply
  redeem_fees_conserves r n v h₁ = rw (Crates-eq-exact c laws) (λ h₂ h₃. (
    record r.liquidity {
      available_amount = r.liquidity.available_amount - n;
      accumulated_protocol_fees_sf = r.liquidity.accumulated_protocol_fees_sf - n * one;
    },
    ground arith,
    ground arith,
    ground arith,
    ground arith,
  ))

  -- Likewise for the referrer's fees: what `get_withdraw_referrer_fees` offers can be taken, from both
  -- the pool's and the referrer's account, and the total supply stays.
  pub withdraw_referrer_fees_conserves :
      (r : Reserve) (state : ReferrerTokenState) (n v : ℕ)
      → r.liquidity.available_amount ≤ u64_max
      → total_supply r.liquidity ≡ ok v
      → get_withdraw_referrer_fees r state ≡ ok n
      → (l' : ReserveLiquidity) × (state' : ReferrerTokenState) × (withdraw_referrer_fees
            r.liquidity n state
          ≡ ok (l', state'))
        × (l'.available_amount + n ≡ r.liquidity.available_amount)
        × (l'.accumulated_referrer_fees_sf + n * one ≡ r.liquidity.accumulated_referrer_fees_sf)
        × (state'.amount_unclaimed_sf + n * one ≡ state.amount_unclaimed_sf)
        × (total_supply l' ≡ ok v)
  unfolding get_withdraw_referrer_fees withdraw_referrer_fees total_supply
  withdraw_referrer_fees_conserves r state n v h₁ = rw (Crates-eq-exact c laws) (λ h₂ h₃. (
    record r.liquidity {
      available_amount = r.liquidity.available_amount - n;
      accumulated_referrer_fees_sf = r.liquidity.accumulated_referrer_fees_sf - n * one;
    },
    record state { amount_unclaimed_sf = state.amount_unclaimed_sf - n * one },
    ground arith,
    ground arith,
    ground arith,
    ground arith,
    ground arith,
  ))

  -- Forgiving debt takes exactly the forgiven amount from the total supply, and is only possible up
  -- to what is borrowed.
  pub forgive_debt_loses :
      (l l' : ReserveLiquidity) (f v v' : ℕ)
      → forgive_debt l f ≡ ok l'
      → total_supply l ≡ ok v
      → total_supply l' ≡ ok v'
      → (f ≤ l.borrowed_amount_sf) × (v ≡ v' + f)
  unfolding forgive_debt total_supply
  forgive_debt_loses l l' f v v' = rw (Crates-eq-exact c laws) (λ h₁ h₂ h₃. ground arith)
