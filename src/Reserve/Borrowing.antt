-- ===== src/Reserve/Borrowing.antt =====
-- `Reserve::calculate_borrow` and `ReserveFees::calculate_fees` (state/reserve.rs): what a borrow
-- pays out and what it costs.
use kamino_lending.Reserve.Liquidity.{ReserveLiquidity, borrow, mint_factor}
use kamino_lending.Reserve.Loans.{
  CalculateBorrowResult, borrow_exactly, borrow_factor_f, borrow_maximum, calculate_borrow,
}
use kamino_lending.Reserve.State.{Reserve}
use kamino_lending.Reserve.Accounting.{borrow_steps}
use kamino_lending.Base.{
  >>=-eq-ok, Bool, Bool-cases, LendingError, after_guard, all, arith, if_false, if_true, inl, inr,
  ltb, lt→ltb, max, min, ok, refl, true, u128_max, u64_max, ℕ, ◌%◌, ◌&&◌, ◌*◌, ◌+◌, ◌-◌, ◌/◌, ◌<◌,
  ◌==◌, ◌≡◌, ◌≢◌, ◌≤◌, ◌⊎◌,
}
use kamino_lending.Fraction.{from_bps, to_floor, to_round}
use kamino_lending.Crates.Exact.{Crates-eq-exact}
use kamino_lending.Crates.{Crates, IsExact, half, one, step_checked, step_difference, step_div}
use kamino_lending.Reserve.Fees.{
  FeeCalculation, borrow_fee_amount, calculate_borrow_fees, calculate_fees, split_fee,
}

-- The fee before the minimum and the rounding.
abbrev pub fee_value : FeeCalculation → ℕ → ℕ → ℕ
fee_value FeeCalculation.exclusive amount rate = amount * rate / one
fee_value FeeCalculation.inclusive amount rate = amount * (rate * one / (rate + one)) / one

module _ ⦃c : Crates⦄ (laws : IsExact c) where
  fee_amount_eq :
      (kind : FeeCalculation) (amount rate x : ℕ)
      → borrow_fee_amount kind amount rate ≡ ok x
      → x ≡ fee_value kind amount rate
  unfolding borrow_fee_amount
  fee_amount_eq FeeCalculation.exclusive amount rate x =
      rw (Crates-eq-exact c laws) (λ e. ground arith)
  fee_amount_eq FeeCalculation.inclusive amount rate x =
      rw (Crates-eq-exact c laws) (λ e. ground arith)

  split_fee_lem :
      (amount x bps referral_rate : ℕ) (has_referrer : Bool) (p r : ℕ)
      → split_fee amount x bps referral_rate has_referrer ≡ ok (p, r)
      → (p + r ≡ (x + half) / one) × (x < amount) × ((has_referrer ≡ true) ⊎ (r ≡ 0))
  unfolding split_fee to_round
  split_fee_lem amount x bps referral_rate has_referrer p r =
      rw (Crates-eq-exact c laws) (λ e. ground arith)

  -- A fee at a positive rate on a positive amount is split between the protocol and the referrer
  -- with nothing lost: the two add up to the fee, rounded to whole tokens, which is at least one
  -- token and less than the amount plus half a token. Without a referrer all of it is the
  -- protocol's.
  pub calculate_fees_split :
      (amount rate : ℕ) (kind : FeeCalculation) (bps : ℕ) (has_referrer : Bool) (p r : ℕ)
      → 0 < rate
      → 0 < amount
      → calculate_fees amount rate kind bps has_referrer ≡ ok (p, r)
      → (p + r ≡ (max (fee_value kind amount rate) one + half) / one)
        × (1 ≤ p + r)
        × ((p + r) * one < amount + half)
        × ((has_referrer ≡ true) ⊎ (r ≡ 0))
  unfolding calculate_fees
  calculate_fees_split amount rate kind bps has_referrer p r pos_rate pos_amount e =
      let (referral_rate, _, e₁) = >>=-eq-ok (from_bps bps) _ e in
      let positive : (ltb 0 rate && ltb 0 amount) ≡ true =
        rw (lt→ltb 0 rate pos_rate, lt→ltb 0 amount pos_amount) refl in
      let e₂ = if_true _ positive e₁ in
      let (_, e₃) = step_checked {bound = u128_max} {v = 1 * one} _ (laws.from_num_lem 1) e₂ in
      let (x, x_eq, e₄) = >>=-eq-ok (borrow_fee_amount kind amount rate) _ e₃ in
      let (sum, less, none_else) =
        split_fee_lem amount (max x one) bps referral_rate has_referrer p r e₄ in
      let value = fee_amount_eq kind amount rate x x_eq in
      (rw (← value) sum, omega (arith, sum), omega (arith, sum, less), none_else)

  floor_lem : (bound f x : ℕ) → to_floor bound f ≡ ok x → x ≡ f / one
  unfolding to_floor
  floor_lem bound f x = rw (Crates-eq-exact c laws) (λ e. ground arith)

  maximum_result :
      (a remaining available whole p r : ℕ) (res : CalculateBorrowResult)
      → whole ≡ min (min a remaining) available / one
      → p ≤ whole
      → r ≤ whole - p
      → ok (record {
        borrow_amount_f = min (min a remaining) available;
        receive_amount = whole - p - r;
        borrow_fee = p;
        referrer_fee = r;
      })
        ≡ ok res
      → (res.receive_amount + res.borrow_fee + res.referrer_fee ≡ res.borrow_amount_f / one)
        × (res.borrow_amount_f ≤ available)
        × (res.borrow_amount_f ≤ remaining)
  maximum_result a remaining available whole p r res whole_eq le le' e = ground arith

  borrow_maximum_lem :
      (r : Reserve) (limit remaining bps : ℕ) (in_group has_referrer : Bool)
      (res : CalculateBorrowResult)
      → borrow_maximum r limit remaining bps in_group has_referrer ≡ ok res
      → (res.receive_amount + res.borrow_fee + res.referrer_fee ≡ res.borrow_amount_f / one)
        × (res.borrow_amount_f ≤ r.liquidity.available_amount * one)
        × (res.borrow_amount_f ≤ remaining)
  unfolding borrow_maximum
  borrow_maximum_lem r limit remaining bps in_group has_referrer res e =
      let (decimals, _, e₁) = >>=-eq-ok (mint_factor r.liquidity) _ e in
      let (_, e₂) = step_checked _ (laws.mul_int_lem limit decimals) e₁ in
      let (_, e₃) = step_div _ u128_max _ (laws.div_lem _ r.liquidity.market_price_sf) e₂ in
      let (factor, _, e₄) = >>=-eq-ok (borrow_factor_f r in_group) _ e₃ in
      let (_, e₅) = step_div _ u128_max _ (laws.div_lem _ factor) e₄ in
      let (_, e₆) = step_checked _ (laws.from_num_lem r.liquidity.available_amount) e₅ in
      let (fees, _, e₇) =
        >>=-eq-ok
          (calculate_borrow_fees r.config.fees
            (min
              (min (limit * decimals * one / r.liquidity.market_price_sf * one / factor) remaining)
              (r.liquidity.available_amount * one))
            FeeCalculation.inclusive bps has_referrer)
          _ e₆ in
      let (whole, whole_eq, e₈) = >>=-eq-ok (to_floor u64_max _) _ e₇ in
      let (le, e₉) = step_difference {a = whole} {b = fees.0} _ refl e₈ in
      let (le', e₁₀) = step_difference {a = whole - fees.0} {b = fees.1} _ refl e₉ in
      maximum_result _ remaining _ whole fees.0 fees.1 res (floor_lem u64_max _ whole whole_eq) le
        le' e₁₀

  exactly_result :
      (n p r : ℕ) (res : CalculateBorrowResult)
      → ok (record {
        borrow_amount_f = n * one + (p + r) * one;
        receive_amount = n;
        borrow_fee = p;
        referrer_fee = r;
      })
        ≡ ok res
      → (res.receive_amount ≡ n)
        × (res.borrow_amount_f ≡ (n + res.borrow_fee + res.referrer_fee) * one)
  exactly_result n p r res e = ground arith

  borrow_exactly_lem :
      (r : Reserve) (n limit bps : ℕ) (in_group has_referrer : Bool) (res : CalculateBorrowResult)
      → borrow_exactly r n limit bps in_group has_referrer ≡ ok res
      → (res.receive_amount ≡ n)
        × (res.borrow_amount_f ≡ (n + res.borrow_fee + res.referrer_fee) * one)
  unfolding borrow_exactly
  borrow_exactly_lem r n limit bps in_group has_referrer res e =
      let (decimals, _, e₁) = >>=-eq-ok (mint_factor r.liquidity) _ e in
      let (_, e₂) = step_checked _ (laws.from_num_lem n) e₁ in
      let (fees, _, e₃) =
        >>=-eq-ok
          (calculate_borrow_fees r.config.fees (n * one) FeeCalculation.exclusive bps has_referrer)
          _ e₂ in
      let (_, e₄) = step_checked {bound = u64_max} {v = fees.0 + fees.1} _ refl e₃ in
      let (_, e₅) = step_checked _ (laws.from_num_lem (fees.0 + fees.1)) e₄ in
      let (_, e₆) = step_checked _ (laws.add_lem (n * one) _) e₅ in
      let (_, e₇) = step_checked _ (laws.mul_lem _ r.liquidity.market_price_sf) e₆ in
      let (_, e₈) =
        step_div {b = decimals}
          ((n * one + (fees.0 + fees.1) * one) * r.liquidity.market_price_sf / one) u128_max _
          (laws.div_int_lem _ decimals) e₇ in
      let (factor, _, e₉) = >>=-eq-ok (borrow_factor_f r in_group) _ e₈ in
      let (_, e₁₀) = step_checked _ (laws.mul_lem _ factor) e₉ in
      let (_, e₁₁) = after_guard LendingError.borrow_too_large _ e₁₀ in
      exactly_result n fees.0 fees.1 res e₁₁

  -- What a borrow pays out and its two fees add up to the whole tokens that are borrowed, whether
  -- the amount is given or is as much as the limits allow. A given amount is paid out in full; the
  -- greatest one keeps within what is available and within the rest of the borrow limit.
  pub calculate_borrow_lem :
      (r : Reserve) (n limit remaining bps : ℕ) (in_group has_referrer : Bool)
      (res : CalculateBorrowResult)
      → calculate_borrow r n limit remaining bps in_group has_referrer ≡ ok res
      → (res.receive_amount + res.borrow_fee + res.referrer_fee ≡ res.borrow_amount_f / one)
        × ((n ≡ u64_max)
              × (res.borrow_amount_f ≤ r.liquidity.available_amount * one)
              × (res.borrow_amount_f ≤ remaining)
            ⊎ (n ≢ u64_max) × (res.receive_amount ≡ n) × (res.borrow_amount_f % one ≡ 0))
  unfolding calculate_borrow
  calculate_borrow_lem r n limit remaining bps in_group has_referrer res e =
      elim (Bool-cases (n == u64_max)) [
        | inl all ↦
            let (sum, available, rest) =
              borrow_maximum_lem r limit remaining bps in_group has_referrer res
                (if_true _ all e) in
            (sum, inl (ground arith, available, rest))
        | inr given ↦
            let (receive, whole) =
              borrow_exactly_lem r n limit bps in_group has_referrer res (if_false _ given e) in
            (omega (arith, receive, whole), inr (ground arith, receive, omega (arith, whole)))
      ]

  -- A borrow by these terms takes from the pool exactly what is paid out and the two fees.
  pub calculate_borrow-borrow :
      (r : Reserve) (n limit remaining bps : ℕ) (in_group has_referrer : Bool)
      (res : CalculateBorrowResult) (l' : ReserveLiquidity)
      → calculate_borrow r n limit remaining bps in_group has_referrer ≡ ok res
      → borrow r.liquidity res.borrow_amount_f ≡ ok l'
      → (l'.available_amount + (res.receive_amount + res.borrow_fee + res.referrer_fee)
          ≡ r.liquidity.available_amount)
        × (l'.borrowed_amount_sf ≡ r.liquidity.borrowed_amount_sf + res.borrow_amount_f)
  calculate_borrow-borrow r n limit remaining bps in_group has_referrer res l' e done =
      let (sum, _) = calculate_borrow_lem r n limit remaining bps in_group has_referrer res e in
      let (enough, l_eq) = borrow_steps laws r.liquidity l' res.borrow_amount_f done in
      (rw (l_eq, sum) (omega arith), rw l_eq refl)
