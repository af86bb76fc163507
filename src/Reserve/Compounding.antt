-- ===== src/Reserve/Compounding.antt =====
-- `ReserveLiquidity::compound_interest` (state/reserve.rs): who gains what a debt grows by.
use kamino_lending.Reserve.Steps.{steps}
use kamino_lending.Base.{arith, ok, refl, u128_max, u256_max, ℕ, ◌*◌, ◌+◌, ◌-◌, ◌/◌, ◌≡◌, ◌≤◌}
use kamino_lending.Reserve.Deposits.{total_supply_lem}
use kamino_lending.Reserve.Growth.{approximate_compounded_interest_lem, scaled_mono}
use kamino_lending.Crates.{Crates, IsExact, one, run, run_checked, run_difference}
use kamino_lending.Reserve.Liquidity.{ReserveLiquidity, compound_interest, total_supply}
use kamino_lending.Reserve.Interest.{approximate_compounded_interest, slots_per_year}
use kamino_lending.Fraction.{big_mul}
use kamino_lending.Crates.Exact.{Crates-eq-exact}
use native.Mathlib.Nat.{mul-le-mul, le_refl}

part_le : (a b : ℕ) → b ≤ one → a * b / one ≤ a
part_le a b h = let p : a * b ≤ a * one = mul-le-mul (le_refl a) h in omega arith

grows : (a x : ℕ) → one ≤ x → a ≤ a * x / one
grows a x h = let p : a * one ≤ a * x = mul-le-mul (le_refl a) h in omega arith

module _ ⦃c : Crates⦄ (laws : IsExact c) where
  -- What a debt grows by is shared out with nothing lost: the depositors' total supply never falls,
  -- nor do the protocol's fees and the pending ones together, and the three gains add up to the
  -- growth of the debt, to the last bit. The take rate must be at most 100 %.
  pub compound_interest_shares :
      (l l' : ReserveLiquidity) (current host n take referral v v' : ℕ)
      → take ≤ one
      → compound_interest l current host n take referral ≡ ok l'
      → total_supply l ≡ ok v
      → total_supply l' ≡ ok v'
      → (l.borrowed_amount_sf ≤ l'.borrowed_amount_sf)
        × (v ≤ v')
        × (l.accumulated_protocol_fees_sf + l.pending_referrer_fees_sf
            ≤ l'.accumulated_protocol_fees_sf + l'.pending_referrer_fees_sf)
        × (v' + l'.accumulated_protocol_fees_sf + l'.pending_referrer_fees_sf + l.borrowed_amount_sf
            ≡ v + l.accumulated_protocol_fees_sf + l.pending_referrer_fees_sf
              + l'.borrowed_amount_sf)
  compound_interest_shares l l' current host n take referral v v' low e h h' =
      let s = steps laws l l' current host n take referral e in
      let before = total_supply_lem laws l v h in
      let after = total_supply_lem laws l' v' h' in
      let paid = part_le (l'.borrowed_amount_sf - l.borrowed_amount_sf * s.y / one) take low in
      let fixed_le = s.fixed_le in
      let debt_le = s.debt_le in
      let protocol = s.protocol in
      let pending = s.pending in
      let referrer = s.referrer in
      let available = s.available in (omega arith, omega arith, omega arith, omega arith)

  -- The debt of the pool and its cumulative rate, from which a loan's debt is computed, grow by one
  -- factor, which is at least simple interest for the slots that passed.
  pub compound_interest_factor :
      (l l' : ReserveLiquidity) (current host n take referral : ℕ)
      → compound_interest l current host n take referral ≡ ok l'
      → (x : ℕ) × (one + (current + host) / slots_per_year * n ≤ x)
        × (l'.borrowed_amount_sf ≡ l.borrowed_amount_sf * x / one)
        × (l'.cumulative_borrow_rate_bsf ≡ l.cumulative_borrow_rate_bsf * x / one)
  compound_interest_factor l l' current host n take referral e =
      let s = steps laws l l' current host n take referral e in
      let (simple, _) =
        approximate_compounded_interest_lem laws (current + host) (current + host) n s.x s.x
          (le_refl (current + host)) s.x_eq s.x_eq in
      (s.x, simple, s.debt, s.cumulative)

  big_mul_total : (a b : ℕ) → a * b ≤ u256_max → big_mul a b ≡ ok (a * b / one)
  unfolding big_mul
  big_mul_total a b = rw (Crates-eq-exact c laws) (λ h. ground arith)

  -- Interest accrues, with no overflow and no underflow, whenever the factors of the whole rate and of the
  -- host's rate can be computed, the sum of the two rates fits a u128, the take rate and the referral
  -- rate are at most 1, the product of the cumulative rate and the factor fits a u256, and the debt after
  -- interest, added to the protocol's fees or to the pending referrers' fees, fits a u128.
  pub compound_interest_total :
      (l : ReserveLiquidity) (current host n take referral x y : ℕ)
      → approximate_compounded_interest (current + host) n ≡ ok x
      → approximate_compounded_interest host n ≡ ok y
      → current + host ≤ u128_max
      → take ≤ one
      → referral ≤ one
      → l.cumulative_borrow_rate_bsf * x ≤ u256_max
      → l.accumulated_protocol_fees_sf + l.borrowed_amount_sf * x / one ≤ u128_max
      → l.pending_referrer_fees_sf + l.borrowed_amount_sf * x / one ≤ u128_max
      → (l' : ReserveLiquidity) × (compound_interest l current host n take referral ≡ ok l')
  unfolding compound_interest
  compound_interest_total l current host n take referral x y x_eq y_eq rate_fits take_le referral_le
        cumulative_fits fees_fit pending_fit =
      let (host_ge, x_ge) =
        approximate_compounded_interest_lem laws host (current + host) n y x (omega arith) y_eq
          x_eq in
      let debt = l.borrowed_amount_sf * x / one in
      let fixed = l.borrowed_amount_sf * y / one in
      let fixed_le : l.borrowed_amount_sf ≤ fixed =
        grows l.borrowed_amount_sf y (omega (arith, host_ge)) in
      let debt_le : fixed ≤ debt =
        scaled_mono l.borrowed_amount_sf y l.borrowed_amount_sf x (le_refl l.borrowed_amount_sf)
          x_ge in
      let fee = fixed - l.borrowed_amount_sf in
      let net = debt - l.borrowed_amount_sf - fee in
      let paid : net * take / one ≤ net = part_le net take take_le in
      let absolute : take * referral / one ≤ take = part_le take referral referral_le in
      let referrers : net * (take * referral / one) / one ≤ net * take / one =
        scaled_mono net (take * referral / one) net take (le_refl net) absolute in
      (
        record l {
          cumulative_borrow_rate_bsf = l.cumulative_borrow_rate_bsf * x / one;
          pending_referrer_fees_sf =
              l.pending_referrer_fees_sf + net * (take * referral / one) / one;
          accumulated_protocol_fees_sf =
              l.accumulated_protocol_fees_sf
              + fee
              + net * take / one
              - net * (take * referral / one) / one;
          borrowed_amount_sf = debt;
          absolute_referral_rate_sf = take * referral / one;
        },
        run_checked _ (laws.add_lem current host) rate_fits (
            run _ x_eq (
              run _ y_eq (
                run _ (big_mul_total l.cumulative_borrow_rate_bsf x cumulative_fits) (
                  run_checked _ (laws.mul_lem l.borrowed_amount_sf x) (omega arith) (
                    run_checked _ (laws.mul_lem l.borrowed_amount_sf y) (omega arith) (
                      run_difference _ (laws.sub_lem fixed l.borrowed_amount_sf) fixed_le (
                        run_difference _ (laws.sub_lem debt l.borrowed_amount_sf) (omega arith) (
                          run_difference _ (laws.sub_lem (debt - l.borrowed_amount_sf) fee)
                            (omega arith)
                            (run_checked _ (laws.mul_lem net take) (omega arith) (
                              run_checked _ (laws.mul_lem take referral) (omega arith) (
                                run_checked _ (laws.mul_lem net (take * referral / one))
                                  (omega arith)
                                  (run_checked _ (laws.add_lem l.accumulated_protocol_fees_sf fee)
                                    (omega arith)
                                    (run_checked _ (laws.add_lem _ (net * take / one)) (omega arith)
                                      (run_difference _ (laws.sub_lem _ _) (omega arith) (
                                        run_checked {bound = u128_max}
                                          {v = l.pending_referrer_fees_sf
                                            + net * (take * referral / one) / one}
                                          _ refl (omega arith) refl))))))))))))))),
      )
