-- ===== src/Reserve/Steps.antt =====
-- The values that a run of `ReserveLiquidity::compound_interest` (state/reserve.rs) computes.
use kamino_lending.Base.{>>=-eq-ok, arith, ok, refl, u128_max, ℕ, ◌*◌, ◌+◌, ◌-◌, ◌/◌, ◌≡◌, ◌≤◌}
use kamino_lending.Crates.{Crates, IsExact, one, step_checked, step_difference}
use kamino_lending.Reserve.Liquidity.{ReserveLiquidity, compound_interest}
use kamino_lending.Reserve.Interest.{approximate_compounded_interest}
use kamino_lending.Fraction.{big_mul}
use kamino_lending.Crates.Exact.{Crates-eq-exact}

module _ ⦃c : Crates⦄ (laws : IsExact c) where
  -- The values of a compounding that succeeds: `x` and `y` are the factors of the whole rate and of
  -- the host's fixed rate.
  pub record Steps (l l' : ReserveLiquidity) (current host n take referral : ℕ) : Type 0 where
    pub x : ℕ
    pub y : ℕ
    pub x_eq : approximate_compounded_interest (current + host) n ≡ ok x
    pub y_eq : approximate_compounded_interest host n ≡ ok y
    pub cumulative : l'.cumulative_borrow_rate_bsf ≡ l.cumulative_borrow_rate_bsf * x / one
    pub debt : l'.borrowed_amount_sf ≡ l.borrowed_amount_sf * x / one
    pub fixed_le : l.borrowed_amount_sf ≤ l.borrowed_amount_sf * y / one
    pub debt_le : l.borrowed_amount_sf * y / one ≤ l'.borrowed_amount_sf
    pub protocol :
        l'.accumulated_protocol_fees_sf
          + (l'.borrowed_amount_sf - l.borrowed_amount_sf * y / one) * (take * referral / one) / one
        ≡ l.accumulated_protocol_fees_sf
          + (l.borrowed_amount_sf * y / one - l.borrowed_amount_sf)
          + (l'.borrowed_amount_sf - l.borrowed_amount_sf * y / one) * take / one
    pub pending :
        l'.pending_referrer_fees_sf
        ≡ l.pending_referrer_fees_sf
          + (l'.borrowed_amount_sf - l.borrowed_amount_sf * y / one) * (take * referral / one) / one
    pub referrer : l'.accumulated_referrer_fees_sf ≡ l.accumulated_referrer_fees_sf
    pub available : l'.available_amount ≡ l.available_amount

  ok_injective : {a b : ReserveLiquidity} → ok a ≡ ok b → b ≡ a
  ok_injective e = cc

  big_mul_lem : (a b v : ℕ) → big_mul a b ≡ ok v → v ≡ a * b / one
  unfolding big_mul
  big_mul_lem a b v = rw (Crates-eq-exact c laws) (λ e. ground arith)

  build :
      (l l' : ReserveLiquidity) (current host n take referral x y cumulative : ℕ)
      → approximate_compounded_interest (current + host) n ≡ ok x
      → approximate_compounded_interest host n ≡ ok y
      → cumulative ≡ l.cumulative_borrow_rate_bsf * x / one
      → (let fixed = l.borrowed_amount_sf * y / one in
          let debt = l.borrowed_amount_sf * x / one in
          let fee = fixed - l.borrowed_amount_sf in
          let net = debt - l.borrowed_amount_sf - fee in
          let referrers = net * (take * referral / one) / one in
          let fees = l.accumulated_protocol_fees_sf + fee + net * take / one in
          l.borrowed_amount_sf ≤ fixed
          → l.borrowed_amount_sf ≤ debt
          → fee ≤ debt - l.borrowed_amount_sf
          → referrers ≤ fees
          → l' ≡ record l {
            cumulative_borrow_rate_bsf = cumulative;
            pending_referrer_fees_sf = l.pending_referrer_fees_sf + referrers;
            accumulated_protocol_fees_sf = fees - referrers;
            borrowed_amount_sf = debt;
            absolute_referral_rate_sf = take * referral / one;
          }
          → Steps l l' current host n take referral)
  build l l' current host n take referral x y cumulative x_eq y_eq cumulative_eq fixed_le growth_le
        net_le fees_le l_eq =
      let fixed = l.borrowed_amount_sf * y / one in
      let debt = l.borrowed_amount_sf * x / one in
      let net_eq : debt - fixed ≡ debt - l.borrowed_amount_sf - (fixed - l.borrowed_amount_sf) =
        omega (arith, fixed_le) in
      record {
        x = x;
        y = y;
        x_eq = x_eq;
        y_eq = y_eq;
        cumulative = rw l_eq cumulative_eq;
        debt = rw l_eq refl;
        fixed_le = fixed_le;
        debt_le = rw l_eq (omega (arith, growth_le, net_le));
        protocol = rw l_eq (rw net_eq (omega (arith, fees_le)));
        pending = rw l_eq (rw net_eq refl);
        referrer = rw l_eq refl;
        available = rw l_eq refl;
      }

  pub steps :
      (l l' : ReserveLiquidity) (current host n take referral : ℕ)
      → compound_interest l current host n take referral ≡ ok l'
      → Steps l l' current host n take referral
  unfolding compound_interest
  steps l l' current host n take referral e =
      let (_, e₁) = step_checked _ (laws.add_lem current host) e in
      let (x, x_eq, e₂) = >>=-eq-ok (approximate_compounded_interest (current + host) n) _ e₁ in
      let (y, y_eq, e₃) = >>=-eq-ok (approximate_compounded_interest host n) _ e₂ in
      let debt = l.borrowed_amount_sf * x / one in
      let fixed = l.borrowed_amount_sf * y / one in
      let (cumulative, cumulative_eq, e₄) =
        >>=-eq-ok (big_mul l.cumulative_borrow_rate_bsf x) _ e₃ in
      let (_, e₅) = step_checked _ (laws.mul_lem l.borrowed_amount_sf x) e₄ in
      let (_, e₆) = step_checked _ (laws.mul_lem l.borrowed_amount_sf y) e₅ in
      let (fixed_le, e₇) = step_difference _ (laws.sub_lem _ l.borrowed_amount_sf) e₆ in
      let (growth_le, e₈) = step_difference _ (laws.sub_lem _ l.borrowed_amount_sf) e₇ in
      let (net_le, e₉) = step_difference _ (laws.sub_lem _ _) e₈ in
      let (_, e₁₀) = step_checked _ (laws.mul_lem _ take) e₉ in
      let (_, e₁₁) = step_checked _ (laws.mul_lem take referral) e₁₀ in
      let (_, e₁₂) = step_checked _ (laws.mul_lem _ _) e₁₁ in
      let (_, e₁₃) = step_checked _ (laws.add_lem l.accumulated_protocol_fees_sf _) e₁₂ in
      let (_, e₁₄) = step_checked _ (laws.add_lem _ _) e₁₃ in
      let (fees_le, e₁₅) = step_difference _ (laws.sub_lem _ _) e₁₄ in
      let (_, e₁₆) =
        step_checked {bound = u128_max}
          {v = l.pending_referrer_fees_sf
            + (debt - l.borrowed_amount_sf - (fixed - l.borrowed_amount_sf))
              * (take * referral / one)
              / one}
          _ refl e₁₅ in
      build l l' current host n take referral x y cumulative x_eq y_eq
        (big_mul_lem l.cumulative_borrow_rate_bsf x cumulative cumulative_eq) fixed_le growth_le
        net_le fees_le (ok_injective e₁₆)
