-- ===== src/BorrowRateCurve/Rate.antt =====
-- `get_borrow_rate` (borrow_rate_curve.rs) answers on every valid curve, within its rates.
use kamino_lending.Base.{
  Bool-cases, List, [], arith, if◌then◌else◌, inl, inr, last_or, leb, ltb, ok, some, u128_max,
  u32_max, ℕ, ◌*◌, ◌+◌, ◌-◌, ◌/◌, ◌<◌, ◌==◌, ◌>>=◌, ◌∷◌, ◌≡◌, ◌≤◌, ◌⊎◌,
}
use kamino_lending.Crates.{Crates, IsExact, half, one}
use kamino_lending.Crates.Exact.{Crates-eq-exact}
use native.Mathlib.Nat.{div-mul-le_self, le_of_mul-le-mul_right, mul-le-mul, le_refl}
use kamino_lending.Fraction.{Fraction, from_bps, to_bps}
use kamino_lending.BorrowRateCurve.Defs.{
  BorrowRateCurve, CurvePoint, find_segment, get_borrow_rate, max_utilization_rate_bps, rate_at,
  rate_between, segment_borrow_rate, segment_from_points,
}
use kamino_lending.BorrowRateCurve.Validity.{IsCurve, Rising}

-- The rate of a point as a fraction.
abbrev pub rate_of : CurvePoint → Fraction
rate_of pt = pt.borrow_rate_bps * one / 10_000

-- What the search finds at a utilization, as far as the rate needs it.
record Encloses (bps : ℕ) (s e first last : CurvePoint) : Type 0 where
  below : s.utilization_rate_bps ≤ bps
  above : bps ≤ e.utilization_rate_bps
  growing : s.borrow_rate_bps ≤ e.borrow_rate_bps
  apart : (s.utilization_rate_bps < e.utilization_rate_bps) ⊎ (bps ≡ s.utilization_rate_bps)
  first_le : first.borrow_rate_bps ≤ s.borrow_rate_bps
  in_range : e.utilization_rate_bps ≤ last.utilization_rate_bps
  le_last : e.borrow_rate_bps ≤ last.borrow_rate_bps

Rising-le_last :
    (first : CurvePoint) (rest : List CurvePoint)
    → Rising first rest
    → (first.borrow_rate_bps ≤ (last_or first rest).borrow_rate_bps)
      × (first.utilization_rate_bps ≤ (last_or first rest).utilization_rate_bps)
Rising-le_last first [] r = omega arith
Rising-le_last first (pt ∷ pts) r = omega (arith, Rising-le_last pt pts r.2)

find_segment_lem :
    (bps : ℕ) (first second : CurvePoint) (rest : List CurvePoint)
    → first.utilization_rate_bps ≤ bps
    → bps ≤ (last_or second rest).utilization_rate_bps
    → Rising first (second ∷ rest)
    → (s e : CurvePoint) × (find_segment bps (first ∷ second ∷ rest) ≡ some (s, e))
      × Encloses bps s e first (last_or second rest)
unfolding find_segment
find_segment_lem bps first second [] lo hi r = (first, second, ground arith, ground arith)
find_segment_lem bps first second (third ∷ rest) lo hi r =
    elim (Bool-cases (leb bps second.utilization_rate_bps)) [
      | inl here ↦
          let last_le = Rising-le_last second (third ∷ rest) r.2 in
          (first, second, ground arith, ground arith)
      | inr later ↦
          let (s, e, found, enc) = find_segment_lem bps second third rest (ground arith) hi r.2 in
          (s, e, rw later (ground arith), ground arith)
    ]

-- The interpolation, rounded down, stays below the rate at the end.
interpolation_le :
    (coef n d : ℕ) → 0 < d → coef * 10_000 ≤ d * one → coef * n / d * 10_000 ≤ n * one
interpolation_le coef n d h p =
    let step : coef * n / d * 10_000 * d ≤ n * one * d =
      grind (arith, div-mul-le_self (coef * n) d, mul-le-mul p (le_refl n)) in
    le_of_mul-le-mul_right step h

module _ ⦃c : Crates⦄ (laws : IsExact c) where
  rate_of_point :
      (pt : CurvePoint)
      → pt.borrow_rate_bps ≤ u32_max
      → from_bps pt.borrow_rate_bps ≡ ok (rate_of pt)
  unfolding from_bps
  rate_of_point pt h = rw (Crates-eq-exact c laws) (ground arith)

  -- Strictly inside a segment the rate is computed without a failure, between the ends' rates.
  segment_rate_bounds :
      (s e : CurvePoint) (u : ℕ)
      → e.utilization_rate_bps ≤ max_utilization_rate_bps
      → e.borrow_rate_bps ≤ u32_max
      → s.borrow_rate_bps ≤ e.borrow_rate_bps
      → s.utilization_rate_bps < e.utilization_rate_bps
      → s.utilization_rate_bps < (u * 10_000 + half) / one
      → (u * 10_000 + half) / one < e.utilization_rate_bps
      → (r : ℕ) × ((segment_from_points s e >>= λ seg. segment_borrow_rate seg u) ≡ ok r)
        × (rate_of s ≤ r)
        × (r ≤ rate_of e)
  unfolding segment_from_points segment_borrow_rate from_bps
  segment_rate_bounds s e u he hr growing apart above below =
      let d = e.utilization_rate_bps - s.utilization_rate_bps in
      let n = e.borrow_rate_bps - s.borrow_rate_bps in
      let coef = u - s.utilization_rate_bps * one / 10_000 in
      let small : coef * 10_000 ≤ d * one = omega arith in
      let q = coef * n / d in
      let q_le : q * 10_000 ≤ n * one = interpolation_le coef n d (omega arith) small in
      let coef_le : coef ≤ one = omega arith in
      let n_le : n ≤ u32_max = omega arith in
      let product : coef * n ≤ one * u32_max = mul-le-mul coef_le n_le in
      let fits : coef * n ≤ u128_max = omega arith in
      rw (Crates-eq-exact c laws) (q + rate_of s, ground arith, omega arith, omega arith)

  to_bps_capped : (u : ℕ) → u ≤ one → to_bps u32_max u ≡ ok (some ((u * 10_000 + half) / one))
  unfolding to_bps
  to_bps_capped u h = rw (Crates-eq-exact c laws) (ground arith)

  -- With the two enclosing points found, whichever of the three ways is taken.
  rate_between_bounds :
      (s e first last : CurvePoint) (u : ℕ)
      → e.utilization_rate_bps ≤ max_utilization_rate_bps
      → e.borrow_rate_bps ≤ u32_max
      → Encloses ((u * 10_000 + half) / one) s e first last
      → (r : ℕ) × (rate_between s e ((u * 10_000 + half) / one) u ≡ ok r)
        × (rate_of s ≤ r)
        × (r ≤ rate_of e)
  unfolding rate_between
  rate_between_bounds s e first last u he hr enc =
      let bps = (u * 10_000 + half) / one in
      let growing = enc.growing in
      elim (Bool-cases (bps == s.utilization_rate_bps)) [
        | inl at_start ↦
            rw at_start (rate_of s, rate_of_point s (omega arith), omega arith, omega arith)
        | inr past_start ↦ elim (Bool-cases (bps == e.utilization_rate_bps)) [
          | inl at_end ↦
              rw (past_start, at_end) (rate_of e, rate_of_point e hr, omega arith, omega arith)
          | inr before_end ↦
              rw (past_start, before_end)
                (segment_rate_bounds s e u he hr growing (ground arith) (ground arith)
                  (ground arith))
        ]
      ]

  rate_at_found :
      (curve : BorrowRateCurve) (s e first last : CurvePoint) (u : ℕ)
      → u ≤ one
      → last.utilization_rate_bps ≤ max_utilization_rate_bps
      → last.borrow_rate_bps ≤ u32_max
      → find_segment ((u * 10_000 + half) / one) curve.points ≡ some (s, e)
      → Encloses ((u * 10_000 + half) / one) s e first last
      → (r : ℕ) × (rate_at curve u ≡ ok r) × (rate_of first ≤ r) × (r ≤ rate_of last)
  unfolding rate_at
  rate_at_found curve s e first last u hu hl hr found enc =
      let (r, answer, lo, hi) =
        rate_between_bounds s e first last u (omega arith) (omega arith) enc in
      (r, rw (to_bps_capped u hu, found) answer, omega arith, omega arith)

  -- On every valid curve, and at every utilization, also above 100 %, there is a rate: nothing panics
  -- or fails, and the rate lies between that of the first point and that of the last.
  pub get_borrow_rate_bounds :
      (first : CurvePoint) (rest : List CurvePoint) (utilization : Fraction)
      → IsCurve (first ∷ rest)
      → (last_or first rest).borrow_rate_bps ≤ u32_max
      → (r : Fraction) × (get_borrow_rate (record { points = first ∷ rest }) utilization ≡ ok r)
        × (rate_of first ≤ r)
        × (r ≤ rate_of (last_or first rest))
  unfolding get_borrow_rate
  get_borrow_rate_bounds first [] utilization h hr = absurd (omega arith)
  get_borrow_rate_bounds first (second ∷ rest) utilization h hr =
      capped (if ltb one utilization then one else utilization) (ground arith)
    where
      capped :
          (u : ℕ)
          → u ≤ one
          → (r : ℕ) × (rate_at (record { points = first ∷ second ∷ rest }) u ≡ ok r)
            × (rate_of first ≤ r)
            × (r ≤ rate_of (last_or second rest))
      capped u hu =
          let (s, e, found, enc) =
            find_segment_lem ((u * 10_000 + half) / one) first second rest (omega arith)
              (omega arith) h.2 in
          rate_at_found _ s e first (last_or second rest) u hu (omega arith) hr found enc
