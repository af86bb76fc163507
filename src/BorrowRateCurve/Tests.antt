-- ===== src/BorrowRateCurve/Tests.antt =====
-- Runs of borrow_rate_curve.rs, and its theorems on a concrete curve.
use kamino_lending.Base.{
  LendingError, List, [], arith, err, ok, refl, replicate, ◌*◌, ◌++◌, ◌/◌, ◌↔◌, ◌∷◌, ◌≡◌, ◌≤◌,
}
use kamino_lending.Crates.{one}
use kamino_lending.Crates.Exact.{exact, exact-IsExact}
use kamino_lending.Fraction.{Fraction, from_bps, to_bps}
use kamino_lending.BorrowRateCurve.Defs.{
  BorrowRateCurve, CurvePoint, copy_prefix, find_segment, from_legacy_parameters, from_points,
  get_borrow_rate, new_flat, point, rate_between, validate,
}
use kamino_lending.BorrowRateCurve.Validity.{IsCurve, validate_iff}
use kamino_lending.BorrowRateCurve.Rate.{get_borrow_rate_bounds, rate_of}

-- 1 % at no use, 10 % at 80 %, 100 % at full use.
abbrev kink : List CurvePoint
kink = point 8000 1000 ∷ point 10_000 10_000 ∷ []

abbrev kinked : BorrowRateCurve
kinked = record { points = point 0 100 ∷ (kink ++ replicate 8 (point 10_000 10_000)) }

curve_runs :
    (from_points (point 0 100 ∷ kink) ≡ ok kinked)
    × (from_legacy_parameters 80 1 10 100 ≡ ok kinked)
    × (from_points (point 1 100 ∷ kink) ≡ err LendingError.invalid_borrow_rate_curve_point)
    × (new_flat 500 ≡ from_legacy_parameters 0 0 5 5)
    × (get_borrow_rate kinked (one / 2) ≡ ok 76381049680203611)
    × (get_borrow_rate kinked (3 * one) ≡ ok one)
unfolding from_points validate copy_prefix from_legacy_parameters new_flat get_borrow_rate
    find_segment rate_between from_bps to_bps
curve_runs = (refl, refl, refl, refl, refl, refl)

validate_iff_example : (validate kinked ≡ ok tt) ↔ IsCurve kinked.points
validate_iff_example = validate_iff kinked refl

kink-IsCurve : IsCurve (point 0 100 ∷ kink)
kink-IsCurve = ground arith

get_borrow_rate_bounds_example :
    (r : Fraction) × (get_borrow_rate (record { points = point 0 100 ∷ kink }) (9 * one / 10)
      ≡ ok r)
    × (rate_of (point 0 100) ≤ r)
    × (r ≤ rate_of (point 10_000 10_000))
get_borrow_rate_bounds_example =
    get_borrow_rate_bounds exact-IsExact (point 0 100) kink (9 * one / 10) kink-IsCurve
      (omega arith)
