-- ===== src/BorrowRateCurve/Defs.antt =====
-- The functions of borrow_rate_curve.rs.
use kamino_lending.Base.{
  LendingError, List, Option, Result, [], get_elem?, guard, if◌then◌else◌, leb, length, ltb, none,
  not, ok, ok_or, replicate, some, tail, u32_max, unwrap, unwrap_ok, ℕ, ◌&&◌, ◌*◌, ◌-◌, ◌==◌, ◌>>=◌,
  ◌>>◌, ◌∷◌,
}
use kamino_lending.Crates.{Crates, difference, one}
use kamino_lending.Fraction.{Fraction, from_bps, to_bps}

-- FULL_BPS
abbrev pub max_utilization_rate_bps : ℕ
max_utilization_rate_bps = 10_000

pub record CurvePoint : Type 0 where
  pub utilization_rate_bps : ℕ
  pub borrow_rate_bps : ℕ

pub record CurveSegment : Type 0 where
  pub slope_nom : ℕ
  pub slope_denom : ℕ
  pub start_point : CurvePoint

pub record BorrowRateCurve : Type 0 where
  pub points : List CurvePoint

abbrev pub curve_points : ℕ
curve_points = 11

abbrev invalid : LendingError
invalid = LendingError.invalid_borrow_rate_curve_point

unfoldable pub segment_from_points : CurvePoint → CurvePoint → Result CurveSegment
segment_from_points start end = do
  guard (leb start.borrow_rate_bps end.borrow_rate_bps) invalid
  guard (not (leb end.utilization_rate_bps start.utilization_rate_bps)) invalid
  slope_denom ← difference end.utilization_rate_bps start.utilization_rate_bps
  ok (record {
    slope_nom = end.borrow_rate_bps - start.borrow_rate_bps;
    slope_denom = slope_denom;
    start_point = start;
  })

-- The loop of `validate`, after the point `last_pt`.
unfoldable pub validate_from : CurvePoint → List CurvePoint → Result (Unit {0})
validate_from last_pt [] = ok tt
validate_from last_pt (pt ∷ pts) =
    let rest = validate_from pt pts in
    (do
      (if last_pt.utilization_rate_bps == max_utilization_rate_bps
          then guard (pt.utilization_rate_bps == max_utilization_rate_bps) invalid
          else guard (not (leb pt.utilization_rate_bps last_pt.utilization_rate_bps)) invalid)
      guard (not (ltb pt.borrow_rate_bps last_pt.borrow_rate_bps)) invalid
      rest)

unfoldable pub validate : BorrowRateCurve → Result (Unit {0})
unfolding validate_from
validate curve = do
  first ← unwrap (get_elem? curve.points 0)
  guard (first.utilization_rate_bps == 0) invalid
  last ← unwrap (get_elem? curve.points 10)
  guard (last.utilization_rate_bps == max_utilization_rate_bps) invalid
  validate_from first (tail curve.points)

-- `points[..pts.len()].copy_from_slice(pts)`, on an array that is as long or longer.
unfoldable pub copy_prefix : List CurvePoint → List CurvePoint → List CurvePoint
copy_prefix points [] = points
copy_prefix [] (pt ∷ pts) = []
copy_prefix (point ∷ points) (pt ∷ pts) = pt ∷ copy_prefix points pts

unfoldable pub from_points : List CurvePoint → Result BorrowRateCurve
from_points pts = do
  guard (not (ltb (length pts) 2)) invalid
  guard (not (ltb curve_points (length pts))) invalid
  last ← unwrap (get_elem? pts (length pts - 1))
  guard (last.utilization_rate_bps == max_utilization_rate_bps) invalid
  let curve : BorrowRateCurve = record { points = copy_prefix (replicate curve_points last) pts }
  validate curve
  ok curve

abbrev pub point : ℕ → ℕ → CurvePoint
point utilization_rate_bps borrow_rate_bps = record {
  utilization_rate_bps = utilization_rate_bps;
  borrow_rate_bps = borrow_rate_bps;
}

unfoldable pub new_flat : ℕ → Result BorrowRateCurve
unfolding from_points
new_flat rate = unwrap_ok (from_points (point 0 rate ∷ point max_utilization_rate_bps rate ∷ []))

-- The percentages are u8, so the products fit a u32.
unfoldable pub from_legacy_parameters : ℕ → ℕ → ℕ → ℕ → Result BorrowRateCurve
unfolding from_points
from_legacy_parameters optimal_utilization_rate_pct base_rate_pct optimal_rate_pct max_rate_pct =
    let optimal_utilization_rate = optimal_utilization_rate_pct * 100 in
    let base_rate = base_rate_pct * 100 in
    let optimal_rate = optimal_rate_pct * 100 in
    let max_rate = max_rate_pct * 100 in
    unwrap_ok (
      from_points (
        if optimal_utilization_rate == 0
        then point 0 optimal_rate ∷ point max_utilization_rate_bps max_rate ∷ []
        else (if optimal_utilization_rate == max_utilization_rate_bps
            then point 0 base_rate ∷ point max_utilization_rate_bps optimal_rate ∷ []
            else point 0 base_rate
              ∷ point optimal_utilization_rate optimal_rate
              ∷ point max_utilization_rate_bps max_rate
              ∷ [])))

-- The first of the windows of two points whose utilizations enclose the value.
unfoldable pub find_segment : ℕ → List CurvePoint → Option (CurvePoint × CurvePoint)
find_segment bps [] = none
find_segment bps (first ∷ []) = none
find_segment bps (first ∷ second ∷ rest) =
    let later = find_segment bps (second ∷ rest) in
    if leb first.utilization_rate_bps bps && leb bps second.utilization_rate_bps
    then some (first, second)
    else later

module _ ⦃c : Crates⦄ where
  open c use {add, mul_int, div_int, checked_sub}

  unfoldable pub segment_borrow_rate : CurveSegment → Fraction → Result Fraction
  segment_borrow_rate segment utilization_rate = do
    start_utilization_rate ← from_bps segment.start_point.utilization_rate_bps
    coef ←
        ok_or (checked_sub utilization_rate start_utilization_rate)
          LendingError.invalid_utilization_rate
    nom ← mul_int coef segment.slope_nom
    base_rate ← div_int nom segment.slope_denom
    offset ← from_bps segment.start_point.borrow_rate_bps
    add base_rate offset

  -- The end of `get_borrow_rate`, once the segment is found.
  unfoldable pub rate_between : CurvePoint → CurvePoint → ℕ → Fraction → Result Fraction
  unfolding segment_borrow_rate segment_from_points
  rate_between start_pt end_pt bps utilization_rate =
      if bps == start_pt.utilization_rate_bps
      then from_bps start_pt.borrow_rate_bps
      else (if bps == end_pt.utilization_rate_bps
          then from_bps end_pt.borrow_rate_bps
          else (segment_from_points start_pt end_pt >>= λ segment.
              segment_borrow_rate segment utilization_rate))

  -- `get_borrow_rate` once the utilization is at most 100 %.
  unfoldable pub rate_at : BorrowRateCurve → Fraction → Result Fraction
  rate_at curve utilization_rate = do
    bps? ← to_bps u32_max utilization_rate
    bps ← unwrap bps?
    pts ← unwrap (find_segment bps curve.points)
    rate_between pts.0 pts.1 bps utilization_rate

  unfoldable pub get_borrow_rate : BorrowRateCurve → Fraction → Result Fraction
  unfolding rate_at
  get_borrow_rate curve utilization_rate =
      rate_at curve (if ltb one utilization_rate then one else utilization_rate)
