-- ===== src/BorrowRateCurve/Validity.antt =====
-- What `validate` accepts (borrow_rate_curve.rs), and which lists of points `from_points` accepts.
use kamino_lending.Base.{
  List, Option-cases, [], ap, arith, get_elem?, get_elem?-last, inl, inr, last_or,
  last_or-append_replicate, length, length-append_replicate, le→ltb_false, ok, refl, replicate,
  some, suc, sym, zero, ℕ, ◌++◌, ◌+◌, ◌-◌, ◌<◌, ◌↔◌, ◌∷◌, ◌≡◌, ◌≢◌, ◌≤◌, ◌⊎◌,
}
use mathlib.Core.Path.{subst}
use kamino_lending.BorrowRateCurve.Defs.{
  BorrowRateCurve, CurvePoint, copy_prefix, curve_points, from_points, max_utilization_rate_bps,
  point, validate, validate_from,
}

-- From this point on the utilization grows up to 100 % and then stays there, and the rate never falls.
abbrev pub Rising : CurvePoint → List CurvePoint → Type 0
Rising last [] = Unit
Rising last (pt ∷ pts) =
    (last.borrow_rate_bps ≤ pt.borrow_rate_bps)
    × ((last.utilization_rate_bps < pt.utilization_rate_bps)
          × (last.utilization_rate_bps ≢ max_utilization_rate_bps)
        ⊎ (last.utilization_rate_bps ≡ max_utilization_rate_bps)
          × (pt.utilization_rate_bps ≡ max_utilization_rate_bps))
    × Rising pt pts

abbrev pub IsCurve : List CurvePoint → Type 0
IsCurve [] = ⊥
IsCurve (first ∷ rest) =
    (first.utilization_rate_bps ≡ 0)
    × ((last_or first rest).utilization_rate_bps ≡ max_utilization_rate_bps)
    × Rising first rest

Rising-of-validate_from :
    (last : CurvePoint) (pts : List CurvePoint) → validate_from last pts ≡ ok tt → Rising last pts
unfolding validate_from
Rising-of-validate_from last [] h = tt
Rising-of-validate_from last (pt ∷ pts) h = ground (arith, Rising-of-validate_from pt pts)

validate_from-of-Rising :
    (last : CurvePoint) (pts : List CurvePoint) → Rising last pts → validate_from last pts ≡ ok tt
unfolding validate_from
validate_from-of-Rising last [] h = refl
validate_from-of-Rising last (pt ∷ pts) h = ground (arith, validate_from-of-Rising pt pts)

validate_cons :
    (first : CurvePoint) (rest : List CurvePoint)
    → 10 ≡ length rest
    → (validate (record { points = first ∷ rest }) ≡ ok tt) ↔ IsCurve (first ∷ rest)
unfolding validate
validate_cons first rest h =
    let at_end : get_elem? rest 9 ≡ some (last_or first rest) =
      subst (λ n. get_elem? (first ∷ rest) n ≡ some (last_or first rest)) (sym h)
        (get_elem?-last first rest) in
    rw at_end (
      λ e. ground (arith, Rising-of-validate_from first rest),
      λ v. ground (arith, validate_from-of-Rising first rest),
    )

-- An array of 11 points passes `validate` exactly if its utilizations start at 0 %, grow strictly up
-- to 100 %, stay there, and end there, and its rates never fall.
pub validate_iff :
    (curve : BorrowRateCurve)
    → length curve.points ≡ curve_points
    → (validate curve ≡ ok tt) ↔ IsCurve curve.points
validate_iff curve h = go curve.points h
  where
    go :
        (pts : List CurvePoint)
        → length pts ≡ curve_points
        → (validate (record { points = pts }) ≡ ok tt) ↔ IsCurve pts
    go [] h' = absurd (omega arith)
    go (first ∷ rest) h' = validate_cons first rest (omega arith)

copy_prefix_lem :
    (last : CurvePoint) (pts : List CurvePoint) (n k : ℕ)
    → length pts + k ≡ n
    → copy_prefix (replicate n last) pts ≡ pts ++ replicate k last
unfolding copy_prefix
copy_prefix_lem last [] n k h = let e : n ≡ k = omega arith in rw e
copy_prefix_lem last (pt ∷ pts) zero k h = absurd (omega arith)
copy_prefix_lem last (pt ∷ pts) (suc n) k h =
    ap (◌∷◌ pt) (copy_prefix_lem last pts n k (omega arith))

Rising-append_replicate :
    (first : CurvePoint) (rest : List CurvePoint) (n : ℕ)
    → (last_or first rest).utilization_rate_bps ≡ max_utilization_rate_bps
    → Rising first rest
    → Rising first (rest ++ replicate n (last_or first rest))
Rising-append_replicate first [] zero e r = tt
Rising-append_replicate first [] (suc n) e r =
    (omega arith, inr (e, e), Rising-append_replicate first [] n e tt)
Rising-append_replicate first (pt ∷ pts) n e r = (r.0, r.1, Rising-append_replicate pt pts n e r.2)

suc_sub_one : (n : ℕ) → suc n - 1 ≡ n
suc_sub_one n = omega arith

-- `from_points` accepts every list of 2 to 11 points that is a curve, and fills the array up with the
-- last point; the result is a curve again.
pub from_points_complete :
    (first : CurvePoint) (rest : List CurvePoint)
    → 1 ≤ length rest
    → length rest ≤ 10
    → IsCurve (first ∷ rest)
    → let points = (first ∷ rest) ++ replicate (10 - length rest) (last_or first rest) in
      (from_points (first ∷ rest) ≡ ok (record { points = points })) × IsCurve points
unfolding from_points
from_points_complete first rest lo hi h = (
  rw
      (
        le→ltb_false (suc (length rest)) 2 (omega arith),
        le→ltb_false 11 (suc (length rest)) (omega arith),
        suc_sub_one (length rest),
        get_elem?-last first rest,
        copy_prefix_lem (last_or first rest) (first ∷ rest) 11 (10 - length rest) (omega arith),
      )
      (rw (h.1, valid)),
  filled,
)
  where
    points : List CurvePoint
    points = (first ∷ rest) ++ replicate (10 - length rest) (last_or first rest)

    filled : IsCurve points
    filled = (
      h.0,
      rw (last_or-append_replicate first rest (10 - length rest)) h.1,
      Rising-append_replicate first rest (10 - length rest) h.1 h.2,
    )

    count : length points ≡ curve_points
    count = length-append_replicate (first ∷ rest) (10 - length rest) 11 _ (omega arith)

    valid : validate (record { points = points }) ≡ ok tt
    valid = (validate_iff (record { points = points }) count).1 filled

length-copy_prefix :
    (points pts : List CurvePoint) → length (copy_prefix points pts) ≡ length points
unfolding copy_prefix
length-copy_prefix points [] = refl
length-copy_prefix [] (pt ∷ pts) = refl
length-copy_prefix (point ∷ points) (pt ∷ pts) = ap suc (length-copy_prefix points pts)

-- The array that `from_points` builds is a curve if `validate` passes.
validated :
    (last : CurvePoint) (pts : List CurvePoint)
    → let points = copy_prefix (replicate curve_points last) pts in
      validate (record { points = points }) ≡ ok tt
      → (length points ≡ curve_points) × IsCurve points
validated last pts v =
    let n = length-copy_prefix (replicate curve_points last) pts in (n, (validate_iff _ n).0 v)

-- Whatever it accepts is an array of 11 points that is a curve.
pub from_points_sound :
    (pts : List CurvePoint) {curve : BorrowRateCurve}
    → from_points pts ≡ ok curve
    → (length curve.points ≡ curve_points) × IsCurve curve.points
unfolding from_points
from_points_sound pts h = elim (Option-cases (get_elem? pts (length pts - 1))) [
  | inl none_last ↦ ground arith
  | inr (last, e) ↦ ground (arith, validated last pts)
]
