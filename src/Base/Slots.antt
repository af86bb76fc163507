-- ===== src/Base/Slots.antt =====
-- Finding and replacing an element of a list, and counting those that pass a test.
use Prim.Native.Nat.{ℕ, zero, suc, ◌+◌}
use mathlib.Core.Path.{◌≡◌, refl, ap}
use mathlib.Core.Logic.{◌≢◌, inl, inr}
use mathlib.Core.Bool.{Bool, true, false}
use mathlib.Core.Option
use mathlib.Core.Option.{Option, none, some}
use mathlib.Core.List.{List, [], ◌∷◌}
use native.Mathlib.Omega.{arith}
use kamino_lending.Base.Tests.{Bool-cases, if◌then◌else◌, if_true, if_false}
use kamino_lending.Base.Lists.{count, position, set, get_elem?}

abbrev pub bit : Bool → ℕ
bit b = if b then 1 else 0

map-suc-ne-zero : (o : Option ℕ) → Option.map suc o ≢ some 0
map-suc-ne-zero none h = cc
map-suc-ne-zero (some n) h = cc

map-suc-eq-suc : (o : Option ℕ) (i : ℕ) → Option.map suc o ≡ some (suc i) → o ≡ some i
map-suc-eq-suc none i h = cc
map-suc-eq-suc (some n) i h = cc

map-suc-eq-none : (o : Option ℕ) → Option.map suc o ≡ none → o ≡ none
map-suc-eq-none none h = refl
map-suc-eq-none (some n) h = cc

count_step : (a b : Bool) (n : ℕ) → (if a then suc n else n) + bit b ≡ n + bit a + bit b
count_step true b n = omega arith
count_step false b n = omega arith

module _ {ℓ} {A : Type ℓ} where
  pub position-eq-some :
      (test : A → Bool) (xs : List A) (i : ℕ)
      → position test xs ≡ some i
      → (x : A) × (get_elem? xs i ≡ some x) × (test x ≡ true)
  position-eq-some test [] i h = cc
  position-eq-some test (x ∷ xs) zero h = elim (Bool-cases (test x)) [
    | inl passes ↦ (x, refl, passes)
    | inr fails ↦ absurd (map-suc-ne-zero (position test xs) (if_false _ fails h))
  ]
  position-eq-some test (x ∷ xs) (suc i) h = elim (Bool-cases (test x)) [
    | inl passes ↦ let e : some 0 ≡ some (suc i) = if_true _ passes h in cc
    | inr fails ↦
        position-eq-some test xs i (map-suc-eq-suc (position test xs) i (if_false _ fails h))
  ]

  pub position-eq-none :
      (test : A → Bool) (xs : List A) → position test xs ≡ none → count test xs ≡ 0
  position-eq-none test [] h = refl
  position-eq-none test (x ∷ xs) h = elim (Bool-cases (test x)) [
    | inl passes ↦ let e : Path (Option ℕ) (some 0) none = if_true _ passes h in cc
    | inr fails ↦
        rw fails
          (position-eq-none test xs (map-suc-eq-none (position test xs) (if_false _ fails h)))
  ]

  pub count-set :
      (test : A → Bool) (xs : List A) (i : ℕ) (x v : A)
      → get_elem? xs i ≡ some x
      → count test (set xs i v) + bit (test x) ≡ count test xs + bit (test v)
  count-set test [] i x v h = cc
  count-set test (y ∷ ys) zero x v h =
      let same : y ≡ x = cc in
      rw same (
        omega (
          arith,
          count_step (test v) (test x) (count test ys),
          count_step (test x) (test v) (count test ys),
        ))
  count-set test (y ∷ ys) (suc i) x v h =
      let rest = count-set test ys i x v h in
      omega (
        arith,
        rest,
        count_step (test y) (test x) (count test (set ys i v)),
        count_step (test y) (test v) (count test ys),
      )

  pub get_elem?-set :
      (xs : List A) (i : ℕ) (x v : A) → get_elem? xs i ≡ some x → get_elem? (set xs i v) i ≡ some v
  get_elem?-set [] i x v h = cc
  get_elem?-set (y ∷ ys) zero x v h = refl
  get_elem?-set (y ∷ ys) (suc i) x v h = get_elem?-set ys i x v h

  pub get_elem?-set_other :
      (xs : List A) (i j : ℕ) (v : A) → i ≢ j → get_elem? (set xs i v) j ≡ get_elem? xs j
  get_elem?-set_other [] i j v h = refl
  get_elem?-set_other (y ∷ ys) zero zero v h = absurd (h refl)
  get_elem?-set_other (y ∷ ys) zero (suc j) v h = refl
  get_elem?-set_other (y ∷ ys) (suc i) zero v h = refl
  get_elem?-set_other (y ∷ ys) (suc i) (suc j) v h =
      get_elem?-set_other ys i j v (λ e. h (ap suc e))
