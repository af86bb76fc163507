-- ===== src/Base/Lists.antt =====
-- Lists measured and indexed by native numbers, for the program's arrays.
use Prim.Native.Nat.{ℕ, zero, suc, ◌+◌}
use mathlib.Core.Path.{◌≡◌, refl, ap}
use mathlib.Core.List.{List, [], ◌∷◌, ◌++◌}
use native.Mathlib.Omega.{arith}
use mathlib.Core.Option
use mathlib.Core.Option.{Option, none, some}
use kamino_lending.Base.Tests.{if◌then◌else◌, ◌==◌}
use mathlib.Core.Bool.{Bool, true, false, ◌&&◌, ◌||◌}

module _ {ℓ} {A : Type ℓ} where
  abbrev pub length : List A → ℕ
  length [] = 0
  length (x ∷ xs) = suc (length xs)

  abbrev pub get_elem? : List A → ℕ → Option A
  get_elem? [] i = none
  get_elem? (x ∷ xs) zero = some x
  get_elem? (x ∷ xs) (suc i) = get_elem? xs i

  -- A write out of bounds changes nothing.
  abbrev pub set : List A → ℕ → A → List A
  set [] i v = []
  set (x ∷ xs) zero v = v ∷ xs
  set (x ∷ xs) (suc i) v = x ∷ set xs i v

  abbrev pub replicate : ℕ → A → List A
  replicate zero a = []
  replicate (suc n) a = a ∷ replicate n a

  abbrev pub All {κ} : (A → Type κ) → List A → Type κ
  All P [] = Unit
  All P (x ∷ xs) = P x × All P xs

  pub length-set : (xs : List A) (i : ℕ) (v : A) → length (set xs i v) ≡ length xs
  length-set [] i v = refl
  length-set (x ∷ xs) zero v = refl
  length-set (x ∷ xs) (suc i) v = ap suc (length-set xs i v)

  abbrev pub tail : List A → List A
  tail [] = []
  tail (x ∷ xs) = xs

  -- The last element, or the given one.
  abbrev pub last_or : A → List A → A
  last_or a [] = a
  last_or a (x ∷ xs) = last_or x xs

  pub get_elem?-last : (x : A) (xs : List A) → get_elem? (x ∷ xs) (length xs) ≡ some (last_or x xs)
  get_elem?-last x [] = refl
  get_elem?-last x (y ∷ ys) = get_elem?-last y ys

  pub last_or-append_replicate :
      (x : A) (xs : List A) (n : ℕ) → last_or x (xs ++ replicate n (last_or x xs)) ≡ last_or x xs
  last_or-append_replicate x [] zero = refl
  last_or-append_replicate x [] (suc n) = last_or-append_replicate x [] n
  last_or-append_replicate x (y ∷ ys) n = last_or-append_replicate y ys n

  pub length-append_replicate :
      (xs : List A) (n m : ℕ) (a : A) → length xs + n ≡ m → length (xs ++ replicate n a) ≡ m
  length-append_replicate [] zero m a h = omega arith
  length-append_replicate [] (suc n) zero a h = absurd (omega arith)
  length-append_replicate [] (suc n) (suc m) a h =
      ap suc (length-append_replicate [] n m a (omega arith))
  length-append_replicate (x ∷ xs) n zero a h = absurd (omega arith)
  length-append_replicate (x ∷ xs) n (suc m) a h =
      ap suc (length-append_replicate xs n m a (omega arith))

  -- `iter().position(..)`: the index of the first element that passes the test.
  abbrev pub position : (A → Bool) → List A → Option ℕ
  position test [] = none
  position test (x ∷ xs) =
      let rest = position test xs in if test x then some 0 else Option.map suc rest

  -- `iter().filter(..).count()`
  abbrev pub count : (A → Bool) → List A → ℕ
  count test [] = 0
  count test (x ∷ xs) = let rest = count test xs in if test x then suc rest else rest

  -- `iter().filter(..)`
  abbrev pub filter : (A → Bool) → List A → List A
  filter test [] = []
  filter test (x ∷ xs) = let rest = filter test xs in if test x then x ∷ rest else rest

  -- `iter().all(..)`
  abbrev pub all : (A → Bool) → List A → Bool
  all test [] = true
  all test (x ∷ xs) = test x && all test xs

  -- `iter().any(..)`
  abbrev pub any : (A → Bool) → List A → Bool
  any test [] = false
  any test (x ∷ xs) = test x || any test xs

-- The equality of two arrays of integers.
abbrev pub equal : List ℕ → List ℕ → Bool
equal [] [] = true
equal [] (y ∷ ys) = false
equal (x ∷ xs) [] = false
equal (x ∷ xs) (y ∷ ys) = x == y && equal xs ys

-- `slice.contains(&x)`
abbrev pub contains : List ℕ → ℕ → Bool
contains xs x = any (λ y. y == x) xs
