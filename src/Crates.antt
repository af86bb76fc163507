-- ===== src/Crates.antt =====
-- The two number crates that the program calls and that are not in the repository: `fixed` (the type
-- `U68F60`, here `Fraction`: a u128 that counts units of 2^-60) and `uint` (`U256`). The operations
-- are parameters, an instance of `Crates`; `IsExact` states their documented behaviour under the
-- release profile of Cargo.toml, which turns the overflow checks of both crates on.
pub mod Exact
use kamino_lending.Base.{
  Option, Result, arith, if◌then◌else◌, leb, le→leb, none, ok, panic, some, u128_max, u256_max, ℕ,
  ◌%◌, ◌*◌, ◌+◌, ◌-◌, ◌/◌, ◌<◌, ◌==◌, ◌>>=◌, ◌^◌, ◌≡◌, ◌≤◌,
}

-- Fraction::ONE.to_bits()
abbrev pub one : ℕ
one = 2 ^ 60

-- Half a unit, the point from which `round` goes up.
abbrev pub half : ℕ
half = 2 ^ 59

abbrev pub fit : ℕ → ℕ → Option ℕ
fit bound v = if leb v bound then some v else none

-- A value that a machine integer with this largest value holds, or else an overflow.
abbrev pub checked : ℕ → ℕ → Result ℕ
checked bound v = if leb v bound then ok v else panic

-- Fractions are given by their bits.
pub record Crates : Type 0 where
  pub add : ℕ → ℕ → Result ℕ
  pub sub : ℕ → ℕ → Result ℕ
  pub mul : ℕ → ℕ → Result ℕ
  pub div : ℕ → ℕ → Result ℕ
  pub mul_int : ℕ → ℕ → Result ℕ
  pub div_int : ℕ → ℕ → Result ℕ
  pub checked_mul : ℕ → ℕ → Option ℕ
  pub checked_sub : ℕ → ℕ → Option ℕ
  pub saturating_sub : ℕ → ℕ → ℕ
  pub from_num : ℕ → Result ℕ
  pub floor : ℕ → ℕ
  pub ceil : ℕ → Result ℕ
  pub round : ℕ → Result ℕ
  pub to_num : ℕ → ℕ → Result ℕ
  pub checked_to_num : ℕ → ℕ → Option ℕ
  pub u256_add : ℕ → ℕ → Result ℕ
  pub u256_sub : ℕ → ℕ → Result ℕ
  pub u256_mul : ℕ → ℕ → Result ℕ
  pub u256_div : ℕ → ℕ → Result ℕ
  pub u256_checked_add : ℕ → ℕ → Option ℕ
  pub u256_checked_mul : ℕ → ℕ → Option ℕ
  pub u256_checked_div : ℕ → ℕ → Option ℕ
  pub u256_shl : ℕ → ℕ → ℕ
  pub u256_shr : ℕ → ℕ → ℕ
  pub u256_to_u128 : ℕ → Option ℕ

abbrev pub div_or_panic : ℕ → ℕ → ℕ → Result ℕ
div_or_panic bound a b = if b == 0 then panic else checked bound (a / b)

abbrev pub difference : ℕ → ℕ → Result ℕ
difference a b = if leb b a then ok (a - b) else panic

-- `a.checked_add(b)` and `a.checked_sub(b)` on machine integers with this largest value.
abbrev pub checked_add_int : ℕ → ℕ → ℕ → Option ℕ
checked_add_int bound a b = fit bound (a + b)

abbrev pub checked_sub_int : ℕ → ℕ → Option ℕ
checked_sub_int a b = if leb b a then some (a - b) else none

-- What the documentation of the crates says of these operations: results are rounded down, and an
-- overflow or a division by zero panics (`checked_…` returns `None`). `U256 << n` drops the high
-- bits.
pub record IsExact (c : Crates) : Type 0 where
  pub add_lem : (a b : ℕ) → c.add a b ≡ checked u128_max (a + b)
  pub sub_lem : (a b : ℕ) → c.sub a b ≡ difference a b
  pub mul_lem : (a b : ℕ) → c.mul a b ≡ checked u128_max (a * b / one)
  pub div_lem : (a b : ℕ) → c.div a b ≡ div_or_panic u128_max (a * one) b
  pub mul_int_lem : (a n : ℕ) → c.mul_int a n ≡ checked u128_max (a * n)
  pub div_int_lem : (a n : ℕ) → c.div_int a n ≡ div_or_panic u128_max a n
  pub checked_mul_lem : (a b : ℕ) → c.checked_mul a b ≡ fit u128_max (a * b / one)
  pub checked_sub_lem : (a b : ℕ) → c.checked_sub a b ≡ (if leb b a then some (a - b) else none)
  pub saturating_sub_lem : (a b : ℕ) → c.saturating_sub a b ≡ a - b
  pub from_num_lem : (n : ℕ) → c.from_num n ≡ checked u128_max (n * one)
  pub floor_lem : (a : ℕ) → c.floor a ≡ a / one * one
  pub ceil_lem : (a : ℕ) → c.ceil a ≡ checked u128_max ((a + one - 1) / one * one)
  pub round_lem : (a : ℕ) → c.round a ≡ checked u128_max ((a + half) / one * one)
  pub to_num_lem : (bound a : ℕ) → c.to_num bound a ≡ checked bound (a / one)
  pub checked_to_num_lem : (bound a : ℕ) → c.checked_to_num bound a ≡ fit bound (a / one)
  pub u256_add_lem : (a b : ℕ) → c.u256_add a b ≡ checked u256_max (a + b)
  pub u256_sub_lem : (a b : ℕ) → c.u256_sub a b ≡ difference a b
  pub u256_mul_lem : (a b : ℕ) → c.u256_mul a b ≡ checked u256_max (a * b)
  pub u256_div_lem : (a b : ℕ) → c.u256_div a b ≡ div_or_panic u256_max a b
  pub u256_checked_add_lem : (a b : ℕ) → c.u256_checked_add a b ≡ fit u256_max (a + b)
  pub u256_checked_mul_lem : (a b : ℕ) → c.u256_checked_mul a b ≡ fit u256_max (a * b)
  pub u256_checked_div_lem :
      (a b : ℕ) → c.u256_checked_div a b ≡ (if b == 0 then none else some (a / b))
  pub u256_shl_lem : (a n : ℕ) → c.u256_shl a n ≡ a * 2 ^ n % 2 ^ 256
  pub u256_shr_lem : (a n : ℕ) → c.u256_shr a n ≡ a / 2 ^ n
  pub u256_to_u128_lem : (a : ℕ) → c.u256_to_u128 a ≡ fit u128_max a

-- A checked step of a computation that succeeds has the exact value.
pub step_checked {κ} :
    {B : Type κ} {m : Result ℕ} {bound v : ℕ} (f : ℕ → Result B) {y : B}
    → m ≡ checked bound v
    → (m >>= f) ≡ ok y
    → (v ≤ bound) × (f v ≡ ok y)
step_checked f h = rw h (λ e. ground arith)

pub step_difference {κ} :
    {B : Type κ} {m : Result ℕ} {a b : ℕ} (f : ℕ → Result B) {y : B}
    → m ≡ difference a b
    → (m >>= f) ≡ ok y
    → (b ≤ a) × (f (a - b) ≡ ok y)
step_difference f h = rw h (λ e. ground arith)

pub step_div {κ} :
    {B : Type κ} {m : Result ℕ} {b : ℕ} (a bound : ℕ) (f : ℕ → Result B) {y : B}
    → m ≡ div_or_panic bound a b
    → (m >>= f) ≡ ok y
    → (0 < b) × (f (a / b) ≡ ok y)
step_div a bound f h = rw h (λ e. ground arith)

pub last_checked : {m : Result ℕ} {v y : ℕ} (bound : ℕ) → m ≡ checked bound v → m ≡ ok y → y ≡ v
last_checked bound h = rw h (λ e. ground arith)

-- A step whose exact value fits goes on with it.
pub run_checked {κ} :
    {B : Type κ} {m : Result ℕ} {bound v : ℕ} (f : ℕ → Result B) {y : Result B}
    → m ≡ checked bound v
    → v ≤ bound
    → f v ≡ y
    → (m >>= f) ≡ y
run_checked f h fits e = rw h (rw (le→leb _ _ fits) e)

pub run_difference {κ} :
    {B : Type κ} {m : Result ℕ} {a b : ℕ} (f : ℕ → Result B) {y : Result B}
    → m ≡ difference a b
    → b ≤ a
    → f (a - b) ≡ y
    → (m >>= f) ≡ y
run_difference f h fits e = rw h (rw (le→leb _ _ fits) e)

pub run {κ ℓ} :
    {A : Type ℓ} {B : Type κ} {m : Result A} {a : A} (f : A → Result B) {y : Result B}
    → m ≡ ok a
    → f a ≡ y
    → (m >>= f) ≡ y
run f h e = rw h e

pub last_div :
    {m : Result ℕ} {b y : ℕ} (bound a : ℕ)
    → m ≡ div_or_panic bound a b
    → m ≡ ok y
    → (0 < b) × (y ≡ a / b)
last_div bound a h = rw h (λ e. ground arith)
