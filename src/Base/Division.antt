-- ===== src/Base/Division.antt =====
-- Division that rounds up or down, where the divisor is a variable.
use Prim.Native.Nat.{ℕ, ◌+◌, ◌-◌, ◌*◌, ◌/◌, ◌≤◌, ◌<◌}
use native.Mathlib.Nat.{le-div_iff_mul-le, div-lt_iff_lt-mul, div-mul-le_self, lt-div-mul-add}
use native.Mathlib.Omega.{arith}

pub le-div : {k : ℕ} (x y : ℕ) → 0 < k → x * k ≤ y → x ≤ y / k
le-div x y h p = (le-div_iff_mul-le h).1 p

pub div-le : {k : ℕ} (x y : ℕ) → 0 < k → x < (y + 1) * k → x / k ≤ y
div-le {k} x y h p = let q : x / k < y + 1 = (div-lt_iff_lt-mul h).1 p in omega arith

-- The rounded-up quotient is the least whose multiple is not below.
pub le-mul_ceil : (a b : ℕ) → 0 < b → a ≤ (a + (b - 1)) / b * b
le-mul_ceil a b h = omega (arith, lt-div-mul-add {a = a + (b - 1)} h)

pub mul_ceil-lt : (a b : ℕ) → 0 < b → (a + (b - 1)) / b * b < a + b
mul_ceil-lt a b h = omega (arith, div-mul-le_self (a + (b - 1)) b)

pub ceil-le : (a b n : ℕ) → 0 < b → a ≤ n * b → (a + (b - 1)) / b ≤ n
ceil-le a b n h p = div-le _ n h (omega arith)
