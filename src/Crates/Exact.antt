-- ===== src/Crates/Exact.antt =====
-- An implementation of the number crates that meets `IsExact`, and the fact that it is the only one:
-- a theorem about every exact implementation is proved by computing with this one.
use kamino_lending.Base.{
  ◌+◌, ◌-◌, ◌*◌, ◌/◌, ◌%◌, ◌^◌, ◌≡◌, refl, none, some, leb, ◌==◌, if◌then◌else◌, u128_max, u256_max,
}
use kamino_lending.Crates.{Crates, IsExact, one, half, fit, checked, div_or_panic, difference}

instance abbrev pub exact : Crates
exact = record {
  add = λ a b. checked u128_max (a + b);
  sub = λ a b. difference a b;
  mul = λ a b. checked u128_max (a * b / one);
  div = λ a b. div_or_panic u128_max (a * one) b;
  mul_int = λ a n. checked u128_max (a * n);
  div_int = λ a n. div_or_panic u128_max a n;
  checked_mul = λ a b. fit u128_max (a * b / one);
  checked_sub = λ a b. (if leb b a then some (a - b) else none);
  saturating_sub = λ a b. a - b;
  from_num = λ n. checked u128_max (n * one);
  floor = λ a. a / one * one;
  ceil = λ a. checked u128_max ((a + one - 1) / one * one);
  round = λ a. checked u128_max ((a + half) / one * one);
  to_num = λ bound a. checked bound (a / one);
  checked_to_num = λ bound a. fit bound (a / one);
  u256_add = λ a b. checked u256_max (a + b);
  u256_sub = λ a b. difference a b;
  u256_mul = λ a b. checked u256_max (a * b);
  u256_div = λ a b. div_or_panic u256_max a b;
  u256_checked_add = λ a b. fit u256_max (a + b);
  u256_checked_mul = λ a b. fit u256_max (a * b);
  u256_checked_div = λ a b. (if b == 0 then none else some (a / b));
  u256_shl = λ a n. a * 2 ^ n % 2 ^ 256;
  u256_shr = λ a n. a / 2 ^ n;
  u256_to_u128 = λ a. fit u128_max a;
}

pub exact-IsExact : IsExact exact
exact-IsExact = record {
  add_lem = λ _ _. refl;
  sub_lem = λ _ _. refl;
  mul_lem = λ _ _. refl;
  div_lem = λ _ _. refl;
  mul_int_lem = λ _ _. refl;
  div_int_lem = λ _ _. refl;
  checked_mul_lem = λ _ _. refl;
  checked_sub_lem = λ _ _. refl;
  saturating_sub_lem = λ _ _. refl;
  from_num_lem = λ _. refl;
  floor_lem = λ _. refl;
  ceil_lem = λ _. refl;
  round_lem = λ _. refl;
  to_num_lem = λ _ _. refl;
  checked_to_num_lem = λ _ _. refl;
  u256_add_lem = λ _ _. refl;
  u256_sub_lem = λ _ _. refl;
  u256_mul_lem = λ _ _. refl;
  u256_div_lem = λ _ _. refl;
  u256_checked_add_lem = λ _ _. refl;
  u256_checked_mul_lem = λ _ _. refl;
  u256_checked_div_lem = λ _ _. refl;
  u256_shl_lem = λ _ _. refl;
  u256_shr_lem = λ _ _. refl;
  u256_to_u128_lem = λ _. refl;
}

-- Documented behaviour determines the operations.
pub Crates-eq-exact : (c : Crates) → IsExact c → c ≡ exact
Crates-eq-exact c laws = λ i. record {
  add = λ a b. laws.add_lem a b i;
  sub = λ a b. laws.sub_lem a b i;
  mul = λ a b. laws.mul_lem a b i;
  div = λ a b. laws.div_lem a b i;
  mul_int = λ a n. laws.mul_int_lem a n i;
  div_int = λ a n. laws.div_int_lem a n i;
  checked_mul = λ a b. laws.checked_mul_lem a b i;
  checked_sub = λ a b. laws.checked_sub_lem a b i;
  saturating_sub = λ a b. laws.saturating_sub_lem a b i;
  from_num = λ n. laws.from_num_lem n i;
  floor = λ a. laws.floor_lem a i;
  ceil = λ a. laws.ceil_lem a i;
  round = λ a. laws.round_lem a i;
  to_num = λ bound a. laws.to_num_lem bound a i;
  checked_to_num = λ bound a. laws.checked_to_num_lem bound a i;
  u256_add = λ a b. laws.u256_add_lem a b i;
  u256_sub = λ a b. laws.u256_sub_lem a b i;
  u256_mul = λ a b. laws.u256_mul_lem a b i;
  u256_div = λ a b. laws.u256_div_lem a b i;
  u256_checked_add = λ a b. laws.u256_checked_add_lem a b i;
  u256_checked_mul = λ a b. laws.u256_checked_mul_lem a b i;
  u256_checked_div = λ a b. laws.u256_checked_div_lem a b i;
  u256_shl = λ a n. laws.u256_shl_lem a n i;
  u256_shr = λ a n. laws.u256_shr_lem a n i;
  u256_to_u128 = λ a. laws.u256_to_u128_lem a i;
}
