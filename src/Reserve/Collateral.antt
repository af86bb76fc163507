-- ===== src/Reserve/Collateral.antt =====
-- `ReserveCollateral` and `CollateralExchangeRate` (state/reserve.rs).
use kamino_lending.Base.{
  LendingError, Result, if◌then◌else◌, ok, ok_or, u128_max, u64_max, unwrap, unwrap_ok, ℕ, ◌*◌,
  ◌==◌, ◌>>=◌, ◌||◌,
}
use kamino_lending.Crates.{Crates, checked, checked_add_int, checked_sub_int, one}
use kamino_lending.Fraction.{
  Fraction, big_add, big_div, big_div_int, big_from_num, big_mul, big_mul_int, fraction_of_big,
  to_ceil, to_floor, try_to_floor,
}
use kamino_lending.Reserve.Liquidity.{Pubkey}

pub record ReserveCollateral : Type 0 where
  pub mint_pubkey : Pubkey
  pub mint_total_supply : ℕ
  pub supply_vault : Pubkey

pub record CollateralExchangeRate : Type 0 where
  pub collateral_supply : ℕ
  pub liquidity : Fraction

-- `CollateralExchangeRate::ONE`, which is also INITIAL_COLLATERAL_RATE (utils/consts.rs).
abbrev pub initial_collateral_rate : CollateralExchangeRate
initial_collateral_rate = record { collateral_supply = 1; liquidity = one }

-- `ReserveCollateral::new`
unfoldable pub new_collateral : Pubkey → Pubkey → ℕ → ReserveCollateral
new_collateral mint_pubkey supply_vault initial_collateral_supply = record {
  mint_pubkey = mint_pubkey;
  mint_total_supply = initial_collateral_supply;
  supply_vault = supply_vault;
}

unfoldable pub mint : ReserveCollateral → ℕ → Result ReserveCollateral
mint t collateral_amount = do
  supply ←
      ok_or (checked_add_int u64_max t.mint_total_supply collateral_amount)
        LendingError.math_overflow
  ok (record t { mint_total_supply = supply })

unfoldable pub burn : ReserveCollateral → ℕ → Result ReserveCollateral
burn t collateral_amount = do
  supply ← ok_or (checked_sub_int t.mint_total_supply collateral_amount) LendingError.math_overflow
  ok (record t { mint_total_supply = supply })

unfoldable pub exchange_rate : ReserveCollateral → Fraction → CollateralExchangeRate
exchange_rate t total_liquidity =
    if t.mint_total_supply == 0 || total_liquidity == 0
    then initial_collateral_rate
    else (record { collateral_supply = t.mint_total_supply; liquidity = total_liquidity })

module _ ⦃c : Crates⦄ where
  open c use {sub, from_num, u256_sub, u256_checked_add, u256_checked_mul, u256_checked_div}

  unfoldable pub fraction_collateral_to_liquidity :
      CollateralExchangeRate → Fraction → Result Fraction
  unfolding big_mul big_div_int fraction_of_big
  fraction_collateral_to_liquidity rate collateral_amount = do
    product ← big_mul collateral_amount rate.liquidity
    quotient ← big_div_int product rate.collateral_supply
    unwrap_ok (fraction_of_big quotient)

  unfoldable pub collateral_to_liquidity : CollateralExchangeRate → ℕ → Result ℕ
  unfolding fraction_collateral_to_liquidity to_floor
  collateral_to_liquidity rate collateral_amount = do
    f ← from_num collateral_amount
    liquidity ← fraction_collateral_to_liquidity rate f
    to_floor u64_max liquidity

  unfoldable pub collateral_to_liquidity_ceil : CollateralExchangeRate → ℕ → Result ℕ
  unfolding fraction_of_big to_ceil
  collateral_to_liquidity_ceil rate collateral_amount = do
    product ← unwrap (u256_checked_mul collateral_amount rate.liquidity)
    less ← u256_sub rate.collateral_supply 1
    sum ← unwrap (u256_checked_add product less)
    liquidity_ceil_sbf ← unwrap (u256_checked_div sum rate.collateral_supply)
    liquidity_ceil_f ← unwrap_ok (fraction_of_big liquidity_ceil_sbf)
    to_ceil u64_max liquidity_ceil_f

  unfoldable pub fraction_liquidity_to_collateral :
      CollateralExchangeRate → Fraction → Result Fraction
  unfolding big_mul_int big_div fraction_of_big
  fraction_liquidity_to_collateral rate liquidity_amount = do
    product ← big_mul_int liquidity_amount rate.collateral_supply
    quotient ← big_div product rate.liquidity
    unwrap_ok (fraction_of_big quotient)

  -- Fraction::DELTA is one bit.
  unfoldable pub fraction_liquidity_to_collateral_ceil :
      CollateralExchangeRate → Fraction → Result Fraction
  unfolding big_mul_int big_add big_div fraction_of_big
  fraction_liquidity_to_collateral_ceil rate liquidity_amount = do
    product ← big_mul_int liquidity_amount rate.collateral_supply
    less ← sub rate.liquidity 1
    sum ← big_add product less
    quotient ← big_div sum rate.liquidity
    unwrap_ok (fraction_of_big quotient)

  unfoldable pub liquidity_to_collateral_fraction : CollateralExchangeRate → ℕ → Result Fraction
  unfolding big_from_num big_div fraction_of_big
  liquidity_to_collateral_fraction rate liquidity_amount = do
    product ← checked u128_max (rate.collateral_supply * liquidity_amount)
    quotient ← big_div (big_from_num product) rate.liquidity
    unwrap_ok (fraction_of_big quotient)

  unfoldable pub liquidity_to_collateral : CollateralExchangeRate → ℕ → Result ℕ
  unfolding liquidity_to_collateral_fraction try_to_floor
  liquidity_to_collateral rate liquidity_amount = do
    collateral_f ← liquidity_to_collateral_fraction rate liquidity_amount
    unwrap (try_to_floor u64_max collateral_f)

  unfoldable pub liquidity_to_collateral_ceil : CollateralExchangeRate → ℕ → Result ℕ
  unfolding liquidity_to_collateral_fraction to_ceil
  liquidity_to_collateral_ceil rate liquidity_amount = do
    collateral_f ← liquidity_to_collateral_fraction rate liquidity_amount
    to_ceil u64_max collateral_f
