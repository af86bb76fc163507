-- ===== src/Reserve/State.antt =====
-- `Reserve` (state/reserve.rs) and its methods. The padding is left out.
use kamino_lending.Base.{
  Bool, LendingError, List, Result, guard, if◌then◌else◌, leb, ltb, ok, replicate, ℕ, ◌==◌, ◌>>=◌,
  ◌>>◌,
}
use kamino_lending.Crates.{Crates}
use kamino_lending.Fraction.{Fraction, from_bps, from_percent}
use kamino_lending.LastUpdate.{LastUpdate, new_last_update, slots_elapsed}
use kamino_lending.BorrowRateCurve.{get_borrow_rate}
use kamino_lending.Reserve.Config.{ReserveConfig}
use kamino_lending.Reserve.Liquidity.{
  Pubkey, ReserveLiquidity, compound_interest, deposit, total_supply, utilization_rate, withdraw,
}
use kamino_lending.Reserve.Collateral.{
  CollateralExchangeRate, ReserveCollateral, burn, collateral_to_liquidity,
  collateral_to_liquidity_ceil, exchange_rate, liquidity_to_collateral, mint,
}

pub record Reserve : Type 0 where
  pub version : ℕ
  pub last_update : LastUpdate
  pub lending_market : Pubkey
  pub farm_collateral : Pubkey
  pub farm_debt : Pubkey
  pub liquidity : ReserveLiquidity
  pub collateral : ReserveCollateral
  pub config : ReserveConfig
  pub borrowed_amount_outside_elevation_group : ℕ
  pub borrowed_amounts_against_this_reserve_in_elevation_groups : List ℕ

pub data ReserveFarmKind : Type 0 where
  collateral debt : ReserveFarmKind

-- `DepositLiquidityResult` (state/types.rs)
pub record DepositLiquidityResult : Type 0 where
  pub liquidity_amount : ℕ
  pub collateral_amount : ℕ

-- `Reserve::init`: PROGRAM_VERSION is 1, and the rest is the default.
unfoldable pub init_reserve :
    ℕ → Pubkey → ReserveLiquidity → ReserveCollateral → ReserveConfig → Reserve
init_reserve current_slot lending_market liquidity coll config = record {
  version = 1;
  last_update = new_last_update current_slot;
  lending_market = lending_market;
  farm_collateral = 0;
  farm_debt = 0;
  liquidity = liquidity;
  collateral = coll;
  config = config;
  borrowed_amount_outside_elevation_group = 0;
  borrowed_amounts_against_this_reserve_in_elevation_groups = replicate 32 0;
}

unfoldable pub get_farm : Reserve → ReserveFarmKind → Pubkey
get_farm r ReserveFarmKind.collateral = r.farm_collateral
get_farm r ReserveFarmKind.debt = r.farm_debt

unfoldable pub add_farm : Reserve → Pubkey → ReserveFarmKind → Reserve
add_farm r farm_state ReserveFarmKind.collateral = record r { farm_collateral = farm_state }
add_farm r farm_state ReserveFarmKind.debt = record r { farm_debt = farm_state }

-- `Reserve::deposit_liquidity`
unfoldable pub deposit_liquidity : Reserve → ℕ → ℕ → Result Reserve
unfolding deposit mint
deposit_liquidity r liquidity_amount collateral_amount = do
  liquidity ← deposit r.liquidity liquidity_amount
  coll ← mint r.collateral collateral_amount
  ok (record r { liquidity = liquidity; collateral = coll })

-- The stamp that both limits keep: set once while the limit is crossed, cleared when it is not.
abbrev pub crossed_timestamp : Bool → ℕ → ℕ → ℕ
crossed_timestamp crossed old now = if crossed then (if old == 0 then now else old) else 0

module _ ⦃c : Crates⦄ where
  open c use {from_num}

  unfoldable pub current_borrow_rate : Reserve → Result Fraction
  current_borrow_rate r = do
    utilization ← utilization_rate r.liquidity
    get_borrow_rate r.config.borrow_rate_curve utilization

  unfoldable pub collateral_exchange_rate : Reserve → Result CollateralExchangeRate
  unfolding exchange_rate
  collateral_exchange_rate r = do
    total_liquidity ← total_supply r.liquidity
    ok (exchange_rate r.collateral total_liquidity)

  unfoldable pub compute_depositable_amount_and_minted_collateral :
      Reserve → ℕ → Result DepositLiquidityResult
  compute_depositable_amount_and_minted_collateral r liquidity_amount = do
    rate ← collateral_exchange_rate r
    collateral_amount ← liquidity_to_collateral rate liquidity_amount
    liquidity_amount_to_deposit ← collateral_to_liquidity_ceil rate collateral_amount
    guard (leb liquidity_amount_to_deposit liquidity_amount) LendingError.math_overflow
    ok (record {
      liquidity_amount = liquidity_amount_to_deposit;
      collateral_amount = collateral_amount;
    })

  -- The reserve after the redemption, and the liquidity that is paid out.
  unfoldable pub redeem_collateral : Reserve → ℕ → Result (Reserve × ℕ)
  unfolding burn withdraw
  redeem_collateral r collateral_amount = do
    rate ← collateral_exchange_rate r
    liquidity_amount ← collateral_to_liquidity rate collateral_amount
    coll ← burn r.collateral collateral_amount
    liquidity ← withdraw r.liquidity liquidity_amount
    ok (record r { liquidity = liquidity; collateral = coll }, liquidity_amount)

  unfoldable pub accrue_interest : Reserve → ℕ → ℕ → Result Reserve
  accrue_interest r current_slot referral_fee_bps = do
    elapsed ← slots_elapsed r.last_update current_slot
    (if ltb 0 elapsed
        then (do
          borrow_rate ← current_borrow_rate r
          protocol_take_rate ← from_percent r.config.protocol_take_rate_pct
          referral_rate ← from_bps referral_fee_bps
          host_fixed_interest_rate ← from_bps r.config.host_fixed_interest_rate_bps
          liquidity ←
              compound_interest r.liquidity borrow_rate host_fixed_interest_rate elapsed
                protocol_take_rate referral_rate
          ok (record r { liquidity = liquidity }))
        else ok r)

  unfoldable pub deposit_limit_crossed : Reserve → Result Bool
  deposit_limit_crossed r = do
    supply ← total_supply r.liquidity
    limit ← from_num r.config.deposit_limit
    ok (ltb limit supply)

  unfoldable pub borrow_limit_crossed : Reserve → Result Bool
  borrow_limit_crossed r = do
    limit ← from_num r.config.borrow_limit
    ok (ltb limit r.liquidity.borrowed_amount_sf)

  unfoldable pub update_deposit_limit_crossed_timestamp : Reserve → ℕ → Result Reserve
  update_deposit_limit_crossed_timestamp r timestamp = do
    crossed ← deposit_limit_crossed r
    let l = r.liquidity
    let stamp = crossed_timestamp crossed l.deposit_limit_crossed_timestamp timestamp
    ok (record r { liquidity = record l { deposit_limit_crossed_timestamp = stamp } })

  unfoldable pub update_borrow_limit_crossed_timestamp : Reserve → ℕ → Result Reserve
  update_borrow_limit_crossed_timestamp r timestamp = do
    crossed ← borrow_limit_crossed r
    let l = r.liquidity
    let stamp = crossed_timestamp crossed l.borrow_limit_crossed_timestamp timestamp
    ok (record r { liquidity = record l { borrow_limit_crossed_timestamp = stamp } })
