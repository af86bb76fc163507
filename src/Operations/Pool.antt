-- ===== src/Operations/Pool.antt =====
-- The operations on a reserve alone (lending_operations.rs).
use kamino_lending.Operations.Accounts.{Clock, timestamp_of, wrapped_timestamp}
use kamino_lending.Operations.Checks.{require_fresh}
use kamino_lending.Base.{
  Bool, LendingError, Option, Result, false, guard, if◌then◌else◌, leb, ltb, none, not, ok, some,
  true, u128_max, u64_max, ℕ, ◌*◌, ◌+◌, ◌-◌, ◌/◌, ◌==◌, ◌>>=◌, ◌>>◌,
}
use kamino_lending.Base.Int.{ℤ}
use kamino_lending.Crates.{Crates, checked}
use kamino_lending.Fraction.{Fraction}
use kamino_lending.LastUpdate.{all_checks, mark_stale, no_checks, update_slot}
use kamino_lending.WithdrawalCap.{
  WithdrawalCaps, add_to_withdrawal_accum, sub_from_withdrawal_accum,
}
use kamino_lending.Reserve.{
  DepositLiquidityResult, ReferrerTokenState, Reserve, accrue_interest, borrow,
  calculate_flash_loan_fees, calculate_redeem_fees,
  compute_depositable_amount_and_minted_collateral, deposit_liquidity, get_withdraw_referrer_fees,
  redeem_collateral, redeem_fees, repay, total_supply, update_borrow_limit_crossed_timestamp,
  update_deposit_limit_crossed_timestamp, withdraw_referrer_fees,
}
use kamino_lending.LendingMarket.{LendingMarket}

-- `GetPriceResult` (utils/prices/types.rs)
pub record GetPriceResult : Type 0 where
  pub price : Fraction
  pub status : ℕ
  pub timestamp : ℕ

abbrev pub marked_stale : Reserve → Reserve
marked_stale r = record r { last_update = mark_stale r.last_update }

abbrev pub with_deposit_cap : Reserve → WithdrawalCaps → Reserve
with_deposit_cap r caps = record r { config = record r.config { deposit_withdrawal_cap = caps } }

abbrev pub with_debt_cap : Reserve → WithdrawalCaps → Reserve
with_debt_cap r caps = record r { config = record r.config { debt_withdrawal_cap = caps } }

-- A negative time panics.
unfoldable pub is_saved_price_age_valid : Reserve → ℤ → Result Bool
is_saved_price_age_valid r current_ts = do
  ts ← timestamp_of current_ts
  ok (ltb (ts - r.liquidity.market_price_last_updated_ts) r.config.token_info.max_age_price_seconds)

unfoldable pub is_price_refresh_needed : Reserve → LendingMarket → ℤ → Result Bool
is_price_refresh_needed r market current_ts = do
  product ←
      checked u64_max
        (r.config.token_info.max_age_price_seconds * market.price_refresh_trigger_to_max_age_pct)
  ok (leb (product / 100) (wrapped_timestamp current_ts - r.liquidity.market_price_last_updated_ts))

module _ ⦃c : Crates⦄ where
  open c use {add, from_num}

  -- The price that is saved, and the flags of the refresh: those of a new price, none where the
  -- saved price is too old, and otherwise those that the reserve has.
  unfoldable pub refresh_price :
      Reserve → Clock → Option GetPriceResult → Result (Reserve × Option ℕ)
  unfolding is_saved_price_age_valid
  refresh_price r clock (some result) = ok (
    record r {
      liquidity = record r.liquidity {
        market_price_sf = result.price;
        market_price_last_updated_ts = result.timestamp;
      };
    },
    some result.status,
  )
  refresh_price r clock none = do
    valid ← is_saved_price_age_valid r clock.unix_timestamp
    ok (r, if valid then none else some no_checks)

  unfoldable pub refresh_reserve : Reserve → Clock → Option GetPriceResult → ℕ → Result Reserve
  unfolding refresh_price
  refresh_reserve r clock price referral_fee_bps = do
    accrued ← accrue_interest r clock.slot referral_fee_bps
    priced ← refresh_price accrued clock price
    ok (record priced.0 { last_update = update_slot priced.0.last_update clock.slot priced.1 })

  unfoldable pub refresh_reserve_limit_timestamps : Reserve → ℕ → Result Reserve
  refresh_reserve_limit_timestamps r timestamp = do
    r₁ ← update_deposit_limit_crossed_timestamp r timestamp
    update_borrow_limit_crossed_timestamp r₁ timestamp

  unfoldable pub deposit_reserve_liquidity :
      Reserve → Clock → ℕ → Result (Reserve × DepositLiquidityResult)
  unfolding require_fresh
  deposit_reserve_liquidity r clock liquidity_amount = do
    guard (not (liquidity_amount == 0)) LendingError.invalid_amount
    require_fresh r.last_update clock.slot no_checks LendingError.reserve_stale
    result ← compute_depositable_amount_and_minted_collateral r liquidity_amount
    liquidity_amount_f ← from_num result.liquidity_amount
    deposit_limit_f ← from_num r.config.deposit_limit
    supply_f ← total_supply r.liquidity
    new_supply_f ← add liquidity_amount_f supply_f
    guard (not (ltb deposit_limit_f new_supply_f)) LendingError.deposit_limit_exceeded
    ts ← timestamp_of clock.unix_timestamp
    caps ← sub_from_withdrawal_accum r.config.deposit_withdrawal_cap result.liquidity_amount ts
    deposited ←
        deposit_liquidity (with_deposit_cap r caps) result.liquidity_amount result.collateral_amount
    ok (marked_stale deposited, result)

  -- The caps are only asked where the caller says so.
  unfoldable pub add_to_caps : Bool → Reserve → ℕ → ℤ → Result Reserve
  add_to_caps false r amount unix_timestamp = ok r
  add_to_caps true r amount unix_timestamp = do
    ts ← timestamp_of unix_timestamp
    caps ← add_to_withdrawal_accum r.config.deposit_withdrawal_cap amount ts
    ok (with_deposit_cap r caps)

  unfoldable pub redeem_reserve_collateral : Reserve → ℕ → Clock → Bool → Result (Reserve × ℕ)
  unfolding require_fresh refresh_reserve_limit_timestamps add_to_caps
  redeem_reserve_collateral r collateral_amount clock add_amount_to_withdrawal_caps = do
    guard (not (collateral_amount == 0)) LendingError.invalid_amount
    require_fresh r.last_update clock.slot no_checks LendingError.reserve_stale
    redeemed ← redeem_collateral r collateral_amount
    ts ← timestamp_of clock.unix_timestamp
    stamped ← refresh_reserve_limit_timestamps redeemed.0 ts
    capped ←
        add_to_caps add_amount_to_withdrawal_caps (marked_stale stamped) redeemed.1
          clock.unix_timestamp
    ok (capped, redeemed.1)

  -- The operations `redeem_fees` and `withdraw_referrer_fees`.
  unfoldable pub redeem_reserve_fees : Reserve → ℕ → Result (Reserve × ℕ)
  unfolding require_fresh
  redeem_reserve_fees r slot = do
    require_fresh r.last_update slot no_checks LendingError.reserve_stale
    withdraw_amount ← calculate_redeem_fees r
    guard (not (withdraw_amount == 0)) LendingError.insufficient_protocol_fees_to_redeem
    liquidity ← redeem_fees r.liquidity withdraw_amount
    ok (marked_stale (record r { liquidity = liquidity }), withdraw_amount)

  unfoldable pub withdraw_reserve_referrer_fees :
      Reserve → ℕ → ReferrerTokenState → Result (Reserve × ReferrerTokenState × ℕ)
  unfolding require_fresh
  withdraw_reserve_referrer_fees r slot state = do
    require_fresh r.last_update slot all_checks LendingError.reserve_stale
    withdraw_amount ← get_withdraw_referrer_fees r state
    guard (not (withdraw_amount == 0)) LendingError.insufficient_referral_fees_to_redeem
    paid ← withdraw_referrer_fees r.liquidity withdraw_amount state
    ok (marked_stale (record r { liquidity = paid.0 }), paid.1, withdraw_amount)

  unfoldable pub add_referrer_fee :
      Reserve → ReferrerTokenState → Fraction → Result (Reserve × ReferrerTokenState)
  add_referrer_fee r state referrer_fee = do
    cumulative ← checked u128_max (state.amount_cumulative_sf + referrer_fee)
    unclaimed ← checked u128_max (state.amount_unclaimed_sf + referrer_fee)
    fees ← checked u128_max (r.liquidity.accumulated_referrer_fees_sf + referrer_fee)
    ok (
      record r { liquidity = record r.liquidity { accumulated_referrer_fees_sf = fees } },
      record state { amount_cumulative_sf = cumulative; amount_unclaimed_sf = unclaimed },
    )

  -- The referrer's part of a fee stays in the pool, and is counted as the referrer's.
  unfoldable pub keep_referrer_fee :
      LendingMarket
      → Reserve
      → Option ReferrerTokenState
      → ℕ
      → Result (Reserve × Option ReferrerTokenState)
  unfolding add_referrer_fee
  keep_referrer_fee market r none referrer_fee = ok (r, none)
  keep_referrer_fee market r (some state) referrer_fee =
      if ltb 0 market.referral_fee_bps
      then (do
        fee_f ← from_num referrer_fee
        credited ← add_referrer_fee r state fee_f
        amount ← checked u64_max (credited.0.liquidity.available_amount + referrer_fee)
        ok (
          record credited.0 {
            liquidity = record credited.0.liquidity { available_amount = amount };
          },
          some credited.1,
        ))
      else ok (r, some state)

  unfoldable pub flash_borrow_reserve_liquidity : Reserve → ℕ → Result Reserve
  flash_borrow_reserve_liquidity r liquidity_amount = do
    guard (not (r.config.fees.flash_loan_fee_sf == u64_max)) LendingError.flash_loans_disabled
    liquidity_amount_f ← from_num liquidity_amount
    liquidity ← borrow r.liquidity liquidity_amount_f
    ok (marked_stale (record r { liquidity = liquidity }))

  abbrev pub is_given : Option ReferrerTokenState → Bool
  is_given none = false
  is_given (some state) = true

  -- The reserve, the referrer's state, what is to be repaid with the referrer's fee, and the fee of
  -- the protocol.
  unfoldable pub flash_repay_reserve_liquidity :
      LendingMarket
      → Reserve
      → ℕ
      → ℕ
      → Option ReferrerTokenState
      → Result (Reserve × Option ReferrerTokenState × ℕ × ℕ)
  unfolding refresh_reserve_limit_timestamps keep_referrer_fee
  flash_repay_reserve_liquidity market r liquidity_amount timestamp state = do
    amount_f ← from_num liquidity_amount
    fees ← calculate_flash_loan_fees r.config.fees amount_f market.referral_fee_bps (is_given state)
    liquidity ← repay r.liquidity liquidity_amount amount_f
    stamped ← refresh_reserve_limit_timestamps (record r { liquidity = liquidity }) timestamp
    kept ← keep_referrer_fee market (marked_stale stamped) state fees.1
    total ← checked u64_max (liquidity_amount + fees.1)
    ok (kept.0, kept.1, total, fees.0)
