-- ===== src/Operations/Liquidate.antt =====
-- Liquidations (lending_operations.rs). The reserve of the debt and that of the collateral may be one
-- account, and the latter is also among the deposits' reserves: all are reached through the accounts.
use kamino_lending.Operations.Accounts.{Accounts, Clock, at, put, timestamp_of}
use kamino_lending.Operations.Checks.{
  assert_obligation_liquidatable, get_max_ltv_and_liquidation_threshold,
}
use kamino_lending.Operations.Trackers.{
  update_elevation_group_debt_trackers_on_full_withdraw,
  update_elevation_group_debt_trackers_on_repay,
}
use kamino_lending.Operations.Pool.{marked_stale, redeem_reserve_collateral, refresh_reserve}
use kamino_lending.Operations.Loans.{stale_obligation}
use kamino_lending.Base.{
  LendingError, List, Option, Result, false, guard, if◌then◌else◌, leb, ltb, min, none, not, ok,
  set, some, ℕ, ◌==◌, ◌>>=◌, ◌>>◌,
}
use kamino_lending.Crates.{Crates, difference}
use kamino_lending.Fraction.{Fraction}
use kamino_lending.Reserve.{
  Pubkey, Reserve, ReserveConfig, collateral_exchange_rate, collateral_to_liquidity,
  liquidity_to_collateral, repay,
}
use kamino_lending.LendingMarket.{LendingMarket, get_elevation_group}
use kamino_lending.Obligation.{
  Obligation, consume, find_liquidity_in_borrows, position_of_collateral_in_deposits, repay_borrow,
  update_has_debt, withdraw_collateral,
}
use kamino_lending.Orders.{remove_all_orders}
use kamino_lending.Liquidation.{
  CalculateLiquidationResult, LiquidationReason, calculate_liquidation,
  calculate_protocol_liquidation_fee,
}

-- `LiquidateObligationResult` (state/types.rs)
pub record LiquidateObligationResult : Type 0 where
  pub settle_amount : Fraction
  pub repay_amount : ℕ
  pub withdraw_amount : ℕ
  pub withdraw_collateral_amount : ℕ
  pub liquidation_bonus_rate : Fraction
  pub liquidation_reason : LiquidationReason

-- `LiquidateAndRedeemResult` (state/types.rs)
pub record LiquidateAndRedeemResult : Type 0 where
  pub repay_amount : ℕ
  pub withdraw_amount : ℕ
  pub withdraw_collateral_amount : ℕ
  pub total_withdraw_liquidity_amount : Option (ℕ × ℕ)

pub record LiquidateOutcome : Type 0 where
  pub accounts : Accounts
  pub obligation : Obligation
  pub result : LiquidateObligationResult

-- The order that a liquidation executes is consumed; without debt, all orders go.
unfoldable pub settle_orders : ⦃c : Crates⦄ → Obligation → LiquidationReason → ℕ → Result Obligation
settle_orders o (LiquidationReason.obligation_order i) repay_amount =
    if o.has_debt == 1
    then (do
      order ← at o.orders i
      consumed ← consume order repay_amount
      ok (record o { orders = set o.orders i consumed }))
    else ok (remove_all_orders o).0
settle_orders o LiquidationReason.ltv_exceeded repay_amount =
    ok (if o.has_debt == 1 then o else (remove_all_orders o).0)
settle_orders o LiquidationReason.individual_deleveraging repay_amount =
    ok (if o.has_debt == 1 then o else (remove_all_orders o).0)
settle_orders o LiquidationReason.market_wide_deleveraging repay_amount =
    ok (if o.has_debt == 1 then o else (remove_all_orders o).0)

-- The fee percentage that the reason of the liquidation selects.
unfoldable pub protocol_fee_pct : ReserveConfig → LiquidationReason → ℕ
protocol_fee_pct config LiquidationReason.ltv_exceeded = config.protocol_liquidation_fee_pct
protocol_fee_pct config LiquidationReason.individual_deleveraging =
    config.protocol_liquidation_fee_pct
protocol_fee_pct config LiquidationReason.market_wide_deleveraging =
    config.protocol_liquidation_fee_pct
protocol_fee_pct config (LiquidationReason.obligation_order i) =
    config.protocol_order_execution_fee_pct

module _ ⦃c : Crates⦄ where
  -- The reserve of the debt and the obligation after the settlement.
  unfoldable pub repay_and_withdraw_from_obligation_post_liquidation :
      Obligation → Reserve → Fraction → ℕ → ℕ → ℕ → ℕ → Result (Obligation × Reserve)
  repay_and_withdraw_from_obligation_post_liquidation o r settle_amount withdraw_amount repay_amount
        liquidity_index collateral_index =
      do
        guard (not (repay_amount == 0)) LendingError.liquidation_too_small
        guard (not (withdraw_amount == 0)) LendingError.liquidation_too_small
        liquidity ← repay r.liquidity repay_amount settle_amount
        repaid ← repay_borrow o settle_amount liquidity_index
        withdrawn ← withdraw_collateral repaid withdraw_amount collateral_index
        ok (
          stale_obligation (update_has_debt withdrawn.0),
          marked_stale (record r { liquidity = liquidity }),
        )

  -- The guards of `liquidate_obligation`, and the indexes of the debt and of the collateral.
  unfoldable pub check_liquidation :
      LendingMarket → Accounts → Obligation → ℕ → ℕ → Pubkey → Pubkey → Result (ℕ × ℕ × ℕ)
  unfolding get_max_ltv_and_liquidation_threshold assert_obligation_liquidatable
  check_liquidation market accounts o liquidity_amount slot repay_key withdraw_key = do
    group ← get_elevation_group o.elevation_group market
    let threshold = (get_max_ltv_and_liquidation_threshold (accounts withdraw_key) group).1
    guard (not (threshold == 0)) LendingError.collateral_non_liquidatable
    assert_obligation_liquidatable (accounts repay_key) (accounts withdraw_key) o liquidity_amount
        slot
    liquidity_index ← find_liquidity_in_borrows o repay_key
    liquidity ← at o.borrows liquidity_index
    guard (not (liquidity.borrow_factor_adjusted_market_value_sf == 0))
        LendingError.obligation_liquidity_empty
    collateral_index ← position_of_collateral_in_deposits o withdraw_key
    coll ← at o.deposits collateral_index
    guard (not (coll.market_value_sf == 0)) LendingError.obligation_collateral_empty
    ok (liquidity_index, collateral_index, threshold)

  -- The terms of the liquidation of a debt against a deposit.
  unfoldable pub liquidation_terms :
      LendingMarket
      → Accounts
      → Obligation
      → ℕ
      → ℕ
      → Pubkey
      → Pubkey
      → ℕ × ℕ × ℕ
      → Option ℕ
      → Result CalculateLiquidationResult
  liquidation_terms market accounts o liquidity_amount timestamp repay_key withdraw_key found
        override =
      do
        liquidity ← at o.borrows found.0
        coll ← at o.deposits found.1
        calculate_liquidation
            (record {
              lending_market = market;
              collateral_reserve = accounts withdraw_key;
              debt_reserve = accounts repay_key;
              obligation = o;
              timestamp = timestamp;
              max_allowed_ltv_override_pct_opt = override;
            })
            liquidity_amount liquidity coll
            (leb o.highest_borrow_factor_pct (accounts repay_key).config.borrow_factor_pct)
            (leb found.2 o.lowest_reserve_deposit_liquidation_ltv)

  -- The reserve of the collateral is refreshed, and gives out what it has.
  unfoldable pub release_collateral : LendingMarket → Reserve → Clock → ℕ → Result (Reserve × ℕ)
  release_collateral market r clock withdraw_amount = do
    refreshed ← refresh_reserve r clock none market.referral_fee_bps
    rate ← collateral_exchange_rate refreshed
    max_redeemable ← liquidity_to_collateral rate refreshed.liquidity.available_amount
    ok (refreshed, min withdraw_amount max_redeemable)

  unfoldable pub liquidate_obligation :
      LendingMarket
      → Accounts
      → Pubkey
      → Pubkey
      → Obligation
      → Clock
      → ℕ
      → Option ℕ
      → List Pubkey
      → Result LiquidateOutcome
  unfolding check_liquidation liquidation_terms update_elevation_group_debt_trackers_on_repay
      repay_and_withdraw_from_obligation_post_liquidation settle_orders release_collateral
      update_elevation_group_debt_trackers_on_full_withdraw
  liquidate_obligation market accounts repay_key withdraw_key o clock liquidity_amount override
        deposit_keys =
      do
        found ←
            check_liquidation market accounts o liquidity_amount clock.slot repay_key withdraw_key
        ts ← timestamp_of clock.unix_timestamp
        terms ←
            liquidation_terms market accounts o liquidity_amount ts repay_key withdraw_key found
              override
        coll ← at o.deposits found.1
        tracked ←
            update_elevation_group_debt_trackers_on_repay terms.repay_amount o found.0 repay_key
              (accounts repay_key) deposit_keys accounts
        tracked_coll ← at tracked.0.deposits found.1
        settled ←
            repay_and_withdraw_from_obligation_post_liquidation tracked.0 tracked.1
              terms.settle_amount terms.withdraw_amount terms.repay_amount found.0 found.1
        let accounts₁ = put tracked.2 repay_key settled.1
        o' ← settle_orders settled.0 terms.liquidation_reason terms.repay_amount
        released ← release_collateral market (accounts₁ withdraw_key) clock terms.withdraw_amount
        withdraw_reserve ←
            (if coll.deposited_amount == terms.withdraw_amount
              then update_elevation_group_debt_trackers_on_full_withdraw
                  tracked_coll.borrowed_amount_against_this_collateral_in_elevation_group
                  o'.elevation_group released.0
              else ok released.0)
        ok (record {
          accounts = put accounts₁ withdraw_key withdraw_reserve;
          obligation = o';
          result = record {
            settle_amount = terms.settle_amount;
            repay_amount = terms.repay_amount;
            withdraw_amount = terms.withdraw_amount;
            withdraw_collateral_amount = released.1;
            liquidation_bonus_rate = terms.liquidation_bonus_rate;
            liquidation_reason = terms.liquidation_reason;
          };
        })

  -- The collateral is redeemed where the reserve can pay for it: the liquidity and the protocol's fee.
  unfoldable pub post_liquidate_redeem :
      Reserve → LiquidateObligationResult → ℕ → Clock → Result (Reserve × Option (ℕ × ℕ))
  unfolding protocol_fee_pct
  post_liquidate_redeem r result min_acceptable_received_liquidity_amount clock =
      if not (result.withdraw_collateral_amount == 0)
      then (do
        redeemed ← redeem_reserve_collateral r result.withdraw_collateral_amount clock false
        fee ←
            calculate_protocol_liquidation_fee redeemed.1 result.liquidation_bonus_rate
              (protocol_fee_pct redeemed.0.config result.liquidation_reason)
        net ← difference redeemed.1 fee
        guard (not (ltb net min_acceptable_received_liquidity_amount))
            LendingError.liquidation_reward_too_small
        ok (redeemed.0, some (redeemed.1, fee)))
      else (do
        rate ← collateral_exchange_rate r
        theoretical ← collateral_to_liquidity rate result.withdraw_amount
        guard (not (ltb theoretical min_acceptable_received_liquidity_amount))
            LendingError.liquidation_reward_too_small
        ok (r, none))

  unfoldable pub liquidate_and_redeem :
      LendingMarket
      → Accounts
      → Pubkey
      → Pubkey
      → Obligation
      → Clock
      → ℕ
      → ℕ
      → Option ℕ
      → List Pubkey
      → Result (Accounts × Obligation × LiquidateAndRedeemResult)
  unfolding liquidate_obligation post_liquidate_redeem
  liquidate_and_redeem market accounts repay_key withdraw_key o clock liquidity_amount
        min_acceptable_received_liquidity_amount override deposit_keys =
      do
        done ←
            liquidate_obligation market accounts repay_key withdraw_key o clock liquidity_amount
              override deposit_keys
        redeemed ←
            post_liquidate_redeem (done.accounts withdraw_key) done.result
              min_acceptable_received_liquidity_amount clock
        ok (
          put done.accounts withdraw_key redeemed.0,
          done.obligation,
          record {
            repay_amount = done.result.repay_amount;
            withdraw_amount = done.result.withdraw_amount;
            withdraw_collateral_amount = done.result.withdraw_collateral_amount;
            total_withdraw_liquidity_amount = redeemed.1;
          },
        )
