-- ===== src/Liquidation/Settled.antt =====
-- What a whole liquidation, as `calculate_liquidation` decides it, settles, costs and takes
-- (state/liquidation_operations.rs).
use kamino_lending.Base.{false, ℕ, ◌*◌, ◌+◌, ◌/◌, ◌<◌, ◌≡◌, ◌≤◌, ◌⊎◌}
use kamino_lending.Crates.{Crates, one}
use kamino_lending.Obligation.{ObligationCollateral, ObligationLiquidity}
use kamino_lending.Liquidation.Defs.{dust_lamport_threshold}
use kamino_lending.Liquidation.Reasons.{CalculateLiquidationResult, LiquidationCheckInputs}
use kamino_lending.Liquidation.Calculate.{is_order}

pub record IsSettled (inputs : LiquidationCheckInputs) (n : ℕ) (liquidity : ObligationLiquidity)
    (coll : ObligationCollateral) (res : CalculateLiquidationResult) : Type 0 where
  pub settled_owed : res.settle_amount ≤ liquidity.borrowed_amount_sf
  pub settled_asked : res.settle_amount ≤ n * one
  pub cost : res.settle_amount ≤ res.repay_amount * one
  pub cost_lt : res.repay_amount * one < res.settle_amount + one
  pub cost_asked : res.repay_amount ≤ n
  pub withdrawn :
      (res.withdraw_amount ≤ coll.deposited_amount)
        × (res.withdraw_amount * coll.market_value_sf
            ≤ coll.deposited_amount
              * (liquidity.market_value_sf * (res.liquidation_bonus_rate + one) / one))
      ⊎ (res.withdraw_amount ≡ dust_lamport_threshold)
        × (is_order res.liquidation_reason ≡ false)
        × (liquidity.market_value_sf
            < inputs.lending_market.min_full_liquidation_value_threshold * one)
