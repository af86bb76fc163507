-- ===== src/Obligation/State.antt =====
-- `Obligation` (state/obligation.rs) and its methods. The arrays of 8 deposits, 5 borrows and 2
-- orders are lists; the reserved bytes and the padding are left out.
use kamino_lending.Base.{
  Bool, LendingError, List, Result, all, count, err, if◌then◌else◌, ltb, not, ok, panic, replicate,
  u8_max, ℕ, ◌&&◌, ◌-◌, ◌==◌, ◌||◌,
}
use kamino_lending.Fraction.{Fraction}
use kamino_lending.LastUpdate.{LastUpdate, new_last_update}
use kamino_lending.Obligation.Positions.{
  ObligationCollateral, ObligationLiquidity, is_collateral_active, is_liquidity_active,
}
use kamino_lending.Obligation.Orders.{ObligationOrder, default_order}
use kamino_lending.Reserve.{AssetTier, Pubkey}

pub record Obligation : Type 0 where
  pub tag : ℕ
  pub last_update : LastUpdate
  pub lending_market : Pubkey
  pub owner : Pubkey
  pub deposits : List ObligationCollateral
  pub lowest_reserve_deposit_liquidation_ltv : ℕ
  pub deposited_value_sf : ℕ
  pub borrows : List ObligationLiquidity
  pub borrow_factor_adjusted_debt_value_sf : ℕ
  pub borrowed_assets_market_value_sf : ℕ
  pub allowed_borrow_value_sf : ℕ
  pub unhealthy_borrow_value_sf : ℕ
  pub deposits_asset_tiers : List ℕ
  pub borrows_asset_tiers : List ℕ
  pub elevation_group : ℕ
  pub num_of_obsolete_deposit_reserves : ℕ
  pub has_debt : ℕ
  pub referrer : Pubkey
  pub borrowing_disabled : ℕ
  pub autodeleverage_target_ltv_pct : ℕ
  pub lowest_reserve_deposit_max_ltv_pct : ℕ
  pub num_of_obsolete_borrow_reserves : ℕ
  pub highest_borrow_factor_pct : ℕ
  pub autodeleverage_margin_call_started_timestamp : ℕ
  pub orders : List ObligationOrder

pub record InitObligationParams : Type 0 where
  pub current_slot : ℕ
  pub lending_market : Pubkey
  pub owner : Pubkey
  pub deposits : List ObligationCollateral
  pub borrows : List ObligationLiquidity
  pub tag : ℕ
  pub referrer : Pubkey

pub data WithdrawResult : Type 0 where
  full partial : WithdrawResult

-- `LtvMaxWithdrawalCheck` (state/types.rs)
pub data LtvMaxWithdrawalCheck : Type 0 where
  max_ltv liquidation_threshold : LtvMaxWithdrawalCheck

-- `u8::from` on an `AssetTier`
unfoldable pub tier_byte : AssetTier → ℕ
tier_byte AssetTier.regular = 0
tier_byte AssetTier.isolated_collateral = 1
tier_byte AssetTier.isolated_debt = 2

-- `Obligation::init`: the parameters, and the default for the rest.
unfoldable pub init_obligation : InitObligationParams → Obligation
unfolding new_last_update default_order
init_obligation params = record {
  tag = params.tag;
  last_update = new_last_update params.current_slot;
  lending_market = params.lending_market;
  owner = params.owner;
  deposits = params.deposits;
  lowest_reserve_deposit_liquidation_ltv = 0;
  deposited_value_sf = 0;
  borrows = params.borrows;
  borrow_factor_adjusted_debt_value_sf = 0;
  borrowed_assets_market_value_sf = 0;
  allowed_borrow_value_sf = 0;
  unhealthy_borrow_value_sf = 0;
  deposits_asset_tiers = replicate 8 u8_max;
  borrows_asset_tiers = replicate 5 u8_max;
  elevation_group = 0;
  num_of_obsolete_deposit_reserves = 0;
  has_debt = 0;
  referrer = params.referrer;
  borrowing_disabled = 0;
  autodeleverage_target_ltv_pct = 0;
  lowest_reserve_deposit_max_ltv_pct = 0;
  num_of_obsolete_borrow_reserves = 0;
  highest_borrow_factor_pct = 0;
  autodeleverage_margin_call_started_timestamp = 0;
  orders = replicate 2 default_order;
}

unfoldable pub active_deposits_count : Obligation → ℕ
unfolding is_collateral_active
active_deposits_count o = count is_collateral_active o.deposits

unfoldable pub active_borrows_count : Obligation → ℕ
unfolding is_liquidity_active
active_borrows_count o = count is_liquidity_active o.borrows

unfoldable pub active_deposits_empty : Obligation → Bool
unfolding is_collateral_active
active_deposits_empty o = all (λ t. not (is_collateral_active t)) o.deposits

unfoldable pub active_borrows_empty : Obligation → Bool
unfolding is_liquidity_active
active_borrows_empty o = all (λ t. not (is_liquidity_active t)) o.borrows

unfoldable pub remaining_borrow_value : Obligation → Fraction
remaining_borrow_value o = o.allowed_borrow_value_sf - o.borrow_factor_adjusted_debt_value_sf

unfoldable pub has_referrer : Obligation → Bool
has_referrer o = not (o.referrer == 0)

unfoldable pub update_has_debt : Obligation → Obligation
unfolding active_borrows_empty
update_has_debt o = record o { has_debt = if active_borrows_empty o then 0 else 1 }

unfoldable pub is_marked_for_deleveraging : Obligation → Bool
is_marked_for_deleveraging o = not (o.autodeleverage_margin_call_started_timestamp == 0)

-- The time 0 stands for an obligation that is not marked.
unfoldable pub mark_for_deleveraging : Obligation → ℕ → ℕ → Result Obligation
mark_for_deleveraging o current_timestamp target_ltv_pct =
    if current_timestamp == 0
    then panic
    else ok (record o {
      autodeleverage_margin_call_started_timestamp = current_timestamp;
      autodeleverage_target_ltv_pct = target_ltv_pct;
    })

unfoldable pub unmark_for_deleveraging : Obligation → Obligation
unmark_for_deleveraging o = record o {
  autodeleverage_margin_call_started_timestamp = 0;
  autodeleverage_target_ltv_pct = 0;
}

unfoldable pub check_not_marked_for_deleveraging : Obligation → Result (Unit {0})
unfolding is_marked_for_deleveraging
check_not_marked_for_deleveraging o =
    if is_marked_for_deleveraging o
    then err LendingError.obligation_currently_marked_for_deleveraging
    else ok tt

unfoldable pub has_obsolete_reserves : Obligation → Bool
has_obsolete_reserves o =
    ltb 0 o.num_of_obsolete_borrow_reserves || ltb 0 o.num_of_obsolete_deposit_reserves

unfoldable pub is_single_debt_single_coll : Obligation → Bool
unfolding active_deposits_count active_borrows_count
is_single_debt_single_coll o = active_deposits_count o == 1 && active_borrows_count o == 1
