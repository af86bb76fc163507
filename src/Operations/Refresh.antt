-- ===== src/Operations/Refresh.antt =====
-- `refresh_obligation` and its two passes over the deposits and the borrows (lending_operations.rs).
use kamino_lending.Operations.Accounts.{Accounts, at, next_key, put}
use kamino_lending.Operations.Checks.{
  MaxReservesAsCollateralCheck, check_obligation_collateral_deposit_reserve,
  get_max_ltv_and_liquidation_threshold,
}
use kamino_lending.Operations.Values.{calculate_obligation_collateral_market_value}
use kamino_lending.Operations.Trackers.{with_group_debt, with_tracked_debt}
use kamino_lending.Base.{
  Bool, LendingError, List, Option, Result, [], contains, false, guard, if◌then◌else◌, leb, ltb,
  min, none, not, ok, panic, set, some, suc, true, u64_max, u8_max, ℕ, ◌&&◌, ◌+◌, ◌-◌, ◌==◌, ◌>>=◌,
  ◌>>◌, ◌||◌, ◌∷◌,
}
use kamino_lending.Crates.{Crates, checked}
use kamino_lending.Fraction.{Fraction, from_percent}
use kamino_lending.LastUpdate.{all_checks, get_price_status}
use kamino_lending.Reserve.{Pubkey, ReferrerTokenState, Reserve, ReserveStatus, get_status}
use kamino_lending.LendingMarket.{ElevationGroup, LendingMarket, get_index}
use kamino_lending.Obligation.{Obligation, ObligationCollateral, is_collateral_active}
use Prim.Native.Nat.{bit_and}

-- `RefreshObligationDepositsResult` (state/types.rs), which the pass adds up.
pub record RefreshObligationDepositsResult : Type 0 where
  pub lowest_deposit_liquidation_ltv_threshold_pct : ℕ
  pub lowest_deposit_max_ltv_pct : ℕ
  pub num_of_obsolete_reserves : ℕ
  pub deposited_value_f : Fraction
  pub allowed_borrow_value_f : Fraction
  pub unhealthy_borrow_value_f : Fraction
  pub prices_state : ℕ
  pub borrowing_disabled : Bool

abbrev pub no_deposits : RefreshObligationDepositsResult
no_deposits = record {
  lowest_deposit_liquidation_ltv_threshold_pct = u8_max;
  lowest_deposit_max_ltv_pct = u8_max;
  num_of_obsolete_reserves = 0;
  deposited_value_f = 0;
  allowed_borrow_value_f = 0;
  unhealthy_borrow_value_f = 0;
  prices_state = all_checks;
  borrowing_disabled = false;
}

-- The pass over the deposits: its totals, how many deposits have an amount, the tiers, the keys that
-- are left and the accounts.
pub record DepositPass : Type 0 where
  pub totals : RefreshObligationDepositsResult
  pub collaterals_count : ℕ
  pub tiers : List ℕ
  pub keys : List Pubkey
  pub accounts : Accounts

abbrev pub is_obsolete : ReserveStatus → Bool
is_obsolete ReserveStatus.active = false
is_obsolete ReserveStatus.obsolete = true
is_obsolete ReserveStatus.hidden = false

-- `Some` of both, or none of both.
unfoldable pub zip_group : Option ElevationGroup → Option ℕ → Result (Option (ElevationGroup × ℕ))
zip_group none none = ok none
zip_group (some g) (some amount) = ok (some (g, amount))
zip_group none (some amount) = panic
zip_group (some g) none = panic

-- In a group, the whole debt counts against the deposit and against its reserve.
unfoldable pub track_deposit :
    Option (ElevationGroup × ℕ)
    → ObligationCollateral
    → Reserve
    → Pubkey
    → Result (ObligationCollateral × Reserve)
unfolding get_index
track_deposit none t r key = ok (t, r)
track_deposit (some debt_in_group) t r key = do
  let g = debt_in_group.0
  i ← get_index g
  guard (contains r.config.elevation_groups g.id) LendingError.inconsistent_elevation_group
  guard (not (key == g.debt_reserve)) LendingError.elevation_group_debt_reserve_as_collateral
  pre ← at r.borrowed_amounts_against_this_reserve_in_elevation_groups i
  new ←
      checked u64_max
        (pre - t.borrowed_amount_against_this_collateral_in_elevation_group + debt_in_group.1)
  ok (with_tracked_debt t debt_in_group.1, with_group_debt r i new)

-- `BorrowPass` below adds these up.
pub record RefreshObligationBorrowsResult : Type 0 where
  pub borrow_factor_adjusted_debt_value_f : Fraction
  pub borrowed_assets_market_value_f : Fraction
  pub prices_state : ℕ
  pub highest_borrow_factor_pct : ℕ
  pub borrowed_amount_in_elevation_group : Option ℕ
  pub num_of_obsolete_reserves : ℕ

-- The pass over the borrows. The referrers' states are reached by their keys, as the reserves are.
pub record BorrowPass : Type 0 where
  pub borrowed_assets_market_value : Fraction
  pub borrow_factor_adjusted_debt_value : Fraction
  pub prices_state : ℕ
  pub highest_borrow_factor_f : Fraction
  pub num_of_obsolete_reserves : ℕ
  pub borrowed_amounts_accumulator_for_elevation_group : ℕ
  pub num_borrow_reserves : ℕ
  pub tiers : List ℕ
  pub has_debt : ℕ
  pub keys : List Pubkey
  pub accounts : Accounts
  pub state_keys : List Pubkey
  pub states : Pubkey → ReferrerTokenState

module _ ⦃c : Crates⦄ where
  open c use {add, mul, from_num}

  -- The totals after one deposit of this value at a reserve.
  unfoldable pub add_deposit :
      LendingMarket
      → Option ElevationGroup
      → Reserve
      → Fraction
      → RefreshObligationDepositsResult
      → Result RefreshObligationDepositsResult
  unfolding get_max_ltv_and_liquidation_threshold
  add_deposit market group r market_value_f totals = do
    let ltvs = get_max_ltv_and_liquidation_threshold r group
    least_f ← from_num market.min_value_skip_liquidation_ltv_checks
    deposited_value ← add totals.deposited_value_f market_value_f
    ltv_f ← from_percent ltvs.0
    allowed ← mul market_value_f ltv_f
    allowed_borrow_value ← add totals.allowed_borrow_value_f allowed
    threshold_f ← from_percent ltvs.1
    unhealthy ← mul market_value_f threshold_f
    unhealthy_borrow_value ← add totals.unhealthy_borrow_value_f unhealthy
    ok (record totals {
      lowest_deposit_liquidation_ltv_threshold_pct =
          if leb least_f market_value_f && ltb 0 ltvs.1
          then min totals.lowest_deposit_liquidation_ltv_threshold_pct ltvs.1
          else totals.lowest_deposit_liquidation_ltv_threshold_pct;
      lowest_deposit_max_ltv_pct = min totals.lowest_deposit_max_ltv_pct ltvs.0;
      deposited_value_f = deposited_value;
      allowed_borrow_value_f = allowed_borrow_value;
      unhealthy_borrow_value_f = unhealthy_borrow_value;
      prices_state = bit_and totals.prices_state (get_price_status r.last_update);
    })

  abbrev is_none : Option ElevationGroup → Bool
  is_none none = true
  is_none (some g) = false

  -- One round of the pass: the deposit at the index, with the next reserve.
  unfoldable pub refresh_deposit :
      LendingMarket
      → ℕ
      → Option ElevationGroup
      → Option (ElevationGroup × ℕ)
      → ℕ
      → ObligationCollateral
      → DepositPass
      → Result (ObligationCollateral × DepositPass)
  unfolding check_obligation_collateral_deposit_reserve track_deposit add_deposit
      calculate_obligation_collateral_market_value
  refresh_deposit market slot group debt_in_group i t pass = do
    taken ← next_key pass.keys
    let key = taken.0
    let r = pass.accounts key
    let disabled = is_none group && ltb 0 r.config.disable_usage_as_coll_outside_emode
    status ← get_status r.config
    check_obligation_collateral_deposit_reserve t r key slot
    tracked ← track_deposit debt_in_group t r key
    market_value_f ← calculate_obligation_collateral_market_value tracked.1 tracked.0
    totals ← add_deposit market group tracked.1 market_value_f pass.totals
    ok (
      record tracked.0 { market_value_sf = market_value_f },
      record {
        totals = record totals {
          num_of_obsolete_reserves =
              totals.num_of_obsolete_reserves + (if is_obsolete status then 1 else 0);
          borrowing_disabled = disabled || totals.borrowing_disabled;
        };
        collaterals_count = pass.collaterals_count + (if ltb 0 t.deposited_amount then 1 else 0);
        tiers = set pass.tiers i r.config.asset_tier;
        keys = taken.1;
        accounts = put pass.accounts key tracked.1;
      },
    )

  -- The pass from the index on.
  unfoldable pub refresh_deposits_from :
      LendingMarket
      → ℕ
      → Option ElevationGroup
      → Option (ElevationGroup × ℕ)
      → ℕ
      → List ObligationCollateral
      → DepositPass
      → Result (List ObligationCollateral × DepositPass)
  unfolding refresh_deposit
  refresh_deposits_from market slot group debt_in_group i [] pass = ok ([], pass)
  refresh_deposits_from market slot group debt_in_group i (t ∷ ts) pass =
      elim (is_collateral_active t) [
        | false ↦ refresh_deposits_from market slot group debt_in_group (suc i) ts pass >>= λ rest.
            ok (t ∷ rest.0, rest.1)
        | true ↦ refresh_deposit market slot group debt_in_group i t pass >>= λ done.
            refresh_deposits_from market slot group debt_in_group (suc i) ts done.1 >>= λ rest.
            ok (done.0 ∷ rest.0, rest.1)
      ]

  -- A group has a maximal number of deposits, where that is checked.
  unfoldable pub check_deposit_count :
      MaxReservesAsCollateralCheck → Option ElevationGroup → ℕ → Result (Unit {0})
  check_deposit_count MaxReservesAsCollateralCheck.skip group n = ok tt
  check_deposit_count MaxReservesAsCollateralCheck.perform none n = ok tt
  check_deposit_count MaxReservesAsCollateralCheck.perform (some g) n =
      guard (leb n g.max_reserves_as_collateral)
        LendingError.obligation_collateral_exceeds_elevation_group_limit

  unfoldable pub refresh_obligation_deposits :
      Obligation
      → LendingMarket
      → ℕ
      → MaxReservesAsCollateralCheck
      → Option ElevationGroup
      → List Pubkey
      → Option ℕ
      → Accounts
      → Result (Obligation × RefreshObligationDepositsResult × Accounts)
  unfolding zip_group refresh_deposits_from check_deposit_count
  refresh_obligation_deposits o market slot check group deposit_keys debt_amount accounts = do
    debt_in_group ← zip_group group debt_amount
    done ← refresh_deposits_from market slot group debt_in_group 0 o.deposits (record {
      totals = no_deposits;
      collaterals_count = 0;
      tiers = o.deposits_asset_tiers;
      keys = deposit_keys;
      accounts = accounts;
    })
    check_deposit_count check group done.1.collaterals_count
    ok (
      record o { deposits = done.0; deposits_asset_tiers = done.1.tiers },
      done.1.totals,
      done.1.accounts,
    )
