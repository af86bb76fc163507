-- ===== src/Operations/RefreshBorrows.antt =====
-- The pass of `refresh_obligation` over the borrows, the referrer's fees on their interest, and
-- `refresh_obligation` itself (lending_operations.rs). The address of a referrer's account, which
-- the runtime derives from its seeds, is a parameter: of the referrer, the reserve and the bump.
use kamino_lending.Operations.Accounts.{Accounts, next_key, put}
use kamino_lending.Operations.Checks.{
  MaxReservesAsCollateralCheck, check_obligation_liquidity_borrow_reserve,
}
use kamino_lending.Operations.Values.{calculate_obligation_liquidity_market_value}
use kamino_lending.Operations.Pool.{add_referrer_fee}
use kamino_lending.Operations.Refresh.{
  BorrowPass, RefreshObligationBorrowsResult, is_obsolete, refresh_obligation_deposits,
}
use kamino_lending.Base.{
  Bool, LendingError, List, Option, Result, [], contains, false, guard, if◌then◌else◌, leb, ltb,
  max, min, none, not, ok, set, some, suc, true, u128_max, u64_max, u8_max, unwrap, ℕ, ◌&&◌, ◌+◌,
  ◌-◌, ◌==◌, ◌>>=◌, ◌>>◌, ◌||◌, ◌∷◌,
}
use kamino_lending.Crates.{Crates, checked, difference, one}
use kamino_lending.Fraction.{Fraction, from_bps, to_ceil, to_percent}
use kamino_lending.LastUpdate.{all_checks, get_price_status, slots_elapsed, update_slot}
use kamino_lending.Reserve.{
  Pubkey, ReferrerTokenState, Reserve, approximate_compounded_interest, borrow_factor_f, get_status,
  mint,
}
use kamino_lending.LendingMarket.{ElevationGroup, LendingMarket, get_elevation_group}
use kamino_lending.Obligation.{
  Obligation, ObligationLiquidity, accrue_loan_interest, has_referrer, is_liquidity_active,
}
use Prim.Native.Nat.{bit_and}

-- `Pubkey::create_program_address` on the seeds of a referrer's account.
abbrev pub DeriveAddress : Type 0
DeriveAddress = Pubkey → Pubkey → ℕ → Option Pubkey

-- `validate_referrer_token_state` (lending_checks.rs); the bump is a u8.
unfoldable pub validate_referrer_token_state :
    DeriveAddress → ReferrerTokenState → Pubkey → Pubkey → Pubkey → Pubkey → Result (Unit {0})
validate_referrer_token_state derive state state_key mint owner_referrer reserve_key = do
  guard (not (state.mint == 0 || state.referrer == 0)) LendingError.referrer_account_not_initialized
  guard (state.mint == mint) LendingError.referrer_account_mint_missmatch
  bump ← checked u8_max state.bump
  address ← unwrap (derive state.referrer reserve_key bump)
  guard (state_key == address) LendingError.referrer_account_wrong_address
  guard (state.referrer == owner_referrer) LendingError.referrer_account_referrer_missmatch

abbrev pub with_pending : Reserve → ℕ → Reserve
with_pending r n = record r { liquidity = record r.liquidity { pending_referrer_fees_sf = n } }

abbrev put_state :
    (Pubkey → ReferrerTokenState) → Pubkey → ReferrerTokenState → Pubkey → ReferrerTokenState
put_state states key s = λ k. if k == key then s else states k

module _ ⦃c : Crates⦄ where
  open c use {add, sub, mul, from_num}

  -- The referrer's fee on the interest of a borrow, capped by what is pending.
  unfoldable pub pending_fee : Reserve → ℕ → Fraction → Fraction → Result Fraction
  pending_fee r slots_elapsed borrowed_amount_f previous_borrowed_amount_f = do
    host_rate ← from_bps r.config.host_fixed_interest_rate_bps
    fixed_rate ← approximate_compounded_interest host_rate slots_elapsed
    net_new_debt ← sub borrowed_amount_f previous_borrowed_amount_f
    fixed ← mul previous_borrowed_amount_f fixed_rate
    net_new_fixed_debt ← sub fixed previous_borrowed_amount_f
    guard (not (ltb net_new_debt net_new_fixed_debt))
        LendingError.cannot_calculate_referral_amount_due_to_slots_mismatch
    net_new_variable_debt_f ← sub net_new_debt net_new_fixed_debt
    referrer_fee_f ← mul net_new_variable_debt_f r.liquidity.absolute_referral_rate_sf
    ok (min referrer_fee_f r.liquidity.pending_referrer_fees_sf)

  -- The fee goes to the referrer, whose account comes next.
  unfoldable pub pay_referrer :
      DeriveAddress
      → Pubkey
      → Reserve
      → Pubkey
      → Fraction
      → BorrowPass
      → Result (Reserve × BorrowPass)
  unfolding validate_referrer_token_state
  pay_referrer derive key r obligation_referrer fee pass = do
    taken ← next_key pass.state_keys
    let state = pass.states taken.0
    validate_referrer_token_state derive state taken.0 r.liquidity.mint_pubkey obligation_referrer
        key
    credited ← add_referrer_fee r state fee
    ok (
      credited.0,
      record pass { state_keys = taken.1; states = put_state pass.states taken.0 credited.1 },
    )

  unfoldable pub accumulate_referrer_fees :
      DeriveAddress
      → Pubkey
      → Reserve
      → Pubkey
      → ℕ
      → ℕ
      → Fraction
      → Fraction
      → Bool
      → BorrowPass
      → Result (Reserve × BorrowPass)
  unfolding pending_fee pay_referrer
  accumulate_referrer_fees derive key r obligation_referrer referral_fee_bps slots_elapsed
        borrowed_amount_f previous_borrowed_amount_f obligation_has_referrer pass =
      if r.liquidity.absolute_referral_rate_sf == 0 then ok (r, pass) else (do
        fee ← pending_fee r slots_elapsed borrowed_amount_f previous_borrowed_amount_f
        pending ← difference r.liquidity.pending_referrer_fees_sf fee
        let r' = with_pending r pending
        (if obligation_has_referrer && ltb 0 referral_fee_bps
            then pay_referrer derive key r' obligation_referrer fee pass
            else (do
              fees ← checked u128_max (r'.liquidity.accumulated_protocol_fees_sf + fee)
              ok (
                record r' {
                  liquidity = record r'.liquidity { accumulated_protocol_fees_sf = fees };
                },
                pass,
              ))))

  -- The debt is counted by its group, whose debt reserve this must be, or outside the groups.
  unfoldable pub track_refreshed :
      Option ElevationGroup
      → Reserve
      → Pubkey
      → ObligationLiquidity
      → ℕ
      → Result (Reserve × ObligationLiquidity)
  track_refreshed (some g) r key t borrowed_amount = do
    guard (contains r.config.elevation_groups g.id) LendingError.inconsistent_elevation_group
    guard (key == g.debt_reserve) LendingError.elevation_group_has_another_debt_reserve
    ok (r, t)
  track_refreshed none r key t borrowed_amount = do
    total ← checked u64_max (
        r.borrowed_amount_outside_elevation_group - t.borrowed_amount_outside_elevation_groups
        + borrowed_amount)
    ok (
      record r { borrowed_amount_outside_elevation_group = total },
      record t { borrowed_amount_outside_elevation_groups = borrowed_amount },
    )

  abbrev is_some : Option ElevationGroup → Bool
  is_some none = false
  is_some (some g) = true

  -- The values of a borrow, and the totals of the pass with them.
  unfoldable pub add_borrow :
      LendingMarket
      → Option ElevationGroup
      → Reserve
      → ObligationLiquidity
      → BorrowPass
      → Result (ObligationLiquidity × BorrowPass)
  unfolding calculate_obligation_liquidity_market_value
  add_borrow market group r t pass = do
    market_value_f ← calculate_obligation_liquidity_market_value r t
    market_value ← add pass.borrowed_assets_market_value market_value_f
    factor ← borrow_factor_f r (is_some group)
    least_f ← from_num market.min_value_skip_liquidation_bf_checks
    adjusted ← mul market_value_f factor
    debt_value ← add pass.borrow_factor_adjusted_debt_value adjusted
    ok (
      record t {
        market_value_sf = market_value_f;
        borrow_factor_adjusted_market_value_sf = adjusted;
      },
      record pass {
        borrowed_assets_market_value = market_value;
        borrow_factor_adjusted_debt_value = debt_value;
        highest_borrow_factor_f =
            if leb least_f market_value_f
            then max pass.highest_borrow_factor_f factor
            else pass.highest_borrow_factor_f;
        prices_state = bit_and pass.prices_state (get_price_status r.last_update);
      },
    )

  -- One round of the pass: the borrow at the index, with the next reserve.
  unfoldable pub refresh_borrow :
      DeriveAddress
      → Obligation
      → LendingMarket
      → ℕ
      → Option ElevationGroup
      → ℕ
      → ObligationLiquidity
      → BorrowPass
      → Result (ObligationLiquidity × BorrowPass)
  unfolding check_obligation_liquidity_borrow_reserve accumulate_referrer_fees track_refreshed
      add_borrow
  refresh_borrow derive o market slot group i t pass = do
    taken ← next_key pass.keys
    let key = taken.0
    let r = pass.accounts key
    check_obligation_liquidity_borrow_reserve t r key slot
    accrued ← accrue_loan_interest t r.liquidity.cumulative_borrow_rate_bsf
    borrowed_amount ← to_ceil u64_max accrued.borrowed_amount_sf
    accumulator ←
        checked u64_max (pass.borrowed_amounts_accumulator_for_elevation_group + borrowed_amount)
    tracked ← track_refreshed group r key accrued borrowed_amount
    status ← get_status r.config
    elapsed ← slots_elapsed o.last_update slot
    paid ←
        accumulate_referrer_fees derive key tracked.0 o.referrer market.referral_fee_bps elapsed
          accrued.borrowed_amount_sf t.borrowed_amount_sf (has_referrer o) pass
    valued ← add_borrow market group paid.0 tracked.1 paid.1
    ok (
      valued.0,
      record valued.1 {
        num_borrow_reserves = pass.num_borrow_reserves + 1;
        borrowed_amounts_accumulator_for_elevation_group = accumulator;
        num_of_obsolete_reserves =
            pass.num_of_obsolete_reserves + (if is_obsolete status then 1 else 0);
        tiers = set pass.tiers i r.config.asset_tier;
        has_debt = 1;
        keys = taken.1;
        accounts = put pass.accounts key paid.0;
      },
    )

  unfoldable pub refresh_borrows_from :
      DeriveAddress
      → Obligation
      → LendingMarket
      → ℕ
      → Option ElevationGroup
      → ℕ
      → List ObligationLiquidity
      → BorrowPass
      → Result (List ObligationLiquidity × BorrowPass)
  unfolding refresh_borrow
  refresh_borrows_from derive o market slot group i [] pass = ok ([], pass)
  refresh_borrows_from derive o market slot group i (t ∷ ts) pass = elim (is_liquidity_active t) [
    | false ↦ refresh_borrows_from derive o market slot group (suc i) ts pass >>= λ rest.
        ok (t ∷ rest.0, rest.1)
    | true ↦ refresh_borrow derive o market slot group i t pass >>= λ done.
        refresh_borrows_from derive o market slot group (suc i) ts done.1 >>= λ rest.
        ok (done.0 ∷ rest.0, rest.1)
  ]

  -- In a group there is at most one borrow, whose amount is the debt in the group.
  unfoldable pub debt_in_group : Option ElevationGroup → BorrowPass → Result (Option ℕ)
  debt_in_group none pass = ok none
  debt_in_group (some g) pass = do
    guard (leb pass.num_borrow_reserves 1) LendingError.inconsistent_elevation_group
    ok (some pass.borrowed_amounts_accumulator_for_elevation_group)

  -- The obligation, the totals, and the pass with the accounts and the referrers' states.
  unfoldable pub refresh_obligation_borrows :
      DeriveAddress
      → Obligation
      → LendingMarket
      → ℕ
      → Option ElevationGroup
      → List Pubkey
      → Accounts
      → List Pubkey
      → (Pubkey → ReferrerTokenState)
      → Result (Obligation × RefreshObligationBorrowsResult × BorrowPass)
  unfolding refresh_borrows_from debt_in_group
  refresh_obligation_borrows derive o market slot group borrow_keys accounts state_keys states = do
    done ← refresh_borrows_from derive o market slot group 0 o.borrows (record {
      borrowed_assets_market_value = 0;
      borrow_factor_adjusted_debt_value = 0;
      prices_state = all_checks;
      highest_borrow_factor_f = one;
      num_of_obsolete_reserves = 0;
      borrowed_amounts_accumulator_for_elevation_group = 0;
      num_borrow_reserves = 0;
      tiers = o.borrows_asset_tiers;
      has_debt = o.has_debt;
      keys = borrow_keys;
      accounts = accounts;
      state_keys = state_keys;
      states = states;
    })
    let pass = done.1
    amount ← debt_in_group group pass
    pct ← to_percent u64_max pass.highest_borrow_factor_f
    highest_pct ← unwrap pct
    ok (
      record o { borrows = done.0; borrows_asset_tiers = pass.tiers; has_debt = pass.has_debt },
      record {
        borrow_factor_adjusted_debt_value_f = pass.borrow_factor_adjusted_debt_value;
        borrowed_assets_market_value_f = pass.borrowed_assets_market_value;
        prices_state = pass.prices_state;
        highest_borrow_factor_pct = highest_pct;
        borrowed_amount_in_elevation_group = amount;
        num_of_obsolete_reserves = pass.num_of_obsolete_reserves;
      },
      pass,
    )

  -- The obligation, the reserves and the referrers' states.
  unfoldable pub refresh_obligation :
      DeriveAddress
      → Obligation
      → LendingMarket
      → ℕ
      → MaxReservesAsCollateralCheck
      → List Pubkey
      → List Pubkey
      → Accounts
      → List Pubkey
      → (Pubkey → ReferrerTokenState)
      → Result (Obligation × Accounts × (Pubkey → ReferrerTokenState))
  unfolding refresh_obligation_borrows refresh_obligation_deposits
  refresh_obligation derive o market slot check deposit_keys borrow_keys accounts state_keys
        states =
      do
        group ← get_elevation_group o.elevation_group market
        borrows ←
            refresh_obligation_borrows derive o market slot group borrow_keys accounts state_keys
              states
        deposits ←
            refresh_obligation_deposits borrows.0 market slot check group deposit_keys
              borrows.1.borrowed_amount_in_elevation_group borrows.2.accounts
        global_f ← from_num market.global_allowed_borrow_value
        let owed = borrows.1
        let given = deposits.1
        let o' = deposits.0
        ok (
          record o' {
            borrowed_assets_market_value_sf = owed.borrowed_assets_market_value_f;
            deposited_value_sf = given.deposited_value_f;
            borrow_factor_adjusted_debt_value_sf = owed.borrow_factor_adjusted_debt_value_f;
            allowed_borrow_value_sf = min given.allowed_borrow_value_f global_f;
            unhealthy_borrow_value_sf = given.unhealthy_borrow_value_f;
            lowest_reserve_deposit_liquidation_ltv =
                given.lowest_deposit_liquidation_ltv_threshold_pct;
            lowest_reserve_deposit_max_ltv_pct = given.lowest_deposit_max_ltv_pct;
            num_of_obsolete_borrow_reserves = owed.num_of_obsolete_reserves;
            num_of_obsolete_deposit_reserves = given.num_of_obsolete_reserves;
            borrowing_disabled = if given.borrowing_disabled then 1 else 0;
            highest_borrow_factor_pct = owed.highest_borrow_factor_pct;
            last_update =
                update_slot o'.last_update slot
                  (some (bit_and given.prices_state owed.prices_state));
          },
          deposits.2,
          borrows.2.states,
        )
