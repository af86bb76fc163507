-- ===== src/Obligation/Values.antt =====
-- The methods of `Obligation` (state/obligation.rs) that compute with fractions, and those that
-- repay.
use kamino_lending.Base.{
  List, Option, Result, [], get_elem?, if◌then◌else◌, leb, ltb, none, ok, set, some, u128_max,
  u64_max, u8_max, unwrap, ℕ, ◌+◌, ◌-◌, ◌==◌, ◌>>=◌, ◌∷◌,
}
use kamino_lending.Crates.{Crates, checked}
use kamino_lending.Fraction.{Fraction, to_ceil}
use kamino_lending.Obligation.Positions.{
  ObligationCollateral, ObligationLiquidity, new_obligation_liquidity, repay,
}
use kamino_lending.Obligation.State.{LtvMaxWithdrawalCheck, Obligation, active_borrows_count}

-- The limit and the percentage that `max_withdraw_value` measures by.
unfoldable pub withdraw_limit : Obligation → ℕ → ℕ → LtvMaxWithdrawalCheck → ℕ × ℕ
withdraw_limit o max_ltv_pct liq_threshold_pct LtvMaxWithdrawalCheck.liquidation_threshold =
    (o.unhealthy_borrow_value_sf - 1, liq_threshold_pct)
withdraw_limit o max_ltv_pct liq_threshold_pct LtvMaxWithdrawalCheck.max_ltv =
    (o.allowed_borrow_value_sf, max_ltv_pct)

-- The sum of a `u128` iterator, which panics on an overflow.
abbrev pub sum_debts : List ObligationLiquidity → ℕ → Result ℕ
sum_debts [] acc = ok acc
sum_debts (t ∷ ts) acc = checked u128_max (acc + t.borrowed_amount_sf) >>= λ s. sum_debts ts s

module _ ⦃c : Crates⦄ where
  open c use {div, saturating_sub, mul_int, div_int}

  unfoldable pub loan_to_value : Obligation → Result Fraction
  loan_to_value o = div o.borrow_factor_adjusted_debt_value_sf o.deposited_value_sf

  unfoldable pub no_bf_loan_to_value : Obligation → Result Fraction
  no_bf_loan_to_value o = div o.borrowed_assets_market_value_sf o.deposited_value_sf

  unfoldable pub unhealthy_loan_to_value : Obligation → Result Fraction
  unhealthy_loan_to_value o = div o.unhealthy_borrow_value_sf o.deposited_value_sf

  -- `Obligation::repay`
  unfoldable pub repay_borrow : Obligation → Fraction → ℕ → Result Obligation
  unfolding repay new_obligation_liquidity
  repay_borrow o settle_amount i = do
    t ← unwrap (get_elem? o.borrows i)
    (if settle_amount == t.borrowed_amount_sf
        then ok (record o {
          borrows = set o.borrows i (new_obligation_liquidity 0 0);
          borrows_asset_tiers = set o.borrows_asset_tiers i u8_max;
        })
        else (repay t settle_amount >>= λ t'. ok (record o { borrows = set o.borrows i t' })))

  unfoldable pub max_withdraw_value :
      Obligation → ObligationCollateral → ℕ → ℕ → LtvMaxWithdrawalCheck → Result Fraction
  unfolding withdraw_limit
  max_withdraw_value o t reserve_max_ltv_pct reserve_liq_threshold_pct check = do
    let limits = withdraw_limit o reserve_max_ltv_pct reserve_liq_threshold_pct check
    (if leb limits.0 o.borrow_factor_adjusted_debt_value_sf
        then ok 0
        else (if limits.1 == 0 then ok t.market_value_sf else (do
          room ← mul_int (saturating_sub limits.0 o.borrow_factor_adjusted_debt_value_sf) 100
          div_int room limits.1)))

  unfoldable pub get_borrowed_amount_if_single_token : Obligation → Result (Option ℕ)
  unfolding active_borrows_count
  get_borrowed_amount_if_single_token o =
      if ltb 1 (active_borrows_count o)
      then ok none
      else (do debts ← sum_debts o.borrows 0; amount ← to_ceil u64_max debts; ok (some amount))
