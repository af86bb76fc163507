-- ===== src/Reserve/Liquidity.antt =====
-- `ReserveLiquidity` (state/reserve.rs), and the part of `ReferrerTokenState` (state/referral.rs)
-- that it writes. A public key is a number; the padding is left out.
use kamino_lending.Base.{
  LendingError, Result, guard, if◌then◌else◌, ltb, min, not, ok, ok_or, panic, u128_max, u64_max, ℕ,
  ◌+◌, ◌==◌, ◌>>=◌, ◌>>◌, ◌^◌,
}
use kamino_lending.Crates.{Crates, checked, checked_add_int, checked_sub_int, difference, one}
use kamino_lending.Fraction.{Fraction, big_mul, to_floor}
use kamino_lending.Reserve.Interest.{approximate_compounded_interest}

abbrev pub Pubkey : Type 0
Pubkey = ℕ

pub record ReserveLiquidity : Type 0 where
  pub mint_pubkey : Pubkey
  pub supply_vault : Pubkey
  pub fee_vault : Pubkey
  pub available_amount : ℕ
  pub borrowed_amount_sf : ℕ
  pub market_price_sf : ℕ
  pub market_price_last_updated_ts : ℕ
  pub mint_decimals : ℕ
  pub deposit_limit_crossed_timestamp : ℕ
  pub borrow_limit_crossed_timestamp : ℕ
  pub cumulative_borrow_rate_bsf : ℕ
  pub accumulated_protocol_fees_sf : ℕ
  pub accumulated_referrer_fees_sf : ℕ
  pub pending_referrer_fees_sf : ℕ
  pub absolute_referral_rate_sf : ℕ
  pub token_program : Pubkey

pub record NewReserveLiquidityParams : Type 0 where
  pub mint_pubkey : Pubkey
  pub mint_decimals : ℕ
  pub mint_token_program : Pubkey
  pub supply_vault : Pubkey
  pub fee_vault : Pubkey
  pub market_price_sf : ℕ
  pub initial_amount_deposited_in_reserve : ℕ

pub record ReferrerTokenState : Type 0 where
  pub referrer : Pubkey
  pub mint : Pubkey
  pub amount_unclaimed_sf : ℕ
  pub amount_cumulative_sf : ℕ
  pub bump : ℕ

-- `ReserveLiquidity::new`
unfoldable pub new_liquidity : NewReserveLiquidityParams → ReserveLiquidity
new_liquidity params = record {
  mint_pubkey = params.mint_pubkey;
  supply_vault = params.supply_vault;
  fee_vault = params.fee_vault;
  available_amount = params.initial_amount_deposited_in_reserve;
  borrowed_amount_sf = 0;
  market_price_sf = params.market_price_sf;
  market_price_last_updated_ts = 0;
  mint_decimals = params.mint_decimals;
  deposit_limit_crossed_timestamp = 0;
  borrow_limit_crossed_timestamp = 0;
  cumulative_borrow_rate_bsf = one;
  accumulated_protocol_fees_sf = 0;
  accumulated_referrer_fees_sf = 0;
  pending_referrer_fees_sf = 0;
  absolute_referral_rate_sf = 0;
  token_program = params.mint_token_program;
}

-- utils/consts.rs: a table of twenty powers.
unfoldable pub ten_pow : ℕ → Result ℕ
ten_pow x = if ltb 19 x then panic else ok (10 ^ x)

unfoldable pub mint_factor : ReserveLiquidity → Result ℕ
unfolding ten_pow
mint_factor l = ten_pow l.mint_decimals

unfoldable pub deposit : ReserveLiquidity → ℕ → Result ReserveLiquidity
deposit l liquidity_amount = do
  amount ←
      ok_or (checked_add_int u64_max l.available_amount liquidity_amount) LendingError.math_overflow
  ok (record l { available_amount = amount })

unfoldable pub withdraw : ReserveLiquidity → ℕ → Result ReserveLiquidity
withdraw l liquidity_amount = do
  guard (not (ltb l.available_amount liquidity_amount)) LendingError.insufficient_liquidity
  amount ← ok_or (checked_sub_int l.available_amount liquidity_amount) LendingError.math_overflow
  ok (record l { available_amount = amount })

module _ ⦃c : Crates⦄ where
  open c use {add, sub, mul, div, checked_sub, from_num}

  unfoldable pub total_supply : ReserveLiquidity → Result Fraction
  total_supply l = do
    available ← from_num l.available_amount
    gross ← add available l.borrowed_amount_sf
    net_1 ← sub gross l.accumulated_protocol_fees_sf
    net_2 ← sub net_1 l.accumulated_referrer_fees_sf
    sub net_2 l.pending_referrer_fees_sf

  unfoldable pub borrow : ReserveLiquidity → Fraction → Result ReserveLiquidity
  borrow l borrow_f = do
    borrow_amount ← to_floor u64_max borrow_f
    guard (not (ltb l.available_amount borrow_amount)) LendingError.insufficient_liquidity
    amount ← difference l.available_amount borrow_amount
    borrowed ← add l.borrowed_amount_sf borrow_f
    ok (record l { available_amount = amount; borrowed_amount_sf = borrowed })

  unfoldable pub repay : ReserveLiquidity → ℕ → Fraction → Result ReserveLiquidity
  repay l repay_amount settle_amount = do
    amount ←
        ok_or (checked_add_int u64_max l.available_amount repay_amount) LendingError.math_overflow
    let safe_settle_amount = min settle_amount l.borrowed_amount_sf
    borrowed ←
        ok_or (checked_sub l.borrowed_amount_sf safe_settle_amount) LendingError.math_overflow
    ok (record l { available_amount = amount; borrowed_amount_sf = borrowed })

  unfoldable pub redeem_fees : ReserveLiquidity → ℕ → Result ReserveLiquidity
  redeem_fees l withdraw_amount = do
    amount ← ok_or (checked_sub_int l.available_amount withdraw_amount) LendingError.math_overflow
    withdraw_amount_f ← from_num withdraw_amount
    fees ←
        ok_or (checked_sub l.accumulated_protocol_fees_sf withdraw_amount_f)
          LendingError.math_overflow
    ok (record l { available_amount = amount; accumulated_protocol_fees_sf = fees })

  unfoldable pub utilization_rate : ReserveLiquidity → Result Fraction
  unfolding total_supply
  utilization_rate l = do
    supply ← total_supply l
    (if supply == 0 then ok 0 else div l.borrowed_amount_sf supply)

  unfoldable pub compound_interest :
      ReserveLiquidity → Fraction → Fraction → ℕ → Fraction → Fraction → Result ReserveLiquidity
  compound_interest l current_borrow_rate host_fixed_interest_rate slots_elapsed protocol_take_rate
        referral_rate =
      do
        rate ← add current_borrow_rate host_fixed_interest_rate
        compounded_interest_rate ← approximate_compounded_interest rate slots_elapsed
        compounded_fixed_rate ←
            approximate_compounded_interest host_fixed_interest_rate slots_elapsed
        new_cumulative_borrow_rate ← big_mul l.cumulative_borrow_rate_bsf compounded_interest_rate
        new_debt_f ← mul l.borrowed_amount_sf compounded_interest_rate
        fixed_debt ← mul l.borrowed_amount_sf compounded_fixed_rate
        fixed_host_fee ← sub fixed_debt l.borrowed_amount_sf
        growth ← sub new_debt_f l.borrowed_amount_sf
        net_new_variable_debt_f ← sub growth fixed_host_fee
        variable_protocol_fee_f ← mul net_new_variable_debt_f protocol_take_rate
        absolute_referral_rate ← mul protocol_take_rate referral_rate
        max_referrers_fees_f ← mul net_new_variable_debt_f absolute_referral_rate
        fees_1 ← add l.accumulated_protocol_fees_sf fixed_host_fee
        fees_2 ← add fees_1 variable_protocol_fee_f
        new_acc_protocol_fees_f ← sub fees_2 max_referrers_fees_f
        pending ← checked u128_max (l.pending_referrer_fees_sf + max_referrers_fees_f)
        ok (record l {
          cumulative_borrow_rate_bsf = new_cumulative_borrow_rate;
          pending_referrer_fees_sf = pending;
          accumulated_protocol_fees_sf = new_acc_protocol_fees_f;
          borrowed_amount_sf = new_debt_f;
          absolute_referral_rate_sf = absolute_referral_rate;
        })

  unfoldable pub forgive_debt : ReserveLiquidity → Fraction → Result ReserveLiquidity
  forgive_debt l liquidity_amount = do
    new_amt ← sub l.borrowed_amount_sf liquidity_amount
    ok (record l { borrowed_amount_sf = new_amt })

  unfoldable pub withdraw_referrer_fees :
      ReserveLiquidity → ℕ → ReferrerTokenState → Result (ReserveLiquidity × ReferrerTokenState)
  withdraw_referrer_fees l withdraw_amount state = do
    amount ← ok_or (checked_sub_int l.available_amount withdraw_amount) LendingError.math_overflow
    withdraw_amount_f ← from_num withdraw_amount
    fees ←
        ok_or (checked_sub l.accumulated_referrer_fees_sf withdraw_amount_f)
          LendingError.math_overflow
    unclaimed ←
        ok_or (checked_sub state.amount_unclaimed_sf withdraw_amount_f) LendingError.math_overflow
    ok (
      record l { available_amount = amount; accumulated_referrer_fees_sf = fees },
      record state { amount_unclaimed_sf = unclaimed },
    )
