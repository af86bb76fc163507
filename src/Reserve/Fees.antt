-- ===== src/Reserve/Fees.antt =====
-- `ReserveFees::calculate_fees` and its two callers (state/reserve.rs).
use kamino_lending.Base.{
  Bool, LendingError, Result, guard, if◌then◌else◌, leb, ltb, max, not, ok, u64_max, ℕ, ◌&&◌, ◌==◌,
  ◌>>=◌, ◌>>◌,
}
use kamino_lending.Crates.{Crates, difference, one}
use kamino_lending.Fraction.{Fraction, from_bps, to_floor, to_round}
use kamino_lending.Reserve.Config.{ReserveFees}

pub data FeeCalculation : Type 0 where
  exclusive inclusive : FeeCalculation

module _ ⦃c : Crates⦄ where
  open c use {add, mul, div}

  -- The fee before the minimum is applied.
  unfoldable pub borrow_fee_amount : FeeCalculation → Fraction → Fraction → Result Fraction
  borrow_fee_amount FeeCalculation.exclusive amount borrow_fee_rate = mul amount borrow_fee_rate
  borrow_fee_amount FeeCalculation.inclusive amount borrow_fee_rate = do
    whole ← add borrow_fee_rate one
    rate ← div borrow_fee_rate whole
    mul amount rate

  -- The part of the fee that goes to the referrer.
  unfoldable pub referral_part : Bool → ℕ → Fraction → ℕ → Fraction → Result ℕ
  referral_part need_to_assess_referral_fee referral_fee_bps borrow_fee_f borrow_fee
        referral_fee_rate =
      if need_to_assess_referral_fee
      then (if referral_fee_bps == 10_000
          then ok borrow_fee
          else (mul borrow_fee_f referral_fee_rate >>= λ f. to_floor u64_max f))
      else ok 0

  -- The fee is checked against the amount, rounded and split.
  unfoldable pub split_fee : Fraction → Fraction → ℕ → Fraction → Bool → Result (ℕ × ℕ)
  unfolding referral_part
  split_fee amount borrow_fee_f referral_fee_bps referral_fee_rate has_referrer = do
    guard (not (leb amount borrow_fee_f)) LendingError.borrow_too_small
    borrow_fee ← to_round u64_max borrow_fee_f
    referral_fee ←
        referral_part (ltb 0 referral_fee_rate && has_referrer) referral_fee_bps borrow_fee_f
          borrow_fee referral_fee_rate
    protocol_fee ← difference borrow_fee referral_fee
    ok (protocol_fee, referral_fee)

  unfoldable pub calculate_fees : Fraction → ℕ → FeeCalculation → ℕ → Bool → Result (ℕ × ℕ)
  unfolding borrow_fee_amount split_fee
  calculate_fees amount fee_sf fee_calculation referral_fee_bps has_referrer = do
    referral_fee_rate ← from_bps referral_fee_bps
    (if ltb 0 fee_sf && ltb 0 amount
        then (do
          minimum_fee ← c.from_num 1
          fee_amount ← borrow_fee_amount fee_calculation amount fee_sf
          split_fee amount (max fee_amount minimum_fee) referral_fee_bps referral_fee_rate
              has_referrer)
        else ok (0, 0))

  unfoldable pub calculate_borrow_fees :
      ReserveFees → Fraction → FeeCalculation → ℕ → Bool → Result (ℕ × ℕ)
  unfolding calculate_fees
  calculate_borrow_fees fees borrow_amount fee_calculation referral_fee_bps has_referrer =
      calculate_fees borrow_amount fees.borrow_fee_sf fee_calculation referral_fee_bps has_referrer

  unfoldable pub calculate_flash_loan_fees : ReserveFees → Fraction → ℕ → Bool → Result (ℕ × ℕ)
  unfolding calculate_fees
  calculate_flash_loan_fees fees amount referral_fee_bps has_referrer =
      calculate_fees amount fees.flash_loan_fee_sf FeeCalculation.exclusive referral_fee_bps
        has_referrer
