-- ===== src/Reserve/Tests.antt =====
-- Runs of reserve.rs, and its theorems on a concrete pool.
use kamino_lending.Base.{arith, false, ok, refl, true, ℕ, ◌*◌, ◌+◌, ◌/◌, ◌<◌, ◌≡◌, ◌≤◌}
use kamino_lending.Crates.{one}
use kamino_lending.Crates.Exact.{exact, exact-IsExact}
use kamino_lending.Fraction.{big_mul, from_bps, from_percent, to_floor, to_round}
use kamino_lending.Reserve.Fees.{calculate_borrow_fees}
use kamino_lending.Reserve.Interest.{approximate_compounded_interest, slots_per_year}
use kamino_lending.Reserve.Liquidity.{
  ReserveLiquidity, borrow, compound_interest, mint_factor, repay, total_supply,
}
use kamino_lending.Reserve.Collateral.{
  collateral_to_liquidity, collateral_to_liquidity_ceil, liquidity_to_collateral,
}
use kamino_lending.Reserve.Loans.{
  borrow_exactly, borrow_factor_f, calculate_borrow, calculate_repay,
}
use kamino_lending.Reserve.State.{
  collateral_exchange_rate, compute_depositable_amount_and_minted_collateral, deposit_liquidity,
  redeem_collateral,
}
use kamino_lending.Reserve.Sample.{
  deposited, grown, lent, loan, pool, pool_liquidity, redeemed, repaid, repayment, returned, terms,
}
use kamino_lending.Reserve.Deposits.{deposit_then_redeem, redeem_undiluted}
use kamino_lending.Reserve.Accounting.{repay_conserves}
use kamino_lending.Reserve.Growth.{approximate_compounded_interest_lem}
use kamino_lending.Reserve.Compounding.{
  compound_interest_factor, compound_interest_shares, compound_interest_total,
}
use kamino_lending.Reserve.Borrowing.{calculate_borrow-borrow}

deposit_then_redeem_example : (99 ≤ 100) × (100 ≤ 100)
unfolding total_supply compute_depositable_amount_and_minted_collateral deposit_liquidity
    redeem_collateral collateral_exchange_rate liquidity_to_collateral collateral_to_liquidity_ceil
    collateral_to_liquidity
deposit_then_redeem_example =
    deposit_then_redeem exact-IsExact pool deposited returned 100 1714394277350381465650
      1829686427811066163250 99 terms refl (omega arith) refl refl refl refl

redeem_undiluted_example :
    (1714394277350381465650 ≡ 1469974918373729906738 + 212 * one)
    × (1400 ≡ 1200 + 200)
    × (1714394277350381465650 * 1200 ≤ 1469974918373729906738 * 1400)
unfolding total_supply compute_depositable_amount_and_minted_collateral deposit_liquidity
    redeem_collateral collateral_exchange_rate liquidity_to_collateral collateral_to_liquidity_ceil
    collateral_to_liquidity
redeem_undiluted_example =
    redeem_undiluted exact-IsExact pool redeemed 200 212 1714394277350381465650
      1469974918373729906738 refl (omega arith) refl refl

repay_conserves_example :
    (230584300921369395200 ≤ 345876451382054092805)
    × (345876451382054105145 + 230584300921369395200 ≡ 576460752303423500345)
    × (1714394277350381465650 ≤ 1714394277350381465650)
    × (1714394277350381465650 < 1714394277350381465650 + one)
unfolding calculate_repay repay total_supply
repay_conserves_example =
    repay_conserves exact-IsExact pool_liquidity repaid 200 345876451382054092805
      1714394277350381465650 1714394277350381465650 repayment refl (omega arith) refl refl refl

approximate_compounded_interest_lem_example :
    (one + 11529215046068469 / slots_per_year * 1000 ≤ 1152921687401351976)
    × (1152921687401351976 ≤ 1152926257273478476)
unfolding approximate_compounded_interest
approximate_compounded_interest_lem_example =
    approximate_compounded_interest_lem exact-IsExact 11529215046068469 299759591197780213 1000
      1152921687401351976 1152926257273478476 (omega arith) refl refl

compound_interest_shares_example :
    (576460752303423500345 ≤ 576463128636739250345)
    × (1714394277350381465650 ≤ 1714396105299232065651)
    × (11529215046068469767 + 1152921504606846976 ≤ 11529717731812354767 + 1152967203328111975)
    × (1714396105299232065651 + 11529717731812354767 + 1152967203328111975 + 576460752303423500345
        ≡ 1714394277350381465650 + 11529215046068469767 + 1152921504606846976
          + 576463128636739250345)
unfolding compound_interest total_supply big_mul approximate_compounded_interest
compound_interest_shares_example =
    compound_interest_shares exact-IsExact pool_liquidity grown 288230376151711744 11529215046068469
      1000 230584300921369395 115292150460684697 1714394277350381465650 1714396105299232065651
      (omega arith) refl refl refl

compound_interest_factor_example :
    (x : ℕ) × (one + (288230376151711744 + 11529215046068469) / slots_per_year * 1000 ≤ x)
    × (576463128636739250345 ≡ 576460752303423500345 * x / one)
    × (1152926257273478476 ≡ one * x / one)
unfolding compound_interest big_mul approximate_compounded_interest
compound_interest_factor_example =
    compound_interest_factor exact-IsExact pool_liquidity grown 288230376151711744 11529215046068469
      1000 230584300921369395 115292150460684697 refl

compound_interest_total_example :
    (l' : ReserveLiquidity) × (compound_interest pool_liquidity 288230376151711744 11529215046068469
        1000 230584300921369395 115292150460684697
      ≡ ok l')
unfolding approximate_compounded_interest
compound_interest_total_example =
    compound_interest_total exact-IsExact pool_liquidity 288230376151711744 11529215046068469 1000
      230584300921369395 115292150460684697 1152926257273478476 1152921687401351976 refl refl
      (omega arith) (omega arith) (omega arith) (omega arith) (omega arith) (omega arith)

calculate_borrow-borrow_example :
    (697 + (300 + 2 + 1) ≡ 1000)
    × (925795968199298134073 ≡ 576460752303423500345 + 349335215895874633728)
unfolding calculate_borrow mint_factor calculate_borrow_fees from_bps to_round to_floor from_percent
    borrow_factor_f borrow_exactly borrow
calculate_borrow-borrow_example =
    calculate_borrow-borrow exact-IsExact pool 300 11529215046068469760000 461168601842738790400
      5000 false true loan lent refl refl
