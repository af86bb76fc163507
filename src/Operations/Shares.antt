-- ===== src/Operations/Shares.antt =====
-- The pool as its depositors see it, a value and the shares in it, and the operations on a reserve as
-- steps of it.
use kamino_lending.Operations.Accounts.{Clock}
use kamino_lending.Operations.Pool.{
  GetPriceResult, deposit_reserve_liquidity, flash_borrow_reserve_liquidity,
  flash_repay_reserve_liquidity, keep_referrer_fee, redeem_reserve_collateral, redeem_reserve_fees,
  refresh_reserve, refresh_reserve_limit_timestamps, withdraw_reserve_referrer_fees,
}
use kamino_lending.Operations.Loans.{enter_debt, settle_debt}
use kamino_lending.Operations.Effects.{deposit_reserve_liquidity_lem, refresh_reserve_lem}
use kamino_lending.Operations.Redeeming.{redeem_reserve_collateral_lem, redeem_reserve_fees_lem}
use kamino_lending.Operations.Lending.{
  enter_debt_lem, flash_borrow_lem, flash_repay_lem, settle_debt_lem,
}
use kamino_lending.Operations.Refresh.{BorrowPass}
use kamino_lending.Operations.RefreshBorrows.{DeriveAddress, accumulate_referrer_fees}
use kamino_lending.Operations.Referrals.{
  accumulate_referrer_fees_lem, keep_referrer_fee_lem, stamps_lem,
  withdraw_reserve_referrer_fees_lem,
}
use kamino_lending.Fraction.{Fraction}
use native.Mathlib.Nat.{mul-le-mul_right, le_of_mul-le-mul_right}
use kamino_lending.Base.{
  Bool, Option, ap, arith, ok, ok_injective, sym, ℕ, ◌*◌, ◌+◌, ◌<◌, ◌∙◌, ◌≡◌, ◌≤◌,
}
use kamino_lending.Crates.{Crates, IsExact, one}
use kamino_lending.Reserve.{
  CalculateRepayResult, DepositLiquidityResult, Pubkey, ReferrerTokenState, Reserve,
  calculate_repay, total_supply,
}
use kamino_lending.LendingMarket.{LendingMarket}
use kamino_lending.Obligation.{Obligation}

pub record Vault : Type 0 where
  pub value : ℕ
  pub shares : ℕ

-- What may happen to it: shares are minted for at least their value, burnt for at most their value,
-- and the value grows.
pub data VaultStep : Vault → Vault → Type 0 where
  mints :
      {a b : Vault} (paid minted : ℕ)
      → b.value ≡ a.value + paid
      → b.shares ≡ a.shares + minted
      → minted * a.value ≤ paid * a.shares
      → VaultStep a b
  burns :
      {a b : Vault} (taken burnt : ℕ)
      → a.value ≡ b.value + taken
      → a.shares ≡ b.shares + burnt
      → a.value * b.shares ≤ b.value * a.shares
      → VaultStep a b
  earns : {a b : Vault} → a.value ≤ b.value → b.shares ≡ a.shares → VaultStep a b

-- The share price of the second is at least that of the first.
abbrev pub IsUndiluted : Vault → Vault → Type 0
IsUndiluted a b = a.value * b.shares ≤ b.value * a.shares

VaultStep-IsUndiluted : {a b : Vault} → VaultStep a b → IsUndiluted a b
VaultStep-IsUndiluted (mints paid minted v_eq s_eq fair) = rw (v_eq, s_eq) (omega arith)
VaultStep-IsUndiluted (burns taken burnt v_eq s_eq fair) = fair
VaultStep-IsUndiluted (earns more same) = rw same (mul-le-mul_right _ more)

trans-IsUndiluted :
    (a b d : Vault) → 0 < b.shares → IsUndiluted a b → IsUndiluted b d → IsUndiluted a d
trans-IsUndiluted a b d pos first second =
    let low : a.value * b.shares * d.shares ≤ b.value * a.shares * d.shares =
      mul-le-mul_right d.shares first in
    let high : b.value * d.shares * a.shares ≤ d.value * b.shares * a.shares =
      mul-le-mul_right a.shares second in
    le_of_mul-le-mul_right {k = b.shares} (omega arith) pos

module _ ⦃c : Crates⦄ where
  -- The vault that a reserve stands for.
  pub record IsVault (r : Reserve) (a : Vault) : Type 0 where
    pub value_eq : total_supply r.liquidity ≡ ok a.value
    pub shares_eq : r.collateral.mint_total_supply ≡ a.shares

  -- One operation that succeeds, on the reserve's side: an instruction is one or several of these, and
  -- `changes` is any that touches neither the liquidity nor the shares. A repayment, of a loan or of a flash loan,
  -- is of a debt that is part of the pool's. Losses that are socialized are not among them.
  pub data PoolStep : Reserve → Reserve → Type 0 where
    refreshes :
        {r r' : Reserve} (clock : Clock) (price : Option GetPriceResult) (bps : ℕ)
        → r.config.protocol_take_rate_pct ≤ 100
        → refresh_reserve r clock price bps ≡ ok r'
        → PoolStep r r'
    deposits :
        {r r' : Reserve} (clock : Clock) (n : ℕ) (res : DepositLiquidityResult)
        → deposit_reserve_liquidity r clock n ≡ ok (r', res)
        → PoolStep r r'
    redeems :
        {r r' : Reserve} (n out : ℕ) (clock : Clock) (asked : Bool)
        → redeem_reserve_collateral r n clock asked ≡ ok (r', out)
        → PoolStep r r'
    pays_fees :
        {r r' : Reserve} (slot out : ℕ) → redeem_reserve_fees r slot ≡ ok (r', out) → PoolStep r r'
    lends :
        {r r' : Reserve} (o o' : Obligation) (key f i : ℕ)
        → enter_debt r o key f ≡ ok (r', o', i)
        → PoolStep r r'
    collects :
        {r r' : Reserve} (o o' : Obligation) (i n owed : ℕ) (res : CalculateRepayResult)
        → calculate_repay n owed ≡ ok res
        → owed ≤ r.liquidity.borrowed_amount_sf
        → settle_debt r o i res.repay_amount res.settle_amount ≡ ok (r', o')
        → PoolStep r r'
    flash_lends :
        {r r' : Reserve} (n : ℕ) → flash_borrow_reserve_liquidity r n ≡ ok r' → PoolStep r r'
    flash_collects :
        {r r' : Reserve} (market : LendingMarket) (n timestamp total fee : ℕ)
        (state state' : Option ReferrerTokenState)
        → n * one ≤ r.liquidity.borrowed_amount_sf
        → flash_repay_reserve_liquidity market r n timestamp state ≡ ok (r', state', total, fee)
        → PoolStep r r'
    keeps_fee :
        {r r' : Reserve} (market : LendingMarket) (fee : ℕ)
        (state state' : Option ReferrerTokenState)
        → keep_referrer_fee market r state fee ≡ ok (r', state')
        → PoolStep r r'
    accumulates :
        {r r' : Reserve} (derive : DeriveAddress) (key referrer : Pubkey) (bps elapsed : ℕ)
        (owed previous : Fraction) (referred : Bool) (pass pass' : BorrowPass)
        → accumulate_referrer_fees derive key r referrer bps elapsed owed previous referred pass
          ≡ ok (r', pass')
        → PoolStep r r'
    pays_referrer :
        {r r' : Reserve} (slot out : ℕ) (state state' : ReferrerTokenState)
        → withdraw_reserve_referrer_fees r slot state ≡ ok (r', state', out)
        → PoolStep r r'
    stamps :
        {r r' : Reserve} (timestamp : ℕ)
        → refresh_reserve_limit_timestamps r timestamp ≡ ok r'
        → PoolStep r r'
    changes :
        {r r' : Reserve} → r'.liquidity ≡ r.liquidity → r'.collateral ≡ r.collateral → PoolStep r r'

  -- A sequence of operations, with the vault before and after each, in which shares are out.
  pub data Reach (start : Reserve) (a : Vault) : Reserve → Vault → Type 0 where
    stays : Reach start a start a
    goes_on :
        {r r' : Reserve} {b b' : Vault}
        → Reach start a r b
        → 0 < b.shares
        → IsVault r b
        → PoolStep r r'
        → IsVault r' b'
        → Reach start a r' b'

module _ ⦃c : Crates⦄ (laws : IsExact c) where
  earned :
      (r r' : Reserve) (a b : Vault)
      → IsVault r a
      → IsVault r' b
      → (a.value ≤ b.value) × (r'.collateral ≡ r.collateral)
      → VaultStep a b
  earned r r' a b before after h =
      earns (h.0) (sym after.shares_eq ∙ ap (λ x. x.mint_total_supply) h.1 ∙ before.shares_eq)

  -- On a reserve that has shares out, whose total supply can be computed before and after, each of these that
  -- succeeds is a step that the vault allows: a refresh with a take rate of at most 100 %, a deposit, a
  -- redemption, a withdrawal of the protocol's or of a referrer's fees, a loan, a flash loan, the
  -- referrer's part of a fee being kept or accumulated, the stamping of the limits, a change of neither the
  -- liquidity nor the shares, and a repayment of a loan or of a flash loan, where the debt that is repaid
  -- is part of the pool's. The socializing of losses is not one.
  pub PoolStep-VaultStep :
      {r r' : Reserve} {a b : Vault}
      → PoolStep r r'
      → IsVault r a
      → 0 < a.shares
      → IsVault r' b
      → VaultStep a b
  PoolStep-VaultStep {r} {r'} {a} {b} (refreshes clock price bps le e) before pos after =
      earned r r' a b before after (
        refresh_reserve_lem laws r r' clock price bps a.value b.value le e before.value_eq
          after.value_eq)
  PoolStep-VaultStep {r} {r'} {a} {b} (deposits clock n res e) before pos after =
      let (fair, v_eq, s_eq, _, _) =
        deposit_reserve_liquidity_lem laws r r' clock n a.value b.value res before.value_eq
          (rw before.shares_eq pos) e after.value_eq in
      mints (res.liquidity_amount * one) res.collateral_amount v_eq
        (sym after.shares_eq ∙ s_eq ∙ ap (λ x. x + res.collateral_amount) before.shares_eq)
        (rw before.shares_eq at fair)
  PoolStep-VaultStep {r} {r'} {a} {b} (redeems n out clock asked e) before pos after =
      let (v_eq, s_eq, fair) =
        redeem_reserve_collateral_lem laws r r' n out clock asked a.value b.value before.value_eq
          (rw before.shares_eq pos) e after.value_eq in
      burns (out * one) n v_eq (sym before.shares_eq ∙ s_eq ∙ ap (λ x. x + n) after.shares_eq)
        (rw (before.shares_eq, after.shares_eq) at fair)
  PoolStep-VaultStep {r} {r'} {a} {b} (pays_fees slot out e) before pos after =
      let (same, kept) =
        redeem_reserve_fees_lem laws r r' slot out a.value b.value e before.value_eq
          after.value_eq in
      earned r r' a b before after (omega arith, kept)
  PoolStep-VaultStep {r} {r'} {a} {b} (lends o o' key f i e) before pos after =
      let (more, _, _, kept) =
        enter_debt_lem laws r r' o o' key f i a.value b.value e before.value_eq after.value_eq in
      earned r r' a b before after (omega arith, kept)
  PoolStep-VaultStep {r} {r'} {a} {b} (collects o o' i n owed res terms le e) before pos after =
      let (more, _, _, kept) =
        settle_debt_lem laws r r' o o' i n owed a.value b.value res terms le e before.value_eq
          after.value_eq in
      earned r r' a b before after (more, kept)
  PoolStep-VaultStep {r} {r'} {a} {b} (flash_lends n e) before pos after =
      let (same, _, _, kept) =
        flash_borrow_lem laws r r' n a.value b.value e before.value_eq after.value_eq in
      earned r r' a b before after (omega arith, kept)
  PoolStep-VaultStep {r} {r'} {a} {b}
        (flash_collects market n timestamp total fee state state' le e) before pos after =
      let (same, _, _, _, kept) =
        flash_repay_lem laws market r r' n timestamp total fee a.value b.value state state' le e
          before.value_eq after.value_eq in
      earned r r' a b before after (omega arith, kept)
  PoolStep-VaultStep {r} {r'} {a} {b} (keeps_fee market fee state state' e) before pos after =
      let (same, kept) =
        keep_referrer_fee_lem laws market r r' state state' fee a.value b.value e before.value_eq
          after.value_eq in
      earned r r' a b before after (omega arith, kept)
  PoolStep-VaultStep {r} {r'} {a} {b}
        (accumulates derive key referrer bps elapsed owed previous referred pass pass' e) before pos
        after =
      let (same, kept) =
        accumulate_referrer_fees_lem laws derive key r r' referrer bps elapsed owed previous
          referred pass pass' a.value b.value e before.value_eq after.value_eq in
      earned r r' a b before after (omega arith, kept)
  PoolStep-VaultStep {r} {r'} {a} {b} (pays_referrer slot out state state' e) before pos after =
      let (same, kept) =
        withdraw_reserve_referrer_fees_lem laws r r' slot out state state' a.value b.value e
          before.value_eq after.value_eq in
      earned r r' a b before after (omega arith, kept)
  PoolStep-VaultStep {r} {r'} {a} {b} (stamps timestamp e) before pos after =
      let (same, kept) =
        stamps_lem laws r r' timestamp a.value b.value e before.value_eq after.value_eq in
      earned r r' a b before after (omega arith, kept)
  PoolStep-VaultStep {r} {r'} {a} {b} (changes same_l same_c) before pos after =
      let same : a.value ≡ b.value =
        ok_injective (sym before.value_eq ∙ sym (ap total_supply same_l) ∙ after.value_eq) in
      earned r r' a b before after (omega arith, same_c)

  -- After any sequence of refreshes, deposits, redemptions, withdrawals of the protocol's and the referrers'
  -- fees, loans, repayments, flash loans, referrer's fees kept and accumulated, stampings of the limits and
  -- changes of neither the liquidity nor the shares, no depositor's share is worth less than before it: v / s before
  -- is at most v' / s' after. At each step shares are out, the total supply can be computed, the take rate is
  -- at most 100 % where interest accrues, and what is repaid is part of the pool's debt. The socializing of
  -- losses is not among the steps.
  pub Reach-IsUndiluted :
      {start : Reserve} {a : Vault} {r : Reserve} {b : Vault} → Reach start a r b → IsUndiluted a b
  Reach-IsUndiluted stays = omega arith
  Reach-IsUndiluted {a = a} (goes_on {b = b} {b' = b'} before pos at_b step at_b') =
      trans-IsUndiluted a b b' pos (Reach-IsUndiluted before)
        (VaultStep-IsUndiluted (PoolStep-VaultStep step at_b pos at_b'))
