-- ===== src/Obligation/Removals.antt =====
-- What withdrawing and repaying take from the entries of an obligation (state/obligation.rs).
use kamino_lending.Crates.{Crates, IsExact}
use kamino_lending.Crates.Exact.{Crates-eq-exact}
use kamino_lending.Obligation.Values.{repay_borrow}
use kamino_lending.Base.{
  >>=-eq-ok, Bool-cases, arith, eq_false→ne, eq_true→eq, get_elem?, get_elem?-set, if_false,
  if_true, inl, inr, ok, refl, set, some, unwrap, unwrap-eq-ok, ℕ, ◌+◌, ◌-◌, ◌<◌, ◌==◌, ◌≡◌, ◌≤◌,
  ◌⊎◌,
}
use kamino_lending.Obligation.Positions.{
  ObligationCollateral, ObligationLiquidity, new_obligation_collateral, new_obligation_liquidity,
  repay, withdraw,
}
use kamino_lending.Obligation.State.{Obligation, WithdrawResult}
use kamino_lending.Obligation.Entries.{withdraw_collateral}

withdraw_eq :
    (t t' : ObligationCollateral) (n : ℕ)
    → withdraw t n ≡ ok t'
    → (n ≤ t.deposited_amount) × (t' ≡ record t { deposited_amount = t.deposited_amount - n })
unfolding withdraw
withdraw_eq t t' n e = ground arith

-- A withdrawal from an entry takes exactly its amount: all of it empties the slot and is reported as
-- full, less of it leaves the entry with the rest and is reported as partial.
pub withdraw_collateral_lem :
    (o o' : Obligation) (n i : ℕ) (result : WithdrawResult)
    → withdraw_collateral o n i ≡ ok (o', result)
    → (t : ObligationCollateral) × (t' : ObligationCollateral) × (get_elem? o.deposits i ≡ some t)
      × (get_elem? o'.deposits i ≡ some t')
      × (t'.deposited_amount + n ≡ t.deposited_amount)
      × ((result ≡ WithdrawResult.full) × (t' ≡ new_obligation_collateral 0)
          ⊎ (result ≡ WithdrawResult.partial)
            × (0 < t'.deposited_amount)
            × (t'.deposit_reserve ≡ t.deposit_reserve))
unfolding withdraw_collateral
withdraw_collateral_lem o o' n i result e =
    let (t, found, e₁) = >>=-eq-ok (unwrap (get_elem? o.deposits i)) _ e in
    let at_i = unwrap-eq-ok (get_elem? o.deposits i) t found in
    elim (Bool-cases (n == t.deposited_amount)) [
      | inl same ↦
          let e₂ = if_true _ same e₁ in
          let deposits_eq : o'.deposits ≡ set o.deposits i (new_obligation_collateral 0) = cc in
          (
            t,
            new_obligation_collateral 0,
            at_i,
            rw deposits_eq (get_elem?-set o.deposits i t (new_obligation_collateral 0) at_i),
            omega (arith, eq_true→eq n t.deposited_amount same),
            inl (cc, refl),
          )
      | inr some_left ↦
          let (t', taken, e₂) = >>=-eq-ok (withdraw t n) _ (if_false _ some_left e₁) in
          let (enough, t'_eq) = withdraw_eq t t' n taken in
          let deposits_eq : o'.deposits ≡ set o.deposits i t' = cc in
          (
            t,
            t',
            at_i,
            rw deposits_eq (get_elem?-set o.deposits i t t' at_i),
            rw t'_eq (omega (arith, enough)),
            inr (
              cc,
              rw t'_eq (omega (arith, enough, eq_false→ne n t.deposited_amount some_left)),
              rw t'_eq refl,
            ),
          )
    ]

module _ ⦃c : Crates⦄ (laws : IsExact c) where
  repay_eq :
      (t t' : ObligationLiquidity) (f : ℕ)
      → repay t f ≡ ok t'
      → (f ≤ t.borrowed_amount_sf)
        × (t' ≡ record t { borrowed_amount_sf = t.borrowed_amount_sf - f })
  unfolding repay
  repay_eq t t' f = rw (Crates-eq-exact c laws) (λ e. ground arith)

  -- A repayment settles exactly its amount, which is never more than the debt: what is left is the
  -- difference, and a debt that is settled in full frees the slot.
  pub repay_borrow_lem :
      (o o' : Obligation) (f i : ℕ)
      → repay_borrow o f i ≡ ok o'
      → (t : ObligationLiquidity) × (t' : ObligationLiquidity) × (get_elem? o.borrows i ≡ some t)
        × (get_elem? o'.borrows i ≡ some t')
        × (t'.borrowed_amount_sf + f ≡ t.borrowed_amount_sf)
        × ((t' ≡ new_obligation_liquidity 0 0)
            ⊎ (0 < t'.borrowed_amount_sf)
              × (t'.borrow_reserve ≡ t.borrow_reserve)
              × (t'.cumulative_borrow_rate_bsf ≡ t.cumulative_borrow_rate_bsf))
  unfolding repay_borrow new_obligation_liquidity
  repay_borrow_lem o o' f i e =
      let (t, found, e₁) = >>=-eq-ok (unwrap (get_elem? o.borrows i)) _ e in
      let at_i = unwrap-eq-ok (get_elem? o.borrows i) t found in
      let freed = new_obligation_liquidity 0 0 in
      elim (Bool-cases (f == t.borrowed_amount_sf)) [
        | inl same ↦
            let e₂ = if_true _ same e₁ in
            let borrows_eq : o'.borrows ≡ set o.borrows i freed = cc in
            (
              t,
              freed,
              at_i,
              rw borrows_eq (get_elem?-set o.borrows i t freed at_i),
              omega (arith, eq_true→eq f t.borrowed_amount_sf same),
              inl refl,
            )
        | inr some_left ↦
            let (t', taken, e₂) = >>=-eq-ok (repay t f) _ (if_false _ some_left e₁) in
            let (enough, t'_eq) = repay_eq t t' f taken in
            let borrows_eq : o'.borrows ≡ set o.borrows i t' = cc in
            (
              t,
              t',
              at_i,
              rw borrows_eq (get_elem?-set o.borrows i t t' at_i),
              rw t'_eq (omega (arith, enough)),
              inr (
                rw t'_eq (omega (arith, enough, eq_false→ne f t.borrowed_amount_sf some_left)),
                rw t'_eq refl,
                rw t'_eq refl,
              ),
            )
      ]
