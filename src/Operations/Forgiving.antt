-- ===== src/Operations/Forgiving.antt =====
-- What socializing a loss costs a pool (lending_operations.rs).
use kamino_lending.Base.{
  >>=-eq-ok, Bool-cases, LendingError, List, Result, after_guard, ap, arith, if_false, if_true, inl,
  inr, leb, min, not, ok, ok_injective, sym, true, u64_max, ℕ, ◌&&◌, ◌*◌, ◌+◌, ◌-◌, ◌<◌, ◌==◌, ◌∙◌,
  ◌≡◌, ◌≤◌, ◌⊎◌,
}
use kamino_lending.Crates.{Crates, IsExact, one, step_checked}
use kamino_lending.Fraction.{to_ceil}
use kamino_lending.LastUpdate.{all_checks}
use kamino_lending.Reserve.{Pubkey, Reserve, ReserveLiquidity, forgive_debt, total_supply}
use kamino_lending.Reserve.Accounting.{forgive_debt_loses}
use kamino_lending.LendingMarket.{elevation_group_none}
use kamino_lending.Obligation.{
  Obligation, active_borrows_empty, active_deposits_empty, find_liquidity_in_borrows, repay_borrow,
  update_has_debt,
}
use kamino_lending.Operations.Accounts.{Accounts, at, for_active_deposits, put}
use kamino_lending.Operations.Checks.{require_fresh}
use kamino_lending.Operations.Losses.{deprecate_if_lost, drop_orders_without_debt, socialize_loss}
use kamino_lending.Operations.Loans.{stale_obligation}
use kamino_lending.Operations.Pool.{marked_stale}
use kamino_lending.Operations.Trackers.{
  track_repay, track_repay_outside, update_elevation_group_debt_trackers_on_repay,
}

put_same : (accounts : Accounts) (key : Pubkey) (r : Reserve) → put accounts key r key ≡ r
put_same accounts key r = ground arith

finish_lem :
    (accounts accounts' : Accounts) (key : Pubkey) (left : Reserve) (o o' : Obligation) (g f : ℕ)
    → ◌≡◌ {A = Result (Accounts × Obligation × ℕ)}
        (ok (put accounts key left, o, g))
        (ok (accounts', o', f))
    → (g ≡ f) × (accounts' key ≡ left)
finish_lem accounts accounts' key left o o' g f e =
    let result = ok_injective e in
    (ap (λ p. p.2) result, sym (ap (λ p. p.0 key) result) ∙ put_same accounts key left)

outside_lem :
    (amount : ℕ) (o o' : Obligation) (i : ℕ) (r r' : Reserve)
    → track_repay_outside amount o i r ≡ ok (o', r')
    → (r'.liquidity ≡ r.liquidity) × (r'.collateral ≡ r.collateral) × (r'.version ≡ r.version)
unfolding track_repay_outside
outside_lem amount o o' i r r' e =
    let (t, _, e₁) = >>=-eq-ok (at o.borrows i) _ e in
    let r_eq = sym (ap (λ p. p.1) (ok_injective e₁)) in
    (ap (λ x. x.liquidity) r_eq, ap (λ x. x.collateral) r_eq, ap (λ x. x.version) r_eq)

-- Counting a repayment touches neither the liquidity nor the shares of the reserve.
trackers_lem :
    (amount : ℕ) (o o' : Obligation) (i : ℕ) (key : Pubkey) (r r' : Reserve)
    (deposit_keys : List Pubkey) (accounts accounts' : Accounts)
    → update_elevation_group_debt_trackers_on_repay amount o i key r deposit_keys accounts
      ≡ ok (o', r', accounts')
    → (r'.liquidity ≡ r.liquidity) × (r'.collateral ≡ r.collateral) × (r'.version ≡ r.version)
unfolding update_elevation_group_debt_trackers_on_repay
trackers_lem amount o o' i key r r' deposit_keys accounts accounts' e =
    elim (Bool-cases (not (o.elevation_group == elevation_group_none))) [
      | inl grouped ↦
          let (tracked, _, e₁) =
            >>=-eq-ok
              (for_active_deposits (track_repay amount (o.elevation_group - 1) key) o.deposits
                deposit_keys accounts)
              _ (if_true _ grouped e) in
          let r_eq = sym (ap (λ p. p.1) (ok_injective e₁)) in
          (ap (λ x. x.liquidity) r_eq, ap (λ x. x.collateral) r_eq, ap (λ x. x.version) r_eq)
      | inr free ↦
          let (tracked, tracked_eq, e₁) =
            >>=-eq-ok (track_repay_outside amount o i r) _ (if_false _ free e) in
          let r_eq = sym (ap (λ p. p.1) (ok_injective e₁)) in
          let (l, s, version) = outside_lem amount o tracked.0 i r tracked.1 tracked_eq in
          (
            ap (λ x. x.liquidity) r_eq ∙ l,
            ap (λ x. x.collateral) r_eq ∙ s,
            ap (λ x. x.version) r_eq ∙ version,
          )
    ]

module _ ⦃c : Crates⦄ (laws : IsExact c) where
  deprecated_lem :
      (r r' : Reserve) (f v : ℕ)
      → total_supply r.liquidity ≡ ok v
      → deprecate_if_lost r f ≡ ok r'
      → (r'.liquidity ≡ r.liquidity)
        × (r'.collateral ≡ r.collateral)
        × ((f < v) ⊎ (r'.version ≡ u64_max))
  unfolding deprecate_if_lost
  deprecated_lem r r' f v h e =
      let (supply, supply_eq, e₁) = >>=-eq-ok (total_supply r.liquidity) _ e in
      let same : supply ≡ v = ok_injective (sym supply_eq ∙ h) in
      elim (Bool-cases (leb supply f)) [
        | inl lost ↦
            let r_eq : r' ≡ record r { version = u64_max } = sym (ok_injective (rw lost at e₁)) in
            (
              ap (λ x. x.liquidity) r_eq,
              ap (λ x. x.collateral) r_eq,
              inr (ap (λ x. x.version) r_eq),
            )
        | inr left ↦
            let r_eq : r' ≡ r = sym (ok_injective (rw left at e₁)) in
            let less : f < supply = ground arith in
            (
              ap (λ x. x.liquidity) r_eq,
              ap (λ x. x.collateral) r_eq,
              inl (omega (arith, less, same)),
            )
      ]

  -- The books of the reserve, from the deprecation to the forgiven debt.
  books_lem :
      (r r₁ r₂ r' : Reserve) (l : ReserveLiquidity) (g v v' : ℕ)
      → total_supply r.liquidity ≡ ok v
      → deprecate_if_lost r g ≡ ok r₁
      → (r₂.liquidity ≡ r₁.liquidity) × (r₂.collateral ≡ r₁.collateral) × (r₂.version ≡ r₁.version)
      → forgive_debt r₂.liquidity g ≡ ok l
      → r' ≡ marked_stale (record r₂ { liquidity = l })
      → total_supply r'.liquidity ≡ ok v'
      → (v ≡ v' + g) × (r'.collateral ≡ r.collateral) × ((0 < v') ⊎ (r'.version ≡ u64_max))
  books_lem r r₁ r₂ r' l g v v' h first kept forgiven there h' =
      let (l₁, s₁, lost) = deprecated_lem r r₁ g v h first in
      let (l₂, s₂, version) = kept in
      let at_r₂ : total_supply r₂.liquidity ≡ ok v = ap total_supply (l₂ ∙ l₁) ∙ h in
      let at_l : total_supply l ≡ ok v' = sym (ap (λ x. total_supply x.liquidity) there) ∙ h' in
      let (_, value) = forgive_debt_loses laws r₂.liquidity l g v v' forgiven at_r₂ at_l in
      (
        value,
        ap (λ x. x.collateral) there ∙ s₂ ∙ s₁,
        (elim lost [
          | inl more ↦ inl (omega (arith, more, value))
          | inr gone ↦ inr (ap (λ x. x.version) there ∙ version ∙ gone)
        ]),
      )

  -- A loss is only socialized for an obligation that has no deposits, and for no more than is asked. It
  -- lowers the value of the pool by exactly what is forgiven and leaves its shares; and a pool that is left
  -- with no value is deprecated. The total supply can be computed before and after.
  pub socialize_loss_lem :
      (accounts accounts' : Accounts) (key : Pubkey) (o o' : Obligation) (n slot : ℕ)
      (deposit_keys : List Pubkey) (f v v' : ℕ)
      → socialize_loss accounts key o n slot deposit_keys ≡ ok (accounts', o', f)
      → total_supply (accounts key).liquidity ≡ ok v
      → total_supply (accounts' key).liquidity ≡ ok v'
      → (active_deposits_empty o ≡ true)
        × (f ≤ n * one)
        × (v ≡ v' + f)
        × ((accounts' key).collateral ≡ (accounts key).collateral)
        × ((0 < v') ⊎ ((accounts' key).version ≡ u64_max))
  unfolding socialize_loss
  socialize_loss_lem accounts accounts' key o o' n slot deposit_keys f v v' e h h' =
      let r = accounts key in
      let (_, _, e₁) =
        >>=-eq-ok (require_fresh r.last_update slot all_checks LendingError.reserve_stale) _ e in
      let (_, _, e₂) =
        >>=-eq-ok (require_fresh o.last_update slot all_checks LendingError.obligation_stale) _
          e₁ in
      let (empty, e₃) =
        after_guard {b = active_deposits_empty o}
          LendingError.cannot_socialize_obligation_with_collateral _ e₂ in
      let (_, e₄) =
        after_guard {b = not (active_deposits_empty o && active_borrows_empty o)}
          LendingError.obligation_empty _ e₃ in
      let (i, _, e₅) = >>=-eq-ok (find_liquidity_in_borrows o key) _ e₄ in
      let (t, _, e₆) = >>=-eq-ok (at o.borrows i) _ e₅ in
      let (_, e₇) = step_checked _ (laws.from_num_lem n) e₆ in
      let g = min (n * one) t.borrowed_amount_sf in
      let (r₁, r₁_eq, e₈) = >>=-eq-ok (deprecate_if_lost r g) _ e₇ in
      let (amount, _, e₉) = >>=-eq-ok (to_ceil u64_max g) _ e₈ in
      let (tracked, tracked_eq, e₁₀) =
        >>=-eq-ok
          (update_elevation_group_debt_trackers_on_repay amount o i key r₁ deposit_keys accounts) _
          e₉ in
      let (l, l_eq, e₁₁) = >>=-eq-ok (forgive_debt tracked.1.liquidity g) _ e₁₀ in
      let (repaid, _, e₁₂) = >>=-eq-ok (repay_borrow tracked.0 g i) _ e₁₁ in
      let (f_eq, there) =
        finish_lem tracked.2 accounts' key (marked_stale (record tracked.1 { liquidity = l }))
          (stale_obligation (drop_orders_without_debt (update_has_debt repaid))) o' g f e₁₂ in
      let kept =
        trackers_lem amount o tracked.0 i key r₁ tracked.1 deposit_keys accounts tracked.2
          tracked_eq in
      let (value, same, lost) =
        books_lem r r₁ tracked.1 (accounts' key) l g v v' h r₁_eq kept l_eq there h' in
      (empty, omega (arith, f_eq), omega (arith, value, f_eq), same, lost)
