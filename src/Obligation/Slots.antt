-- ===== src/Obligation/Slots.antt =====
-- Where the deposits and borrows of an obligation (state/obligation.rs) stand: what finding, adding,
-- withdrawing and repaying do to the entries.
use kamino_lending.Base.{
  Bool, Bool-cases, List, Option, arith, count, count-set, false, get_elem?, get_elem?-set, inl,
  inr, length, length-set, none, not, ok, position, position-eq-none, position-eq-some, refl, set,
  some, ℕ, ◌<◌, ◌==◌, ◌≡◌, ◌≤◌,
}
use kamino_lending.Obligation.Positions.{
  ObligationCollateral, ObligationLiquidity, is_collateral_active, is_liquidity_active,
  new_obligation_collateral, new_obligation_liquidity,
}
use kamino_lending.Obligation.State.{Obligation}
use kamino_lending.Obligation.Entries.{
  add_collateral, add_liquidity, find_liquidity_index_in_borrows,
  find_or_add_collateral_to_deposits, find_or_add_liquidity_to_borrows,
}
use kamino_lending.Reserve.{AssetTier, Pubkey}

-- The number of entries for a reserve.
abbrev pub deposits_in : Pubkey → Obligation → ℕ
deposits_in reserve o = count (λ t. t.deposit_reserve == reserve) o.deposits

abbrev pub borrows_in : Pubkey → Obligation → ℕ
borrows_in reserve o = count (λ t. t.borrow_reserve == reserve) o.borrows

module _ {A : Type 0} (key : A → ℕ) where
  -- A new entry in a free slot, for a reserve that has none.
  claim_lem :
      (xs : List A) (fresh : A) (i r : ℕ)
      → 0 < r
      → position (λ t. key t == key fresh) xs ≡ none
      → position (λ t. not (not (key t == 0))) xs ≡ some i
      → count (λ t. key t == r) xs ≤ 1
      → (get_elem? (set xs i fresh) i ≡ some fresh)
        × (length (set xs i fresh) ≡ length xs)
        × (count (λ t. key t == r) (set xs i fresh) ≤ 1)
  claim_lem xs fresh i r pos absent free single =
      let (old, at_i, is_free) = position-eq-some (λ t. not (not (key t == 0))) xs i free in
      let old_free : key old ≡ 0 = ground arith in
      let none_yet = position-eq-none (λ t. key t == key fresh) xs absent in
      let counted = count-set (λ t. key t == r) xs i old fresh at_i in
      (
        get_elem?-set xs i old fresh at_i,
        length-set xs i fresh,
        elim (Bool-cases (key fresh == r)) [
          | inl same ↦
              let r_eq : key fresh ≡ r = ground arith in
              let before : count (λ t. key t == r) xs ≡ 0 = rw r_eq at none_yet in
              omega (arith, rw (same, before) at counted)
          | inr other ↦ omega (arith, rw other at counted, single)
        ],
      )

added_liquidity :
    (o o' : Obligation) (reserve rate : ℕ) (tier : AssetTier) (i r : ℕ) (p : Option ℕ)
    → 0 < r
    → borrows_in r o ≤ 1
    → position (λ t. t.borrow_reserve == reserve) o.borrows ≡ none
    → position (λ t. not (not (t.borrow_reserve == 0))) o.borrows ≡ p
    → add_liquidity o reserve rate tier p ≡ ok (o', i)
    → (t : ObligationLiquidity) × (get_elem? o'.borrows i ≡ some t)
      × (t.borrow_reserve ≡ reserve)
      × (length o'.borrows ≡ length o.borrows)
      × (borrows_in r o' ≤ 1)
unfolding add_liquidity new_obligation_liquidity
added_liquidity o o' reserve rate tier i r none pos single absent free e = cc
added_liquidity o o' reserve rate tier i r (some k) pos single absent free e =
    let fresh = new_obligation_liquidity reserve rate in
    let (at_k, len, once) =
      claim_lem (λ t. t.borrow_reserve) o.borrows fresh k r pos absent free single in
    let k_eq : i ≡ k = cc in
    let borrows_eq : o'.borrows ≡ set o.borrows k fresh = cc in
    (fresh, rw (k_eq, borrows_eq) at_k, refl, rw borrows_eq len, rw borrows_eq once)

located_liquidity :
    (o o' : Obligation) (reserve rate : ℕ) (tier : AssetTier) (i r : ℕ) (p : Option ℕ)
    → 0 < r
    → borrows_in r o ≤ 1
    → position (λ t. t.borrow_reserve == reserve) o.borrows ≡ p
    → (elim p [
      | some k ↦ ok (o, k)
      | none ↦
          add_liquidity o reserve rate tier
            (position (λ t. not (not (t.borrow_reserve == 0))) o.borrows)
    ])
      ≡ ok (o', i)
    → (t : ObligationLiquidity) × (get_elem? o'.borrows i ≡ some t)
      × (t.borrow_reserve ≡ reserve)
      × (length o'.borrows ≡ length o.borrows)
      × (borrows_in r o' ≤ 1)
located_liquidity o o' reserve rate tier i r none pos single absent e =
    added_liquidity o o' reserve rate tier i r _ pos single absent refl e
located_liquidity o o' reserve rate tier i r (some k) pos single found e =
    let (t, at_k, is_key) = position-eq-some (λ t. t.borrow_reserve == reserve) o.borrows k found in
    let k_eq : i ≡ k = cc in
    let o_eq : o' ≡ o = cc in (t, rw (k_eq, o_eq) at_k, ground arith, rw o_eq refl, rw o_eq single)

-- Finding or adding a borrow gives the index of an entry for the reserve and keeps the number of
-- slots, and a reserve `r` with at most one entry still has at most one.
pub find_or_add_liquidity_to_borrows_lem :
    (o o' : Obligation) (reserve rate : ℕ) (tier : AssetTier) (i r : ℕ)
    → 0 < r
    → borrows_in r o ≤ 1
    → find_or_add_liquidity_to_borrows o reserve rate tier ≡ ok (o', i)
    → (t : ObligationLiquidity) × (get_elem? o'.borrows i ≡ some t)
      × (t.borrow_reserve ≡ reserve)
      × (length o'.borrows ≡ length o.borrows)
      × (borrows_in r o' ≤ 1)
unfolding find_or_add_liquidity_to_borrows find_liquidity_index_in_borrows is_liquidity_active
find_or_add_liquidity_to_borrows_lem o o' reserve rate tier i r pos single e =
    located_liquidity o o' reserve rate tier i r _ pos single refl e

added_collateral :
    (o o' : Obligation) (reserve : ℕ) (tier : AssetTier) (i r : ℕ) (new : Bool) (p : Option ℕ)
    → 0 < r
    → deposits_in r o ≤ 1
    → position (λ t. t.deposit_reserve == reserve) o.deposits ≡ none
    → position (λ t. not (not (t.deposit_reserve == 0))) o.deposits ≡ p
    → add_collateral o reserve tier p ≡ ok (o', i, new)
    → (t : ObligationCollateral) × (get_elem? o'.deposits i ≡ some t)
      × (t.deposit_reserve ≡ reserve)
      × (length o'.deposits ≡ length o.deposits)
      × (deposits_in r o' ≤ 1)
unfolding add_collateral new_obligation_collateral
added_collateral o o' reserve tier i r new none pos single absent free e = cc
added_collateral o o' reserve tier i r new (some k) pos single absent free e =
    let fresh = new_obligation_collateral reserve in
    let (at_k, len, once) =
      claim_lem (λ t. t.deposit_reserve) o.deposits fresh k r pos absent free single in
    let k_eq : i ≡ k = cc in
    let deposits_eq : o'.deposits ≡ set o.deposits k fresh = cc in
    (fresh, rw (k_eq, deposits_eq) at_k, refl, rw deposits_eq len, rw deposits_eq once)

located_collateral :
    (o o' : Obligation) (reserve : ℕ) (tier : AssetTier) (i r : ℕ) (new : Bool) (p : Option ℕ)
    → 0 < r
    → deposits_in r o ≤ 1
    → position (λ t. t.deposit_reserve == reserve) o.deposits ≡ p
    → (elim p [
      | some k ↦ ok (o, k, false)
      | none ↦
          add_collateral o reserve tier
            (position (λ t. not (not (t.deposit_reserve == 0))) o.deposits)
    ])
      ≡ ok (o', i, new)
    → (t : ObligationCollateral) × (get_elem? o'.deposits i ≡ some t)
      × (t.deposit_reserve ≡ reserve)
      × (length o'.deposits ≡ length o.deposits)
      × (deposits_in r o' ≤ 1)
located_collateral o o' reserve tier i r new none pos single absent e =
    added_collateral o o' reserve tier i r new _ pos single absent refl e
located_collateral o o' reserve tier i r new (some k) pos single found e =
    let (t, at_k, is_key) =
      position-eq-some (λ t. t.deposit_reserve == reserve) o.deposits k found in
    let k_eq : i ≡ k = cc in
    let o_eq : o' ≡ o = cc in (t, rw (k_eq, o_eq) at_k, ground arith, rw o_eq refl, rw o_eq single)

-- Finding or adding a deposit gives the index of an entry for the reserve and keeps the number of
-- slots, and a reserve `r` with at most one entry still has at most one.
pub find_or_add_collateral_to_deposits_lem :
    (o o' : Obligation) (reserve : ℕ) (tier : AssetTier) (i r : ℕ) (new : Bool)
    → 0 < r
    → deposits_in r o ≤ 1
    → find_or_add_collateral_to_deposits o reserve tier ≡ ok (o', i, new)
    → (t : ObligationCollateral) × (get_elem? o'.deposits i ≡ some t)
      × (t.deposit_reserve ≡ reserve)
      × (length o'.deposits ≡ length o.deposits)
      × (deposits_in r o' ≤ 1)
unfolding find_or_add_collateral_to_deposits is_collateral_active
find_or_add_collateral_to_deposits_lem o o' reserve tier i r new pos single e =
    located_collateral o o' reserve tier i r new _ pos single refl e
