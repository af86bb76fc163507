-- ===== src/Operations/Tiers.antt =====
-- The asset tiers of an obligation: `get_deposit_asset_tiers` and `get_borrows_asset_tiers`
-- (state/obligation.rs), and `validate_obligation_asset_tiers` (lending_operations.rs).
use kamino_lending.Base.{
  Bool, LendingError, List, Result, [], count, false, guard, length, ltb, not, ok, panic, true,
  unwrap, ℕ, ◌&&◌, ◌==◌, ◌>>=◌, ◌>>◌, ◌∷◌,
}
use kamino_lending.Reserve.{AssetTier, asset_tier_of}
use kamino_lending.Obligation.{
  Obligation, ObligationCollateral, ObligationLiquidity, is_collateral_active, is_liquidity_active,
  tier_byte,
}

abbrev pub is_tier : AssetTier → AssetTier → Bool
is_tier a b = tier_byte a == tier_byte b

-- The tiers of the entries that pass the test; each entry has the byte at its index.
unfoldable pub tiers_of {ℓ} : {A : Type ℓ} → (A → Bool) → List A → List ℕ → Result (List AssetTier)
tiers_of counts [] bytes = ok []
tiers_of counts (t ∷ ts) [] = elim (counts t) [ true ↦ panic | false ↦ tiers_of counts ts [] ]
tiers_of counts (t ∷ ts) (byte ∷ bytes) = elim (counts t) [
  | true ↦ unwrap (asset_tier_of byte) >>= λ tier.
      tiers_of counts ts bytes >>= λ tiers. ok (tier ∷ tiers)
  | false ↦ tiers_of counts ts bytes
]

abbrev pub counts_as_deposit : ObligationCollateral → Bool
counts_as_deposit t = is_collateral_active t && ltb 0 t.deposited_amount

abbrev pub counts_as_borrow : ObligationLiquidity → Bool
counts_as_borrow t = is_liquidity_active t && ltb 0 t.borrowed_amount_sf

unfoldable pub get_deposit_asset_tiers : Obligation → Result (List AssetTier)
unfolding tiers_of
get_deposit_asset_tiers o = tiers_of counts_as_deposit o.deposits o.deposits_asset_tiers

unfoldable pub get_borrows_asset_tiers : Obligation → Result (List AssetTier)
unfolding tiers_of
get_borrows_asset_tiers o = tiers_of counts_as_borrow o.borrows o.borrows_asset_tiers

-- The conditions on the tiers of the deposits and of the borrows.
unfoldable pub validate_tiers : List AssetTier → List AssetTier → Result (Unit {0})
validate_tiers deposit_tiers borrow_tiers = do
  let isolated_deposits = count (is_tier AssetTier.isolated_collateral) deposit_tiers
  let isolated_borrows = count (is_tier AssetTier.isolated_debt) borrow_tiers
  guard (not (ltb 1 isolated_deposits)) LendingError.isolated_asset_tier_violation
  guard (not (ltb 1 isolated_borrows)) LendingError.isolated_asset_tier_violation
  guard (not (ltb 0 isolated_deposits && ltb 0 isolated_borrows))
      LendingError.isolated_asset_tier_violation
  guard (not (ltb 1 (length deposit_tiers) && ltb 0 isolated_deposits))
      LendingError.isolated_asset_tier_violation
  guard (not (ltb 1 (length borrow_tiers) && ltb 0 isolated_borrows))
      LendingError.isolated_asset_tier_violation
  guard (not (ltb 0 (count (is_tier AssetTier.isolated_debt) deposit_tiers)))
      LendingError.isolated_asset_tier_violation
  guard (not (ltb 0 (count (is_tier AssetTier.isolated_collateral) borrow_tiers)))
      LendingError.isolated_asset_tier_violation

unfoldable pub validate_obligation_asset_tiers : Obligation → Result (Unit {0})
unfolding get_deposit_asset_tiers get_borrows_asset_tiers validate_tiers
validate_obligation_asset_tiers o = do
  deposit_tiers ← get_deposit_asset_tiers o
  borrow_tiers ← get_borrows_asset_tiers o
  validate_tiers deposit_tiers borrow_tiers
