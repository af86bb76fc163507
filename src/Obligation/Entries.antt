-- ===== src/Obligation/Entries.antt =====
-- The methods of `Obligation` (state/obligation.rs) that find, add and remove an entry.
use kamino_lending.Base.{
  Bool, LendingError, Option, Result, err, false, get_elem?, if◌then◌else◌, none, not, ok, ok_or,
  position, set, some, true, u8_max, unwrap, ℕ, ◌==◌, ◌>>=◌,
}
use kamino_lending.Fraction.{BigFraction}
use kamino_lending.Obligation.Positions.{
  is_collateral_active, is_liquidity_active, new_obligation_collateral, new_obligation_liquidity,
  withdraw,
}
use kamino_lending.Obligation.State.{
  Obligation, WithdrawResult, active_borrows_empty, active_deposits_empty, tier_byte,
}
use kamino_lending.Reserve.{AssetTier, Pubkey}

unfoldable pub position_of_collateral_in_deposits : Obligation → Pubkey → Result ℕ
unfolding active_deposits_empty
position_of_collateral_in_deposits o reserve =
    if active_deposits_empty o
    then err LendingError.obligation_deposits_empty
    else ok_or (position (λ t. t.deposit_reserve == reserve) o.deposits)
        LendingError.invalid_obligation_collateral

unfoldable pub find_liquidity_index_in_borrows : Obligation → Pubkey → Option ℕ
find_liquidity_index_in_borrows o reserve = position (λ t. t.borrow_reserve == reserve) o.borrows

-- `find_liquidity_in_borrows` and its variant that can be written through: the index.
unfoldable pub find_liquidity_in_borrows : Obligation → Pubkey → Result ℕ
unfolding active_borrows_empty find_liquidity_index_in_borrows
find_liquidity_in_borrows o reserve =
    if active_borrows_empty o
    then err LendingError.obligation_borrows_empty
    else ok_or (find_liquidity_index_in_borrows o reserve) LendingError.invalid_obligation_liquidity

-- A free slot is taken for the reserve, or the obligation is full.
unfoldable pub add_collateral :
    Obligation → Pubkey → AssetTier → Option ℕ → Result (Obligation × ℕ × Bool)
unfolding new_obligation_collateral tier_byte
add_collateral o reserve tier none = err LendingError.obligation_reserve_limit
add_collateral o reserve tier (some i) = ok (
  record o {
    deposits = set o.deposits i (new_obligation_collateral reserve);
    deposits_asset_tiers = set o.deposits_asset_tiers i (tier_byte tier);
  },
  i,
  true,
)

-- The index stands for the reference that is returned, the flag for a new entry.
unfoldable pub find_or_add_collateral_to_deposits :
    Obligation → Pubkey → AssetTier → Result (Obligation × ℕ × Bool)
unfolding add_collateral is_collateral_active
find_or_add_collateral_to_deposits o reserve tier =
    elim (position (λ t. t.deposit_reserve == reserve) o.deposits) [
      | some i ↦ ok (o, i, false)
      | none ↦
          add_collateral o reserve tier (position (λ t. not (is_collateral_active t)) o.deposits)
    ]

unfoldable pub add_liquidity :
    Obligation → Pubkey → BigFraction → AssetTier → Option ℕ → Result (Obligation × ℕ)
unfolding new_obligation_liquidity tier_byte
add_liquidity o reserve rate tier none = err LendingError.obligation_reserve_limit
add_liquidity o reserve rate tier (some i) = ok (
  record o {
    borrows = set o.borrows i (new_obligation_liquidity reserve rate);
    borrows_asset_tiers = set o.borrows_asset_tiers i (tier_byte tier);
  },
  i,
)

unfoldable pub find_or_add_liquidity_to_borrows :
    Obligation → Pubkey → BigFraction → AssetTier → Result (Obligation × ℕ)
unfolding add_liquidity is_liquidity_active find_liquidity_index_in_borrows
find_or_add_liquidity_to_borrows o reserve rate tier =
    elim (find_liquidity_index_in_borrows o reserve) [
      | some i ↦ ok (o, i)
      | none ↦
          add_liquidity o reserve rate tier (position (λ t. not (is_liquidity_active t)) o.borrows)
    ]

-- `Obligation::withdraw`
unfoldable pub withdraw_collateral : Obligation → ℕ → ℕ → Result (Obligation × WithdrawResult)
unfolding withdraw new_obligation_collateral
withdraw_collateral o withdraw_amount i = do
  t ← unwrap (get_elem? o.deposits i)
  (if withdraw_amount == t.deposited_amount
      then ok (
        record o {
          deposits = set o.deposits i (new_obligation_collateral 0);
          deposits_asset_tiers = set o.deposits_asset_tiers i u8_max;
        },
        WithdrawResult.full,
      )
      else (withdraw t withdraw_amount >>= λ t'.
          ok (record o { deposits = set o.deposits i t' }, WithdrawResult.partial)))
