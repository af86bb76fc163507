-- ===== src/Config/Items.antt =====
-- lending_market/config_items.rs: the checks on a value and the write of a field. What Borsh reads
-- from bytes is a parameter: a reader for each type of field.
use kamino_lending.Base.{
  Bool, LendingError, List, Option, Result, [], false, guard, leb, ltb, none, not, ok, panic, some,
  suc, true, unwrap, zero, ℕ, ◌&&◌, ◌==◌, ◌>>=◌, ◌>>◌, ◌∷◌,
}
use kamino_lending.Base.Int.{ltb_ℤ, pos, ℤ}
use kamino_lending.BorrowRateCurve.{BorrowRateCurve}
use kamino_lending.Reserve.{Pubkey, ReserveConfig, asset_tier_of, status_of}

-- The readers of the crate `borsh`. A read that fails is an error of the framework.
pub record Borsh : Type 0 where
  pub u8 : List ℕ → Option ℕ
  pub u16 : List ℕ → Option ℕ
  pub u64 : List ℕ → Option ℕ
  pub i64 : List ℕ → Option ℤ
  pub key : List ℕ → Option Pubkey
  pub bytes_32 : List ℕ → Option (List ℕ)
  pub chain : List ℕ → Option (List ℕ)
  pub groups : List ℕ → Option (List ℕ)
  pub limits : List ℕ → Option (List ℕ)
  pub curve : List ℕ → Option BorrowRateCurve
  pub config : List ℕ → Option ReserveConfig

unfoldable pub check_bool : ℕ → Result (Unit {0})
check_bool value = guard (not (ltb 1 value)) LendingError.invalid_flag

unfoldable pub check_not_zero : ℕ → Result (Unit {0})
check_not_zero value = guard (not (value == 0)) LendingError.invalid_config

unfoldable pub check_not_negative : ℤ → Result (Unit {0})
check_not_negative value = guard (not (ltb_ℤ value (pos 0))) LendingError.invalid_config

unfoldable pub check_in_range : ℕ → ℕ → ℕ → Result (Unit {0})
check_in_range low high value = guard (leb low value && leb value high) LendingError.invalid_config

unfoldable pub check_valid_pct : ℕ → Result (Unit {0})
unfolding check_in_range
check_valid_pct value = check_in_range 0 100 value

-- FULL_BPS is 10,000.
unfoldable pub check_valid_bps : ℕ → Result (Unit {0})
unfolding check_in_range
check_valid_bps value = check_in_range 0 10_000 value

unfoldable pub check_gte : ℕ → ℕ → Result (Unit {0})
check_gte least value = guard (not (ltb value least)) LendingError.invalid_config

unfoldable pub check_lte : ℕ → ℕ → Result (Unit {0})
check_lte most value = guard (not (ltb most value)) LendingError.invalid_config

abbrev is_represented {ℓ} : {A : Type ℓ} → Option A → Bool
is_represented none = false
is_represented (some a) = true

-- `check_valid_u8_enum` at the two enumerations that are configured.
unfoldable pub check_asset_tier : ℕ → Result (Unit {0})
check_asset_tier repr = guard (is_represented (asset_tier_of repr)) LendingError.invalid_config

unfoldable pub check_status : ℕ → Result (Unit {0})
check_status repr = guard (is_represented (status_of repr)) LendingError.invalid_config

unfoldable pub accept_anything {ℓ} : {T : Type ℓ} → T → Result (Unit {0})
accept_anything value = ok tt

-- `ConfigItemUpdater::set`: the value is read and checked, and then written to its target.
unfoldable pub set_item {ℓ κ} :
    {T : Type ℓ} {H : Type κ}
    → (List ℕ → Option T)
    → (T → Result (Unit {0}))
    → List ℕ
    → (T → H)
    → Result H
set_item read validator source write = do
  value ← unwrap (read source)
  validator value
  ok (write value)

-- `&value[n..]`
unfoldable pub skip_bytes : ℕ → List ℕ → Result (List ℕ)
skip_bytes zero source = ok source
skip_bytes (suc n) [] = panic
skip_bytes (suc n) (byte ∷ source) = skip_bytes n source
