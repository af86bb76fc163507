-- ===== src/LastUpdate/Defs.antt =====
-- The methods of `LastUpdate` (state/last_update.rs).
use kamino_lending.Base.{
  Bool, LendingError, Option, Result, err, if◌then◌else◌, leb, none, not, ok, some, true, ℕ, ◌+◌,
  ◌-◌, ◌==◌, ◌>>=◌, ◌||◌,
}
use Prim.Native.Nat.{bit_and}

-- The bits of `PriceStatusFlags`.
abbrev pub price_loaded : ℕ
price_loaded = 0b0000_0001

abbrev pub price_age_checked : ℕ
price_age_checked = 0b0000_0010

abbrev pub twap_checked : ℕ
twap_checked = 0b0000_0100

abbrev pub twap_age_checked : ℕ
twap_age_checked = 0b0000_1000

abbrev pub heuristic_checked : ℕ
heuristic_checked = 0b0001_0000

abbrev pub price_usage_allowed : ℕ
price_usage_allowed = 0b0010_0000

abbrev pub all_checks : ℕ
all_checks = 0b0011_1111

abbrev pub no_checks : ℕ
no_checks = 0

-- The union of PRICE_LOADED, PRICE_AGE_CHECKED and PRICE_USAGE_ALLOWED.
abbrev pub liquidation_checks : ℕ
liquidation_checks = price_loaded + price_age_checked + price_usage_allowed

abbrev pub stale_after_slots_elapsed : ℕ
stale_after_slots_elapsed = 1

pub record LastUpdate : Type 0 where
  pub slot : ℕ
  pub stale : ℕ
  pub price_status : ℕ

-- `LastUpdate::new`
unfoldable pub new_last_update : ℕ → LastUpdate
new_last_update slot = record { slot = slot; stale = 1; price_status = no_checks }

unfoldable pub slots_elapsed : LastUpdate → ℕ → Result ℕ
slots_elapsed u slot =
    if leb u.slot slot then ok (slot - u.slot) else err LendingError.math_overflow

unfoldable pub update_slot : LastUpdate → ℕ → Option ℕ → LastUpdate
update_slot u slot none = record u { slot = slot; stale = 0 }
update_slot u slot (some flags) = record { slot = slot; stale = 0; price_status = flags }

unfoldable pub mark_stale : LastUpdate → LastUpdate
mark_stale u = record u { stale = 1 }

-- `from_bits_truncate` drops the bits that name no flag.
unfoldable pub get_price_status : LastUpdate → ℕ
get_price_status u = bit_and u.price_status all_checks

-- `flags.contains(wanted)`
abbrev pub contains_flags : ℕ → ℕ → Bool
contains_flags flags wanted = bit_and flags wanted == wanted

-- `||` asks for the elapsed slots only if the stale flag is not set.
unfoldable pub is_stale : LastUpdate → ℕ → ℕ → Result Bool
unfolding slots_elapsed get_price_status
is_stale u slot min_price_status =
    let is_price_status_ok = contains_flags (get_price_status u) min_price_status in
    if not (u.stale == 0)
    then ok true
    else (slots_elapsed u slot >>= λ n.
        ok (leb stale_after_slots_elapsed n || not is_price_status_ok))
