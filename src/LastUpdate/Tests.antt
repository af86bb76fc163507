-- ===== src/LastUpdate/Tests.antt =====
-- Runs of state/last_update.rs, and its theorems at concrete values.
use Prim.Native.Nat.{bit_and}
use kamino_lending.Base.{LendingError, err, false, ok, refl, true, ◌↔◌, ◌≡◌}
use kamino_lending.LastUpdate.Defs.{
  LastUpdate, all_checks, get_price_status, is_stale, liquidation_checks, new_last_update,
  no_checks, price_loaded,
}
use kamino_lending.LastUpdate.Staleness.{is_stale_fresh_iff}

abbrev refreshed : LastUpdate
refreshed = record { slot = 40; stale = 0; price_status = liquidation_checks }

stale_runs :
    (is_stale refreshed 40 liquidation_checks ≡ ok false)
    × (is_stale refreshed 40 all_checks ≡ ok true)
    × (is_stale refreshed 39 no_checks ≡ err LendingError.math_overflow)
    × (is_stale (new_last_update 40) 39 no_checks ≡ ok true)
unfolding is_stale new_last_update
stale_runs = (refl, refl, refl, refl)

is_stale_fresh_iff_example : (is_stale refreshed 40 price_loaded ≡ ok false) ↔ (
    (refreshed.stale ≡ 0)
    × (refreshed.slot ≡ 40)
    × (bit_and (get_price_status refreshed) price_loaded ≡ price_loaded))
is_stale_fresh_iff_example = is_stale_fresh_iff refreshed 40 price_loaded
