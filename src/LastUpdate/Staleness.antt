-- ===== src/LastUpdate/Staleness.antt =====
-- When `is_stale` (state/last_update.rs) lets a reserve or an obligation be used.
use Prim.Native.Nat.{bit_and}
use kamino_lending.Base.{
  LendingError, arith, err, false, if◌then◌else◌, ltb, none, not, ok, some, true, ℕ, ◌||◌, ◌↔◌, ◌≡◌,
}
use kamino_lending.LastUpdate.Defs.{
  LastUpdate, all_checks, contains_flags, get_price_status, is_stale, mark_stale, update_slot,
}

-- A state is usable in a slot exactly if it is not marked stale, was refreshed in that very slot,
-- and its known price flags have every flag that is asked for.
pub is_stale_fresh_iff :
    (u : LastUpdate) (slot wanted : ℕ)
    → (is_stale u slot wanted ≡ ok false)
      ↔ ((u.stale ≡ 0) × (u.slot ≡ slot) × (bit_and (get_price_status u) wanted ≡ wanted))
unfolding is_stale
is_stale_fresh_iff u slot wanted = ground arith

-- After a refresh with given flags a state is fresh in that slot for what these flags cover, stale in
-- every later slot, and an error in every earlier one; a mark makes it stale in every slot, and a
-- refresh that gives no flags then keeps those it had.
pub update_slot_lifetime :
    (u : LastUpdate) (slot now flags wanted : ℕ)
    → let v = update_slot u slot (some flags) in
      (is_stale v now wanted ≡ (
        if ltb now slot
        then err LendingError.math_overflow
        else ok (ltb slot now || not (contains_flags (bit_and flags all_checks) wanted))))
      × (is_stale (mark_stale v) now wanted ≡ ok true)
      × (update_slot (mark_stale v) slot none ≡ v)
unfolding update_slot is_stale mark_stale
update_slot_lifetime u slot now flags wanted = (ground arith, ground arith, ground arith)
