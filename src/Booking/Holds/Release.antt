-- ===== src/Booking/Holds/Release.antt =====
-- apps/api/app/domains/booking/hold_service.py: `get`, `release` and `expire_stale` of
-- `CapacityHoldService`.
use breero_com.Prelude.{
  Bool, String, count, if◌then◌else◌, leb, some, string_eq, update, ℕ, ◌&&◌, ◌==◌,
}
use breero_com.Models.{BookingCapacityHold, CapacityHoldStatus, Db, capacity_hold_status_eq}
use breero_com.Errors.{hold_not_found}
use breero_com.Context.{Context}
use breero_com.Session.{Tx, commit, gets, guard, lift, modify, pure, require, ◌>>=◌, ◌>>◌}
use breero_com.Booking.Holds.{Surroundings, audit_hold, get_hold, owner_fingerprint, put_hold}

abbrev pub is_stale : ℕ → BookingCapacityHold → Bool
is_stale now h = h.status == CapacityHoldStatus.held && leb h.expires_at now

abbrev pub expired_hold : BookingCapacityHold → BookingCapacityHold
expired_hold h = record h { status = CapacityHoldStatus.expired }

unfoldable pub read_hold : Context → BookingCapacityHold → Tx Db BookingCapacityHold
read_hold c hold =
    if is_stale c.now hold
    then (modify (put_hold (expired_hold hold)) >>= λ _. commit >>= λ _. pure (expired_hold hold))
    else pure hold

-- `get`: a hold of another session is not found.
unfoldable pub get_owned : Surroundings → Context → ℕ → String → Tx Db BookingCapacityHold
get_owned w c hold_id booking_session = do
  found ← gets (get_hold hold_id)
  hold ← require found hold_not_found
  fingerprint ← lift (owner_fingerprint w.sha256 booking_session)
  guard (hold.owner_fingerprint_hash == fingerprint) hold_not_found
  read_hold c hold

abbrev pub released_hold : ℕ → BookingCapacityHold → BookingCapacityHold
released_hold now h = record h { status = CapacityHoldStatus.released; released_at = some now }

unfoldable pub release_held : Context → BookingCapacityHold → Tx Db (Unit {0})
release_held c hold =
    if hold.status == CapacityHoldStatus.held
    then (modify (put_hold (released_hold c.now hold)) >>= λ _.
        modify (audit_hold c (released_hold c.now hold) "capacity_hold.released") >>= λ _. commit)
    else pure tt

-- `release`.
unfoldable pub release : Surroundings → Context → ℕ → String → Tx Db (Unit {0})
release w c hold_id booking_session = do
  fingerprint ← lift (owner_fingerprint w.sha256 booking_session)
  found ← gets (get_hold hold_id)
  hold ← require found hold_not_found
  guard (hold.owner_fingerprint_hash == fingerprint) hold_not_found
  release_held c hold

-- `expire_stale`: the number of the holds that it ends.
unfoldable pub expire_holds : ℕ → Db → Db
expire_holds now db = record db { holds = update (is_stale now) expired_hold db.holds }

unfoldable pub expire_stale : Context → Tx Db ℕ
expire_stale c = do
  stale ← gets (λ db. count (is_stale c.now) db.holds)
  modify (expire_holds c.now)
  commit
  pure stale
