-- ===== src/Booking/Holds.antt =====
-- apps/api/app/domains/booking/hold_service.py: `CapacityHoldService`. The matching of providers
-- (booking/matching.py), the zones and the hash of a session are parameters. Requests are served one
-- after the other. The source locks the key and the slot of a request, not the booking session.
pub mod Release
pub mod Bounds
pub mod Replay
pub mod Limit
use breero_com.Prelude.{
  Bool, List, Option, String, [], add, any, count, false, find, get, if◌then◌else◌, is_empty,
  is_some, leb, ltb, none, not, put, some, string_eq, suc, true, zero, ℕ, ◌&&◌, ◌*◌, ◌+◌, ◌==◌,
  ◌||◌, ◌∷◌,
}
use breero_com.Models.{
  Address, BookingCapacityHold, CapacityHoldStatus, Db, Service, capacity_hold_status_eq,
}
use breero_com.Errors.{
  hold_key_conflict, no_provider_free, outside_service_area, quote_required, service_not_bookable,
  session_required, slot_gone, timezone_mismatch, too_many_holds,
}
use breero_com.Context.{Context, record_audit}
use breero_com.Session.{
  Outcome, Tx, commit, err, gets, guard, lift, modify, ok, pure, require, ◌>>=◌, ◌>>◌,
}
use breero_com.Booking.Postal.{strip}
use breero_com.Booking.Timezones.{
  LocalTime, LocalizedInterval, Zone, enforce_breero_hours, local_interval,
}
use Prim.Native.Char.{Char}

pub record ProviderCandidate : Type 0 where
  pub provider_id : ℕ
  pub professional_id : ℕ
  pub capacity_minutes : ℕ

pub record Surroundings : Type 0 where
  -- `hashlib.sha256(…).hexdigest()`
  pub sha256 : String → String
  pub zones : String → Option Zone
  -- `ProviderMatcher.candidates`: service, address, start, end, emergency, professional
  pub candidates : Service → Address → ℕ → ℕ → Bool → Option ℕ → Db → List ProviderCandidate

-- What `create` is called with.
pub record HoldRequest : Type 0 where
  pub service_id : ℕ
  pub address_id : ℕ
  pub start_local : LocalTime
  pub timezone_id : String
  pub booking_session : String
  pub idempotency_key : String
  pub emergency : Bool

-- Thirty minutes.
abbrev hold_duration : ℕ
hold_duration = 1800

abbrev pub max_active_holds_per_owner : ℕ
max_active_holds_per_owner = 3

abbrev text_length : String → ℕ
text_length String.[] = 0
text_length (String.◌∷◌ c s) = suc (text_length s)

-- `owner_fingerprint`.
unfoldable pub owner_fingerprint : (String → String) → String → Outcome String
owner_fingerprint sha256 value =
    if ltb (text_length (strip value)) 16 then err session_required else ok (sha256 (strip value))

abbrev pub hold_id_of : BookingCapacityHold → ℕ
hold_id_of h = h.id

abbrev pub get_hold : ℕ → Db → Option BookingCapacityHold
get_hold hold_id db = get hold_id_of hold_id db.holds

abbrev pub put_hold : BookingCapacityHold → Db → Db
put_hold hold db = record db { holds = put hold_id_of hold db.holds }

abbrev pub add_hold : BookingCapacityHold → Db → Db
add_hold hold db = record db { holds = add hold db.holds }

abbrev pub has_hold_key : String → BookingCapacityHold → Bool
has_hold_key key h = h.idempotency_key == key

-- The holds that `create` counts.
abbrev pub is_active_hold : String → ℕ → BookingCapacityHold → Bool
is_active_hold fingerprint now h =
    h.owner_fingerprint_hash == fingerprint
    && h.status == CapacityHoldStatus.held
    && ltb now h.expires_at

-- `_audit`.
unfoldable pub audit_hold : Context → BookingCapacityHold → String → Db → Db
audit_hold c hold action =
    record_audit c none action "capacity_hold" hold.id
      (("expires_at", c.str hold.expires_at) ∷ ("timezone_id", hold.timezone_id) ∷ [])

abbrev pub is_bookable : Option Service → Bool
is_bookable none = false
is_bookable (some service) = service.is_active && service.is_bookable

abbrev pub is_served : Option Address → Bool
is_served none = false
is_served (some address) = is_some address.service_zone_id || is_some address.service_area_id

-- `service.duration_minutes or 60`.
abbrev duration_of : Option ℕ → ℕ
duration_of none = 60
duration_of (some zero) = 60
duration_of (some (suc n)) = suc n

abbrev pub end_of_visit : Service → LocalTime → LocalTime
end_of_visit service start = record start {
  clock =
      start.clock
      + 60
        * (duration_of service.duration_minutes
            + service.before_buffer_minutes
            + service.after_buffer_minutes);
}

unfoldable pub new_hold :
    Context
    → HoldRequest
    → String
    → Service
    → Address
    → LocalizedInterval
    → ProviderCandidate
    → BookingCapacityHold
new_hold c r fingerprint service address interval chosen = record {
  id = c.uuid 0;
  booking_id = none;
  service_id = service.id;
  address_id = address.id;
  provider_candidate_id = chosen.provider_id;
  professional_candidate_id = chosen.professional_id;
  slot_start_utc = interval.start_utc;
  slot_end_utc = interval.end_utc;
  timezone_id = r.timezone_id;
  capacity_minutes = chosen.capacity_minutes;
  status = CapacityHoldStatus.held;
  expires_at = c.now + hold_duration;
  released_at = none;
  owner_fingerprint_hash = fingerprint;
  idempotency_key = r.idempotency_key;
}

abbrev pub first {ℓ} : {A : Type ℓ} → List A → Option A
first [] = none
first (x ∷ xs) = some x

-- `create` from the flush on, which tests the unique key.
unfoldable pub record_hold : Context → BookingCapacityHold → Tx Db BookingCapacityHold
record_hold c hold = do modify (audit_hold c hold "capacity_hold.created"); commit; pure hold

unfoldable pub insert_hold : Context → BookingCapacityHold → Tx Db BookingCapacityHold
insert_hold c hold = do
  taken ← gets (λ db. any (has_hold_key hold.idempotency_key) db.holds)
  guard (not taken) slot_gone
  modify (add_hold hold)
  record_hold c hold

-- `create` from the count of the owner's holds on.
unfoldable pub store_hold : Context → BookingCapacityHold → Tx Db BookingCapacityHold
store_hold c hold = do
  active ← gets (λ db. count (is_active_hold hold.owner_fingerprint_hash c.now) db.holds)
  guard (not (leb max_active_holds_per_owner active)) too_many_holds
  insert_hold c hold

-- `create` from the search for a provider on.
unfoldable pub hold_slot :
    Surroundings
    → Context
    → HoldRequest
    → String
    → Service
    → Address
    → LocalizedInterval
    → Tx Db BookingCapacityHold
hold_slot w c r fingerprint service address interval = do
  found ← gets (w.candidates service address interval.start_utc interval.end_utc r.emergency none)
  chosen ← require (first found) no_provider_free
  refreshed ← gets (
      w.candidates service address interval.start_utc interval.end_utc r.emergency
        (some chosen.professional_id))
  guard (not (is_empty refreshed)) slot_gone
  store_hold c (new_hold c r fingerprint service address interval chosen)

-- `create` for a service and an address that are there.
unfoldable pub hold_for :
    Surroundings → Context → HoldRequest → String → Service → Address → Tx Db BookingCapacityHold
hold_for w c r fingerprint service address = do
  guard (r.timezone_id == address.timezone_name) timezone_mismatch
  let end_local = end_of_visit service r.start_local
  lift (enforce_breero_hours r.start_local.clock end_local.clock service.emergency_eligible true)
  interval ← lift (local_interval w.zones r.start_local end_local r.timezone_id none none)
  hold_slot w c r fingerprint service address interval

-- `create` for a key that has no hold yet.
unfoldable pub create_new :
    Surroundings → Context → HoldRequest → String → Tx Db BookingCapacityHold
create_new w c r fingerprint = do
  found ← gets (λ db. get (λ x. x.id) r.service_id db.services)
  address' ← gets (λ db. get (λ x. x.id) r.address_id db.addresses)
  guard (is_bookable found) service_not_bookable
  service ← require found service_not_bookable
  guard (not service.quote_required) quote_required
  guard (is_served address') outside_service_area
  address ← require address' outside_service_area
  hold_for w c r fingerprint service address

-- The hold that the key has already.
unfoldable pub existing_hold : String → BookingCapacityHold → Tx Db BookingCapacityHold
existing_hold fingerprint hold = do
  guard (hold.owner_fingerprint_hash == fingerprint) hold_key_conflict
  pure hold

unfoldable pub create_or_existing :
    Surroundings
    → Context
    → HoldRequest
    → String
    → Option BookingCapacityHold
    → Tx Db BookingCapacityHold
create_or_existing w c r fingerprint none = create_new w c r fingerprint
create_or_existing w c r fingerprint (some hold) = existing_hold fingerprint hold

-- `create`.
unfoldable pub create : Surroundings → Context → HoldRequest → Tx Db BookingCapacityHold
create w c r = do
  fingerprint ← lift (owner_fingerprint w.sha256 r.booking_session)
  existing ← gets (λ db. find (has_hold_key r.idempotency_key) db.holds)
  create_or_existing w c r fingerprint existing
