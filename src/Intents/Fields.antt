-- ===== src/Intents/Fields.antt =====
-- apps/api/app/domains/booking_intents/service.py: what `BookingIntentService.update` makes of each
-- field of the command. The zones, the search for free slots and the creation of the booking
-- (booking/service.py) are parameters.
use breero_com.Prelude.{
  Bool, List, Option, String, any, false, if◌then◌else◌, is_present, is_some, ltb, nat_eq, none,
  not, option_eq, or_else, some, ℕ, ◌&&◌, ◌*◌, ◌+◌, ◌==◌,
}
use breero_com.Models.{
  Address, Booking, BookingIntent, BookingIntentStatus, Db, Service, SlotSelection,
}
use breero_com.Errors.{
  address_not_found, intent_incomplete, requested_date_in_past, requests_only, service_not_found,
  service_required, slot_unavailable, timezone_invalid, timezone_required,
}
use breero_com.Session.{Outcome, Tx, err, ok}
use breero_com.Booking.Timezones.{Zone, date_of}
use breero_com.Intents.Drafts.{get_address, get_service, is_active_service}

-- What `submit` hands over to `BookingService.create`.
pub record BookingRequest : Type 0 where
  pub service_id : ℕ
  pub address_id : ℕ
  pub window_start : ℕ
  pub window_end : ℕ
  pub customer : List (String × String)
  pub answers : List (String × String)

pub record IntentWorld : Type 0 where
  pub zones : String → Option Zone
  -- `AvailabilityService.search`: service, address, day
  pub search_slots : ℕ → ℕ → ℕ → Db → Outcome (List (ℕ × ℕ))
  -- `BookingService.create`, which commits
  pub create_booking : BookingRequest → String → Tx Db Booking

-- `BookingIntentUpdate`: a field is left out, or set, be it to nothing.
pub record BookingIntentUpdate : Type 0 where
  pub service_id : Option (Option ℕ)
  pub address_id : Option (Option ℕ)
  pub timezone_id : Option (Option String)
  pub requested_date : Option (Option ℕ)
  pub selected_slot : Option (Option SlotSelection)
  pub clear_selected_slot : Bool

-- `_timezone`.
abbrev pub zone_of : IntentWorld → Option String → Outcome Zone
zone_of w timezone_id =
    if is_present timezone_id
    then elim (w.zones (or_else timezone_id "")) [ none ↦ err timezone_invalid | some z ↦ ok z ]
    else err timezone_required

abbrev pub zone_utc : Zone
zone_utc = record { to_utc = λ clock fold. clock; to_local = λ t. (t, 0) }

-- The fields that belong to the place and the time of the visit.
abbrev without_place : BookingIntent → BookingIntent
without_place i = record i { timezone_id = none; requested_date = none; selected_slot = none }

abbrev pub with_service : ℕ → BookingIntent → BookingIntent
with_service service_id i = if service_id == i.service_id then i else record (without_place i) {
  service_id = service_id;
  address_id = none;
  status = BookingIntentStatus.draft;
}

unfoldable pub set_service : Option (Option ℕ) → Db → BookingIntent → Outcome BookingIntent
set_service none db i = ok i
set_service (some none) db i = err service_required
set_service (some (some service_id)) db i =
    if is_active_service (get_service service_id db)
    then ok (with_service service_id i)
    else err service_not_found

abbrev pub with_address : Option ℕ → BookingIntent → BookingIntent
with_address address_id i =
    if address_id == i.address_id then i else record (without_place i) { address_id = address_id }

-- COVERAGE_CONFIRMED or ADDRESS_VALIDATED.
abbrev pub covered_status : Option Address → BookingIntentStatus
covered_status none = BookingIntentStatus.address_validated
covered_status (some address) =
    if is_some address.service_area_id
    then BookingIntentStatus.coverage_confirmed
    else BookingIntentStatus.address_validated

abbrev is_anonymous : Option Address → Bool
is_anonymous none = false
is_anonymous (some address) = not (is_some address.customer_id)

unfoldable pub set_address : Option (Option ℕ) → Db → BookingIntent → Outcome BookingIntent
set_address none db i = ok i
set_address (some none) db i =
    ok (record (with_address none i) { status = BookingIntentStatus.draft })
set_address (some (some address_id)) db i =
    if is_anonymous (get_address address_id db)
    then ok (record (with_address (some address_id) i) {
      status = covered_status (get_address address_id db);
    })
    else err address_not_found

abbrev pub with_timezone : Option String → BookingIntent → BookingIntent
with_timezone timezone_id i = record i { timezone_id = timezone_id; selected_slot = none }

unfoldable pub set_timezone :
    IntentWorld → Option (Option String) → BookingIntent → Outcome BookingIntent
set_timezone w none i = ok i
set_timezone w (some none) i = ok (with_timezone none i)
set_timezone w (some (some timezone_id)) i = elim (zone_of w (some timezone_id)) [
  | err e ↦ err e
  | ok z ↦ ok (with_timezone (some timezone_id) i)
]

abbrev pub with_date : Option ℕ → BookingIntent → BookingIntent
with_date day i = record i { requested_date = day; selected_slot = none }

abbrev pub today : Zone → ℕ → ℕ
today zone now = date_of (zone.to_local now).0

-- The zone in which "today" is read.
abbrev pub zone_or_utc : IntentWorld → Option String → Outcome Zone
zone_or_utc w timezone_id = if is_present timezone_id then zone_of w timezone_id else ok zone_utc

unfoldable pub set_date :
    IntentWorld → ℕ → Option (Option ℕ) → BookingIntent → Outcome BookingIntent
set_date w now none i = ok i
set_date w now (some none) i = ok (with_date none i)
set_date w now (some (some day)) i = elim (zone_or_utc w i.timezone_id) [
  | err e ↦ err e
  | ok z ↦ if ltb day (today z now) then err requested_date_in_past else ok (with_date (some day) i)
]

-- `_status_after_clearing_slot`.
abbrev status_after_clearing : Db → BookingIntent → BookingIntentStatus
status_after_clearing db i = elim i.address_id [
  | none ↦ BookingIntentStatus.draft
  | some address_id ↦ covered_status (get_address address_id db)
]

abbrev pub without_slot : Db → BookingIntent → BookingIntent
without_slot db i = record i { selected_slot = none; status = status_after_clearing db i }

-- `_slot_window`.
abbrev pub slot_window : Zone → ℕ → SlotSelection → ℕ × ℕ
slot_window zone day slot = (
  zone.to_utc (86400 * day + 60 * slot.start_local) 0,
  zone.to_utc (86400 * day + 60 * slot.end_local) 0,
)

abbrev pub has_slot : ℕ × ℕ → List (ℕ × ℕ) → Bool
has_slot window slots = any (λ slot. slot.0 == window.0 && slot.1 == window.1) slots

-- A slot that is asked for, where address, zone and day are known and the service is bookable.
unfoldable pub select_slot :
    IntentWorld → Db → BookingIntent → SlotSelection → ℕ → ℕ → Outcome BookingIntent
select_slot w db i slot address_id day = elim (zone_of w i.timezone_id) [
  | err e ↦ err e
  | ok zone ↦ elim (w.search_slots i.service_id address_id day db) [
    | err e ↦ err e
    | ok slots ↦
        if has_slot (slot_window zone day slot) slots
        then ok (record i {
          selected_slot = some slot;
          status = BookingIntentStatus.availability_found;
        })
        else err slot_unavailable
  ]
]

abbrev is_bookable_service : Option Service → Bool
is_bookable_service none = false
is_bookable_service (some service) = service.is_bookable

unfoldable pub set_slot :
    IntentWorld → Option (Option SlotSelection) → Db → BookingIntent → Outcome BookingIntent
set_slot w none db i = ok i
set_slot w (some none) db i = ok (without_slot db i)
set_slot w (some (some slot)) db i =
    if not (is_some i.address_id && is_present i.timezone_id && is_some i.requested_date)
    then err intent_incomplete
    else if not (is_active_service (get_service i.service_id db))
    then err service_not_found
    else if not (is_bookable_service (get_service i.service_id db))
    then err requests_only
    else select_slot w db i slot (or_else i.address_id 0) (or_else i.requested_date 0)
