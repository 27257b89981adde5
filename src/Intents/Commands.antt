-- ===== src/Intents/Commands.antt =====
-- apps/api/app/domains/booking_intents/service.py: `update`, `abandon` and `submit` of
-- `BookingIntentService`.
use breero_com.Prelude.{
  List, String, if◌then◌else◌, is_present, is_some, not, one_of, or_else, some, ℕ, ◌&&◌, ◌+◌, ◌==◌,
}
use breero_com.Models.{
  Booking, BookingIntent, BookingIntentStatus, Db, SlotSelection, booking_intent_status_eq,
}
use breero_com.Errors.{
  already_submitted, assertion_failed, intent_not_editable, intent_not_found, intent_not_ready,
}
use breero_com.Context.{Context}
use breero_com.Session.{Tx, gets, guard, lift, pure, require, when, ◌>>=◌, ◌>>◌}
use breero_com.Intents.Drafts.{
  editable_statuses, lapsed, owned, require_version, store_intent, unless_expired,
}
use breero_com.Intents.Fields.{
  BookingIntentUpdate, BookingRequest, IntentWorld, set_address, set_date, set_service, set_slot,
  set_timezone, slot_window, without_slot, zone_of,
}

abbrev pub next_version : BookingIntent → BookingIntent
next_version i = record i { version = i.version + 1 }

-- `update` on an intent that may be changed.
unfoldable pub change_intent :
    IntentWorld → Context → BookingIntentUpdate → BookingIntent → Db → Tx Db BookingIntent
change_intent w c command intent db = do
  served ← lift (set_service command.service_id db intent)
  placed ← lift (set_address command.address_id db served)
  zoned ← lift (set_timezone w command.timezone_id placed)
  dated ← lift (set_date w c.now command.requested_date zoned)
  let cleared = if command.clear_selected_slot then without_slot db dated else dated
  slotted ← lift (set_slot w command.selected_slot db cleared)
  store_intent c (next_version slotted) "booking_intent.update"

unfoldable pub update_owned :
    IntentWorld → Context → BookingIntentUpdate → ℕ → BookingIntent → Tx Db BookingIntent
update_owned w c command expected_version intent = unless_expired c intent (
    require_version intent expected_version (
      guard (one_of intent.status editable_statuses) intent_not_editable >>= λ _.
      gets (λ db. db) >>= change_intent w c command intent))

-- `update`.
unfoldable pub update_intent :
    IntentWorld → Context → ℕ → ℕ → BookingIntentUpdate → ℕ → Tx Db BookingIntent
update_intent w c intent_id session_id command expected_version = do
  found ← gets (owned intent_id session_id)
  intent ← require found intent_not_found
  update_owned w c command expected_version intent

unfoldable pub abandon_owned : Context → ℕ → BookingIntent → Tx Db (Unit {0})
abandon_owned c expected_version intent = require_version intent expected_version (
    guard (not (intent.status == BookingIntentStatus.submitted)) already_submitted >>= λ _.
    when (not (intent.status == BookingIntentStatus.expired))
      (store_intent c (lapsed intent) "booking_intent.abandon" >>= λ _. pure tt))

-- `abandon`.
unfoldable pub abandon_intent : Context → ℕ → ℕ → ℕ → Tx Db (Unit {0})
abandon_intent c intent_id session_id expected_version = do
  found ← gets (owned intent_id session_id)
  intent ← require found intent_not_found
  abandon_owned c expected_version intent

abbrev pub submitted_with : ℕ → BookingIntent → BookingIntent
submitted_with booking_id intent = record intent {
  status = BookingIntentStatus.submitted;
  booking_id = some booking_id;
  version = intent.version + 1;
}

-- Who books, and the answers to the questions of the service.
pub record Submission : Type 0 where
  pub customer : List (String × String)
  pub answers : List (String × String)
  pub idempotency_key : String

abbrev booking_request : BookingIntent → Submission → ℕ × ℕ → BookingRequest
booking_request intent s window = record {
  service_id = intent.service_id;
  address_id = or_else intent.address_id 0;
  window_start = window.0;
  window_end = window.1;
  customer = s.customer;
  answers = s.answers;
}

-- `submit` on an intent that is ready.
unfoldable pub book_intent :
    IntentWorld → Context → Submission → BookingIntent → SlotSelection → Tx Db Booking
book_intent w c s intent slot = do
  zone ← lift (zone_of w intent.timezone_id)
  booking ←
      w.create_booking
        (booking_request intent s (slot_window zone (or_else intent.requested_date 0) slot))
        s.idempotency_key
  store_intent c (submitted_with booking.id intent) "booking_intent.submit"
  pure booking

unfoldable pub submit_owned : IntentWorld → Context → Submission → ℕ → BookingIntent → Tx Db Booking
submit_owned w c s expected_version intent = unless_expired c intent (
    require_version intent expected_version (
      guard (intent.status == BookingIntentStatus.availability_found) intent_not_ready >>= λ _.
      guard
        (is_some intent.address_id
          && is_present intent.timezone_id
          && is_some intent.requested_date)
        assertion_failed
      >>= λ _. require intent.selected_slot assertion_failed >>= book_intent w c s intent))

-- `submit`.
unfoldable pub submit_intent : IntentWorld → Context → ℕ → ℕ → Submission → ℕ → Tx Db Booking
submit_intent w c intent_id session_id s expected_version = do
  found ← gets (owned intent_id session_id)
  intent ← require found intent_not_found
  submit_owned w c s expected_version intent
