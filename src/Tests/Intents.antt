-- ===== src/Tests/Intents.antt =====
-- The theorems on booking intents at concrete inputs.
use breero_com.Prelude.{[], false, none, refl, some, true, ◌∷◌, ◌≡◌}
use breero_com.Models.{
  Booking, BookingIntent, BookingIntentStatus, BookingStatus, Db, Service, SlotSelection,
}
use breero_com.Errors.{intent_expired, version_conflict}
use breero_com.Session.{answer, ok, pure, request, returned, ◌>>=◌}
use breero_com.Session.Keeps.{Keeps-pure}
use breero_com.Tests.{empty, surroundings}
use breero_com.Intents.Drafts.{
  audit_intent, create_intent_row, get_intent, new_intent, read_intent, store_intent,
  unless_expired,
}
use breero_com.Intents.Fields.{
  BookingIntentUpdate, IntentWorld, select_slot, set_address, set_date, set_service, set_slot,
  set_timezone, zone_utc,
}
use breero_com.Intents.Commands.{
  Submission, abandon_intent, abandon_owned, book_intent, change_intent, submit_intent,
  submit_owned, update_intent, update_owned,
}
use breero_com.Intents.Advances.{Follows}
use breero_com.Intents.Versions.{KeepsIntents}
use breero_com.Intents.Runs.{abandon, change, run, run-Follows, submit}

abbrev an_intent : BookingIntent
an_intent = record {
  id = 60;
  public_reference = "BI-1";
  anonymous_session_id = 70;
  service_id = 4;
  address_id = some 5;
  timezone_id = some "UTC";
  requested_date = some 3;
  selected_slot = none;
  status = BookingIntentStatus.coverage_confirmed;
  expires_at = 5000;
  version = 2;
  booking_id = none;
}

abbrev a_slot : SlotSelection
a_slot = record { slot_token = "token-0123456789"; start_local = 600; end_local = 660 }

abbrev a_booking : Booking
a_booking = record {
  id = 2;
  customer_id = 3;
  address_id = 5;
  service_id = 4;
  provider_worker_id = none;
  window_start = 295200;
  window_end = 298800;
  status = BookingStatus.requested;
  total_amount = 10000;
  currency = "USD";
  expires_at = 9000;
}

abbrev world : IntentWorld
world = record {
  zones = λ name. some zone_utc;
  search_slots = λ service address day db. ok ((295200, 298800) ∷ []);
  create_booking = λ r key. pure a_booking;
}

world-KeepsIntents : KeepsIntents world
world-KeepsIntents = record { kept = λ k i r key. Keeps-pure a_booking }

abbrev a_service : Service
a_service = record {
  id = 4;
  is_active = true;
  is_bookable = true;
  quote_required = false;
  duration_minutes = some 60;
  before_buffer_minutes = 0;
  after_buffer_minutes = 0;
  emergency_eligible = false;
}

abbrev intents : Db
intents = record empty { services = a_service ∷ []; booking_intents = an_intent ∷ [] }

abbrev choice : BookingIntentUpdate
choice = record {
  service_id = none;
  address_id = none;
  timezone_id = none;
  requested_date = none;
  selected_slot = some (some a_slot);
  clear_selected_slot = false;
}

abbrev a_submission : Submission
a_submission = record { customer = []; answers = []; idempotency_key = "k" }

run-Follows_example :
    (x : BookingIntent) × (get_intent 60 (
        run world
          (change surroundings 60 70 choice 2
            ∷ change surroundings 60 70 choice 2
            ∷ submit surroundings 60 70 a_submission 3
            ∷ abandon surroundings 60 70 4
            ∷ [])
          intents)
      ≡ some x)
    × Follows an_intent x
run-Follows_example =
    run-Follows world world-KeepsIntents
      (change surroundings 60 70 choice 2
        ∷ change surroundings 60 70 choice 2
        ∷ submit surroundings 60 70 a_submission 3
        ∷ abandon surroundings 60 70 4
        ∷ [])
      60 an_intent intents refl

-- A change, and a second one that was made from the same version.
abbrev chosen : Db
chosen = (request (update_intent world surroundings 60 70 choice 2) intents).1

stale_change :
    (answer (request (update_intent world surroundings 60 70 choice 2) chosen)).0
    ≡ some (version_conflict 3)
unfolding update_intent update_owned unless_expired change_intent set_service set_address
    set_timezone set_date set_slot select_slot store_intent audit_intent request ◌>>=◌
stale_change = refl

submits :
    returned (request (submit_intent world surroundings 60 70 a_submission 3) chosen)
    ≡ some a_booking
unfolding update_intent update_owned submit_intent submit_owned book_intent unless_expired
    change_intent set_service set_address set_timezone set_date set_slot select_slot store_intent
    audit_intent request ◌>>=◌
submits = refl

expires_on_reading :
    (answer (request (read_intent (record surroundings { now = 5000 }) 60 70) intents)).0
    ≡ some intent_expired
unfolding read_intent unless_expired store_intent audit_intent request ◌>>=◌
expires_on_reading = refl

starts :
    returned (request (create_intent_row surroundings 4 70) intents)
    ≡ some (new_intent surroundings 4 70)
unfolding create_intent_row new_intent request ◌>>=◌
starts = refl

abandons : returned (request (abandon_intent surroundings 60 70 2) intents) ≡ some tt
unfolding abandon_intent abandon_owned store_intent audit_intent request ◌>>=◌
abandons = refl
