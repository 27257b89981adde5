-- ===== src/Tests/Booking.antt =====
-- The theorems on booking at concrete inputs.
use breero_com.Prelude.{
  Option, [], arith, false, none, refl, some, true, ℕ, ◌+◌, ◌-◌, ◌↔◌, ◌∷◌, ◌≡◌, ◌≤◌, ◌⊎◌, nat_eq,
}
use breero_com.Prelude.Int.{◌+ℤ◌}
use breero_com.Models.{Address, BookingCapacityHold, BookingStatus, CapacityHoldStatus, Db, Service}
use breero_com.Errors.{bad_booking_transition, invalid_zip_code}
use breero_com.Session.{err, ok, request, ◌>>=◌}
use breero_com.Tests.{empty, surroundings}
use breero_com.Booking.Lifecycle.{ensure_transition, invalid_state_transition, require_transition}
use breero_com.Booking.Lifecycle.Diagram.{IsListed, Reach, completion-reachable, here, next}
use breero_com.Booking.Lifecycle.Work.{IsWorking, work-through_confirmed}
use breero_com.Booking.Postal.{
  formatted, normalize_state, normalize_us_postal_code, strip, is_space, is_digit,
}
use breero_com.Booking.Postal.Codes.{IsPostalCode, normalize-formatted}
use breero_com.Booking.Capacity.{
  CapacityLimit, CapacityUsage, capacity_consumption, ensure_capacity,
}
use breero_com.Booking.Capacity.Fits.{Fits, day_before, ensure_capacity-Fits}
use breero_com.Booking.Timezones.{
  Zone, clock_to_utc, enforce_breero_hours, enforce_hours, local_interval, local_to_utc,
}
use breero_com.Booking.Timezones.Local.{Shows, clock_to_utc_unique}
use breero_com.Booking.Holds.{
  HoldRequest, Surroundings, create, create_new, create_or_existing, hold_for, hold_slot,
  insert_hold, new_hold, owner_fingerprint, record_hold, store_hold,
}
use breero_com.Booking.Holds.Bounds.{IsWithin}
use breero_com.Booking.Holds.Replay.{create-replays}
use breero_com.Booking.Holds.Limit.{give_back, hold, run, run-IsWithin}
use breero_com.Prelude.Int.{pos}
use breero_com.Models.{booking_status_eq}

completion-reachable_example :
    Reach BookingStatus.draft BookingStatus.completed
    ↔ (IsListed BookingStatus.draft ⊎ (BookingStatus.draft ≡ BookingStatus.completed))
completion-reachable_example = completion-reachable BookingStatus.draft

work-through_confirmed_example :
    IsWorking BookingStatus.provider_assigned
    ⊎ (Reach BookingStatus.provider_assigned BookingStatus.confirmed
        × Reach BookingStatus.confirmed BookingStatus.en_route)
work-through_confirmed_example =
    work-through_confirmed BookingStatus.provider_assigned BookingStatus.en_route
      (next {via = BookingStatus.confirmed} (next {via = BookingStatus.provider_assigned} here refl)
        refl)
      refl

-- Transitions outside the diagram, and of another machine.
refuses_jump :
    ensure_transition BookingStatus.draft BookingStatus.confirmed
    ≡ err (bad_booking_transition BookingStatus.draft BookingStatus.confirmed)
refuses_jump = refl

machine_refuses :
    require_transition {StateT = ℕ} (record { transitions = (1, 2 ∷ []) ∷ [] }) 2 1
    ≡ invalid_state_transition 2 1
machine_refuses = refl

normalize-formatted_example :
    ((normalize_us_postal_code " 94103-1234 "
        ≡ ok (record { postal_code = "94103"; plus4 = some "1234" }))
      ↔ (IsPostalCode (record { postal_code = "94103"; plus4 = some "1234" })
          × (strip " 94103-1234 "
              ≡ formatted (record { postal_code = "94103"; plus4 = some "1234" }))))
    × (IsPostalCode (record { postal_code = "94103"; plus4 = some "1234" })
        → normalize_us_postal_code
            (formatted (record { postal_code = "94103"; plus4 = some "1234" }))
          ≡ ok (record { postal_code = "94103"; plus4 = some "1234" }))
normalize-formatted_example =
    normalize-formatted " 94103-1234 " (record { postal_code = "94103"; plus4 = some "1234" })

-- Codes and texts that are no codes, and states.
reads_code :
    normalize_us_postal_code " 94103-1234 "
    ≡ ok (record { postal_code = "94103"; plus4 = some "1234" })
unfolding is_space is_digit
reads_code = refl

-- The digits of another script.
reads_devanagari :
    normalize_us_postal_code "९४१०३" ≡ ok (record { postal_code = "९४१०३"; plus4 = none })
unfolding is_space is_digit
reads_devanagari = refl

refuses_text : normalize_us_postal_code "9410" ≡ err invalid_zip_code
unfolding is_space is_digit
refuses_text = refl

reads_state : normalize_state " ny" ≡ ok "NY"
unfolding normalize_state is_space
reads_state = refl

abbrev a_limit : CapacityLimit
a_limit = record {
  max_jobs = pos 5;
  max_minutes = pos 480;
  max_concurrent_jobs = pos 1;
  emergency_reserved_jobs = pos 1;
  emergency_reserved_minutes = pos 60;
}

abbrev a_usage : CapacityUsage
a_usage = record {
  job_count = pos 2;
  booking_minutes = pos 200;
  hold_count = pos 1;
  hold_minutes = pos 60;
  buffer_minutes = pos 30;
  travel_minutes = pos 10;
}

ensure_capacity-Fits_example :
    (ensure_capacity a_limit a_usage (pos 90) (pos 0) false ≡ ok (day_before a_limit a_usage false))
    ↔ (Fits a_limit a_usage (pos 90) (pos 0) false
        × (day_before a_limit a_usage false ≡ day_before a_limit a_usage false))
ensure_capacity-Fits_example =
    ensure_capacity-Fits a_limit a_usage (pos 90) (pos 0) false (day_before a_limit a_usage false)

adds_durations : capacity_consumption (pos 60) (pos 15) (pos 0) (pos 20) ≡ ok (pos 95)
unfolding capacity_consumption ◌+ℤ◌
adds_durations = refl

-- A zone five hours behind, without a change of the clocks.
abbrev a_zone : Zone
a_zone = record { to_utc = λ clock fold. clock + 18000; to_local = λ t. (t - 18000, 0) }

clock_to_utc_unique_example :
    ((f : ℕ) × (54000 ≡ 36000 + 18000) × Shows a_zone 54000 36000 f)
    × (◌≡◌ {A = Option ℕ} none none
        → (g : ℕ) → g ≤ 1
        → Shows a_zone 54000 36000 g
        → 36000 + 18000 ≡ 54000)
unfolding clock_to_utc
clock_to_utc_unique_example = clock_to_utc_unique a_zone 36000 54000 none refl

-- A visit on a Monday morning.
enforce_hours_passes : enforce_breero_hours 36000 39600 false true ≡ ok tt
unfolding enforce_hours
enforce_hours_passes = refl

abbrev a_service : Service
a_service = record {
  id = 4;
  is_active = true;
  is_bookable = true;
  quote_required = false;
  duration_minutes = some 60;
  before_buffer_minutes = 0;
  after_buffer_minutes = 15;
  emergency_eligible = false;
}

abbrev an_address : Address
an_address = record {
  id = 5;
  customer_id = none;
  service_area_id = some 30;
  service_zone_id = none;
  timezone_name = "America/New_York";
}

abbrev hold_world : Surroundings
hold_world = record {
  sha256 = λ s. s;
  zones = λ name. some a_zone;
  candidates = λ service address from to emergency professional db.
      record { provider_id = 6; professional_id = 7; capacity_minutes = 75 } ∷ [];
}

abbrev a_request : HoldRequest
a_request = record {
  service_id = 4;
  address_id = 5;
  start_local = record { clock = 36000; has_offset = false };
  timezone_id = "America/New_York";
  booking_session = "session-0123456789";
  idempotency_key = "key-1";
  emergency = false;
}

abbrev catalog : Db
catalog = record empty { services = a_service ∷ []; addresses = an_address ∷ [] }

abbrev a_hold : BookingCapacityHold
a_hold = record {
  id = 100;
  booking_id = none;
  service_id = 4;
  address_id = 5;
  provider_candidate_id = 6;
  professional_candidate_id = 7;
  slot_start_utc = 54000;
  slot_end_utc = 58500;
  timezone_id = "America/New_York";
  capacity_minutes = 75;
  status = CapacityHoldStatus.held;
  expires_at = 2800;
  released_at = none;
  owner_fingerprint_hash = "session-0123456789";
  idempotency_key = "key-1";
}

run-IsWithin_example :
    IsWithin 1000
      (run hold_world
        (hold surroundings a_request ∷ give_back surroundings 100 "session-0123456789" ∷ [])
        catalog).holds
run-IsWithin_example =
    run-IsWithin hold_world
      (hold surroundings a_request ∷ give_back surroundings 100 "session-0123456789" ∷ []) 900
      catalog (omega arith) (λ owner. omega arith)

create-replays_example :
    request
      (create hold_world (record surroundings { now = 1200 }) a_request)
      (request (create hold_world surroundings a_request) catalog).1
    ≡ (ok a_hold, (request (create hold_world surroundings a_request) catalog).1)
unfolding is_space owner_fingerprint create create_or_existing create_new hold_for hold_slot
    store_hold insert_hold record_hold new_hold local_interval local_to_utc clock_to_utc
    enforce_hours request ◌>>=◌
create-replays_example =
    create-replays hold_world surroundings (record surroundings { now = 1200 }) a_request a_request
      catalog a_hold refl refl refl
