-- ===== src/Intents/Changes.antt =====
-- apps/api/app/domains/booking_intents/service.py: what the fields of an update leave of an intent.
use breero_com.Prelude.{
  Bool, List, Option, String, arith, false, if◌then◌else◌, ltb, none, or_else, refl, some, true, ℕ,
  ◌∙◌, ◌≡◌,
}
use breero_com.Models.{BookingIntent, BookingIntentStatus, Db, SlotSelection}
use breero_com.Errors.{requested_date_in_past, slot_unavailable}
use breero_com.Session.{Outcome, err, ok}
use breero_com.Booking.Timezones.{Zone}
use breero_com.Intents.Drafts.{get_address}
use breero_com.Intents.Fields.{
  IntentWorld, covered_status, has_slot, select_slot, set_address, set_date, set_service, set_slot,
  set_timezone, slot_window, today, with_address, with_date, with_service, with_timezone,
  without_slot, zone_of, zone_or_utc,
}

-- The same row, in the same version.
abbrev SameKey : BookingIntent → BookingIntent → Type 0
SameKey i x = (x.id ≡ i.id) × (x.version ≡ i.version)

pub trans_key : (i x y : BookingIntent) → SameKey i x → SameKey x y → SameKey i y
trans_key i x y h k = (k.0 ∙ h.0, k.1 ∙ h.1)

with_service-SameKey : (service_id : ℕ) (i : BookingIntent) → SameKey i (with_service service_id i)
with_service-SameKey service_id i = ground arith

pub set_service-SameKey :
    (o : Option (Option ℕ)) (db : Db) (i x : BookingIntent)
    → set_service o db i ≡ ok x
    → SameKey i x
unfolding set_service
set_service-SameKey none db i x h = ground arith
set_service-SameKey (some none) db i x h = absurd (ground arith)
set_service-SameKey (some (some service_id)) db i x h =
    ground (arith, with_service-SameKey service_id i)

with_address-SameKey :
    (o : Option ℕ) (status : BookingIntentStatus) (i : BookingIntent)
    → SameKey i (record (with_address o i) { status = status })
with_address-SameKey o status i = ground arith

pub set_address-SameKey :
    (o : Option (Option ℕ)) (db : Db) (i x : BookingIntent)
    → set_address o db i ≡ ok x
    → SameKey i x
unfolding set_address
set_address-SameKey none db i x h = ground arith
set_address-SameKey (some none) db i x h =
    ground (arith, with_address-SameKey none BookingIntentStatus.draft i)
set_address-SameKey (some (some address_id)) db i x h =
    ground
      (arith, with_address-SameKey (some address_id) (covered_status (get_address address_id db)) i)

pub set_timezone-SameKey :
    (w : IntentWorld) (o : Option (Option String)) (i x : BookingIntent)
    → set_timezone w o i ≡ ok x
    → SameKey i x
unfolding set_timezone
set_timezone-SameKey w none i x h = ground arith
set_timezone-SameKey w (some none) i x h = ground arith
set_timezone-SameKey w (some (some timezone_id)) i x h = by_zone (zone_of w (some timezone_id)) h
  where
    by_zone :
        (r : Outcome Zone)
        → ◌≡◌ {A = Outcome BookingIntent}
            (elim r [ err e ↦ err e | ok z ↦ ok (with_timezone (some timezone_id) i) ])
            (ok x)
        → SameKey i x
    by_zone (ok z) h = ground arith
    by_zone (err e) h = absurd (ground arith)

pub set_date-SameKey :
    (w : IntentWorld) (now : ℕ) (o : Option (Option ℕ)) (i x : BookingIntent)
    → set_date w now o i ≡ ok x
    → SameKey i x
unfolding set_date
set_date-SameKey w now none i x h = ground arith
set_date-SameKey w now (some none) i x h = ground arith
set_date-SameKey w now (some (some day)) i x h = by_zone (zone_or_utc w i.timezone_id) h
  where
    by_zone :
        (r : Outcome Zone)
        → ◌≡◌ {A = Outcome BookingIntent}
            (elim r [
              | err e ↦ err e
              | ok z ↦
                  if ltb day (today z now)
                  then err requested_date_in_past
                  else ok (with_date (some day) i)
            ])
            (ok x)
        → SameKey i x
    by_zone (ok z) h = ground arith
    by_zone (err e) h = absurd (ground arith)

select_slot-SameKey :
    (w : IntentWorld) (db : Db) (i : BookingIntent) (slot : SlotSelection) (address_id day : ℕ)
    (x : BookingIntent)
    → select_slot w db i slot address_id day ≡ ok x
    → SameKey i x
unfolding select_slot
select_slot-SameKey w db i slot address_id day x h =
    by_answers (zone_of w i.timezone_id) (w.search_slots i.service_id address_id day db) h
  where
    by_answers :
        (z : Outcome Zone) (r : Outcome (List (ℕ × ℕ)))
        → ◌≡◌ {A = Outcome BookingIntent}
            (elim z [
              | err e ↦ err e
              | ok zone ↦ elim r [
                | err e ↦ err e
                | ok slots ↦
                    if has_slot (slot_window zone day slot) slots
                    then ok (record i {
                      selected_slot = some slot;
                      status = BookingIntentStatus.availability_found;
                    })
                    else err slot_unavailable
              ]
            ])
            (ok x)
        → SameKey i x
    by_answers (err e) r h = absurd (ground arith)
    by_answers (ok z) (err e) h = absurd (ground arith)
    by_answers (ok z) (ok slots) h = ground arith

pub set_slot-SameKey :
    (w : IntentWorld) (o : Option (Option SlotSelection)) (db : Db) (i x : BookingIntent)
    → set_slot w o db i ≡ ok x
    → SameKey i x
unfolding set_slot
set_slot-SameKey w none db i x h = ground arith
set_slot-SameKey w (some none) db i x h = ground arith
set_slot-SameKey w (some (some slot)) db i x h =
    ground (
      arith,
      select_slot-SameKey w db i slot (or_else i.address_id 0) (or_else i.requested_date 0) x,
    )

pub cleared-SameKey :
    (b : Bool) (db : Db) (i : BookingIntent) → SameKey i (if b then without_slot db i else i)
cleared-SameKey true db i = (refl, refl)
cleared-SameKey false db i = (refl, refl)
