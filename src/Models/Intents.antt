-- ===== src/Models/Intents.antt =====
-- apps/api/app/domains/booking_intents/models.py. A date is the number of its day.
use breero_com.Prelude.{ℕ, ◌≡◌, arith, Comparable, Option, String}
use breero_com.Models.Enum.{by_position}

-- `SlotSelection` of booking_intents/schemas.py: a text `HH:MM` is the minute of the day.
pub record SlotSelection : Type 0 where
  pub slot_token : String
  pub start_local : ℕ
  pub end_local : ℕ

pub data BookingIntentStatus : Type 0 where
  draft address_validated coverage_confirmed availability_found submitted expired :
      BookingIntentStatus

abbrev pub booking_intent_status_position : BookingIntentStatus → ℕ
booking_intent_status_position BookingIntentStatus.draft = 0
booking_intent_status_position BookingIntentStatus.address_validated = 1
booking_intent_status_position BookingIntentStatus.coverage_confirmed = 2
booking_intent_status_position BookingIntentStatus.availability_found = 3
booking_intent_status_position BookingIntentStatus.submitted = 4
booking_intent_status_position BookingIntentStatus.expired = 5

pub booking_intent_status_position_injective :
    (a b : BookingIntentStatus)
    → booking_intent_status_position a ≡ booking_intent_status_position b
    → a ≡ b
booking_intent_status_position_injective a b h = ground arith

instance abbrev pub booking_intent_status_eq : Comparable BookingIntentStatus
booking_intent_status_eq =
    by_position booking_intent_status_position booking_intent_status_position_injective

pub record BookingIntent : Type 0 where
  pub id : ℕ
  pub public_reference : String
  pub anonymous_session_id : ℕ
  pub service_id : ℕ
  pub address_id : Option ℕ
  pub timezone_id : Option String
  pub requested_date : Option ℕ
  pub selected_slot : Option SlotSelection
  pub status : BookingIntentStatus
  pub expires_at : ℕ
  pub version : ℕ
  pub booking_id : Option ℕ
