-- ===== src/Models/Bookings.antt =====
-- apps/api/app/domains/booking/models.py: the booking and its states.
use breero_com.Prelude.{ℕ, ◌≡◌, arith, Comparable, Option, String}
use breero_com.Models.Enum.{by_position}

pub data BookingStatus : Type 0 where
  draft requested pending_review address_validated coverage_confirmed availability_found
        capacity_held awaiting_assignment provider_assigned pending_manual_dispatch tentative_hold
        pending_payment pending_provider_confirmation confirmed en_route in_progress completed
        no_coverage no_capacity quote_required provider_declined reassignment_required rescheduled
        cancelled expired :
      BookingStatus

abbrev pub booking_status_position : BookingStatus → ℕ
booking_status_position BookingStatus.draft = 0
booking_status_position BookingStatus.requested = 1
booking_status_position BookingStatus.pending_review = 2
booking_status_position BookingStatus.address_validated = 3
booking_status_position BookingStatus.coverage_confirmed = 4
booking_status_position BookingStatus.availability_found = 5
booking_status_position BookingStatus.capacity_held = 6
booking_status_position BookingStatus.awaiting_assignment = 7
booking_status_position BookingStatus.provider_assigned = 8
booking_status_position BookingStatus.pending_manual_dispatch = 9
booking_status_position BookingStatus.tentative_hold = 10
booking_status_position BookingStatus.pending_payment = 11
booking_status_position BookingStatus.pending_provider_confirmation = 12
booking_status_position BookingStatus.confirmed = 13
booking_status_position BookingStatus.en_route = 14
booking_status_position BookingStatus.in_progress = 15
booking_status_position BookingStatus.completed = 16
booking_status_position BookingStatus.no_coverage = 17
booking_status_position BookingStatus.no_capacity = 18
booking_status_position BookingStatus.quote_required = 19
booking_status_position BookingStatus.provider_declined = 20
booking_status_position BookingStatus.reassignment_required = 21
booking_status_position BookingStatus.rescheduled = 22
booking_status_position BookingStatus.cancelled = 23
booking_status_position BookingStatus.expired = 24

pub booking_status_position_injective :
    (a b : BookingStatus) → booking_status_position a ≡ booking_status_position b → a ≡ b
booking_status_position_injective a b h = ground arith

instance abbrev pub booking_status_eq : Comparable BookingStatus
booking_status_eq = by_position booking_status_position booking_status_position_injective

-- `total_amount` is a decimal with two places: it is counted in hundredths.
pub record Booking : Type 0 where
  pub id : ℕ
  pub customer_id : ℕ
  pub address_id : ℕ
  pub service_id : ℕ
  pub provider_worker_id : Option ℕ
  pub window_start : ℕ
  pub window_end : ℕ
  pub status : BookingStatus
  pub total_amount : ℕ
  pub currency : String
  pub expires_at : ℕ
