-- ===== src/Models/Holds.antt =====
-- apps/api/app/domains/booking/capacity_models.py: the hold of a provider's slot.
use breero_com.Prelude.{ℕ, ◌≡◌, arith, Comparable, Option, String}
use breero_com.Models.Enum.{by_position}

pub data CapacityHoldStatus : Type 0 where
  held converted expired released : CapacityHoldStatus

abbrev pub capacity_hold_status_position : CapacityHoldStatus → ℕ
capacity_hold_status_position CapacityHoldStatus.held = 0
capacity_hold_status_position CapacityHoldStatus.converted = 1
capacity_hold_status_position CapacityHoldStatus.expired = 2
capacity_hold_status_position CapacityHoldStatus.released = 3

pub capacity_hold_status_position_injective :
    (a b : CapacityHoldStatus)
    → capacity_hold_status_position a ≡ capacity_hold_status_position b
    → a ≡ b
capacity_hold_status_position_injective a b h = ground arith

instance abbrev pub capacity_hold_status_eq : Comparable CapacityHoldStatus
capacity_hold_status_eq =
    by_position capacity_hold_status_position capacity_hold_status_position_injective

pub record BookingCapacityHold : Type 0 where
  pub id : ℕ
  pub booking_id : Option ℕ
  pub service_id : ℕ
  pub address_id : ℕ
  pub provider_candidate_id : ℕ
  pub professional_candidate_id : ℕ
  pub slot_start_utc : ℕ
  pub slot_end_utc : ℕ
  pub timezone_id : String
  pub capacity_minutes : ℕ
  pub status : CapacityHoldStatus
  pub expires_at : ℕ
  pub released_at : Option ℕ
  pub owner_fingerprint_hash : String
  pub idempotency_key : String
