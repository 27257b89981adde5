-- ===== src/Models/Dispatch.antt =====
-- apps/api/app/domains/dispatch/models.py, and the providers of app/domains/workforce/models.py
-- as far as dispatch reads them.
use breero_com.Prelude.{ℕ, ◌≡◌, arith, Comparable, Option, Bool, List, String}
use breero_com.Models.Enum.{by_position}

pub data OfferStatus : Type 0 where
  pending accepted declined expired withdrawn : OfferStatus

abbrev pub offer_status_position : OfferStatus → ℕ
offer_status_position OfferStatus.pending = 0
offer_status_position OfferStatus.accepted = 1
offer_status_position OfferStatus.declined = 2
offer_status_position OfferStatus.expired = 3
offer_status_position OfferStatus.withdrawn = 4

pub offer_status_position_injective :
    (a b : OfferStatus) → offer_status_position a ≡ offer_status_position b → a ≡ b
offer_status_position_injective a b h = ground arith

instance abbrev pub offer_status_eq : Comparable OfferStatus
offer_status_eq = by_position offer_status_position offer_status_position_injective

pub data AssignmentStatus : Type 0 where
  active released completed : AssignmentStatus

abbrev pub assignment_status_position : AssignmentStatus → ℕ
assignment_status_position AssignmentStatus.active = 0
assignment_status_position AssignmentStatus.released = 1
assignment_status_position AssignmentStatus.completed = 2

pub assignment_status_position_injective :
    (a b : AssignmentStatus) → assignment_status_position a ≡ assignment_status_position b → a ≡ b
assignment_status_position_injective a b h = ground arith

instance abbrev pub assignment_status_eq : Comparable AssignmentStatus
assignment_status_eq = by_position assignment_status_position assignment_status_position_injective

pub data VendorStatus : Type 0 where
  pending under_review active paused suspended rejected offboarded : VendorStatus

abbrev pub vendor_status_position : VendorStatus → ℕ
vendor_status_position VendorStatus.pending = 0
vendor_status_position VendorStatus.under_review = 1
vendor_status_position VendorStatus.active = 2
vendor_status_position VendorStatus.paused = 3
vendor_status_position VendorStatus.suspended = 4
vendor_status_position VendorStatus.rejected = 5
vendor_status_position VendorStatus.offboarded = 6

pub vendor_status_position_injective :
    (a b : VendorStatus) → vendor_status_position a ≡ vendor_status_position b → a ≡ b
vendor_status_position_injective a b h = ground arith

instance abbrev pub vendor_status_eq : Comparable VendorStatus
vendor_status_eq = by_position vendor_status_position vendor_status_position_injective

pub data WorkerStatus : Type 0 where
  invited active inactive : WorkerStatus

abbrev pub worker_status_position : WorkerStatus → ℕ
worker_status_position WorkerStatus.invited = 0
worker_status_position WorkerStatus.active = 1
worker_status_position WorkerStatus.inactive = 2

pub worker_status_position_injective :
    (a b : WorkerStatus) → worker_status_position a ≡ worker_status_position b → a ≡ b
worker_status_position_injective a b h = ground arith

instance abbrev pub worker_status_eq : Comparable WorkerStatus
worker_status_eq = by_position worker_status_position worker_status_position_injective

pub record Vendor : Type 0 where
  pub id : ℕ
  pub status : VendorStatus
  pub capabilities : List String

pub record Worker : Type 0 where
  pub id : ℕ
  pub vendor_id : ℕ
  pub status : WorkerStatus
  pub available : Bool

pub record DispatchOffer : Type 0 where
  pub id : ℕ
  pub job_id : ℕ
  pub vendor_id : ℕ
  pub worker_id : Option ℕ
  pub status : OfferStatus
  pub round : ℕ
  pub score : ℕ
  pub expires_at : ℕ
  pub responded_at : Option ℕ

pub record Assignment : Type 0 where
  pub job_id : ℕ
  pub offer_id : Option ℕ
  pub vendor_id : ℕ
  pub worker_id : ℕ
  pub status : AssignmentStatus
  pub assigned_by : Option ℕ
