-- ===== src/Models/Jobs.antt =====
-- apps/api/app/domains/jobs/models.py
use breero_com.Prelude.{ℕ, ◌≡◌, arith, Comparable, Option, String, List}
use breero_com.Models.Enum.{by_position}

pub data JobStatus : Type 0 where
  created matching offered assigned en_route on_site diagnosing awaiting_approval in_progress
        completed cancelled :
      JobStatus

abbrev pub job_status_position : JobStatus → ℕ
job_status_position JobStatus.created = 0
job_status_position JobStatus.matching = 1
job_status_position JobStatus.offered = 2
job_status_position JobStatus.assigned = 3
job_status_position JobStatus.en_route = 4
job_status_position JobStatus.on_site = 5
job_status_position JobStatus.diagnosing = 6
job_status_position JobStatus.awaiting_approval = 7
job_status_position JobStatus.in_progress = 8
job_status_position JobStatus.completed = 9
job_status_position JobStatus.cancelled = 10

pub job_status_position_injective :
    (a b : JobStatus) → job_status_position a ≡ job_status_position b → a ≡ b
job_status_position_injective a b h = ground arith

instance abbrev pub job_status_eq : Comparable JobStatus
job_status_eq = by_position job_status_position job_status_position_injective

pub data WorkRequestStatus : Type 0 where
  draft submitted pending_customer approved_pending_payment approved declined paid cancelled
        expired :
      WorkRequestStatus

abbrev pub work_request_status_position : WorkRequestStatus → ℕ
work_request_status_position WorkRequestStatus.draft = 0
work_request_status_position WorkRequestStatus.submitted = 1
work_request_status_position WorkRequestStatus.pending_customer = 2
work_request_status_position WorkRequestStatus.approved_pending_payment = 3
work_request_status_position WorkRequestStatus.approved = 4
work_request_status_position WorkRequestStatus.declined = 5
work_request_status_position WorkRequestStatus.paid = 6
work_request_status_position WorkRequestStatus.cancelled = 7
work_request_status_position WorkRequestStatus.expired = 8

pub work_request_status_position_injective :
    (a b : WorkRequestStatus)
    → work_request_status_position a ≡ work_request_status_position b
    → a ≡ b
work_request_status_position_injective a b h = ground arith

instance abbrev pub work_request_status_eq : Comparable WorkRequestStatus
work_request_status_eq =
    by_position work_request_status_position work_request_status_position_injective

pub record Job : Type 0 where
  pub id : ℕ
  pub booking_id : ℕ
  pub customer_id : Option ℕ
  pub service_id : ℕ
  pub address_id : ℕ
  pub status : JobStatus
  pub scheduled_start : ℕ
  pub scheduled_end : ℕ
  pub vendor_id : Option ℕ
  pub worker_id : Option ℕ
  pub version : ℕ
  pub diagnostic_notes : Option String
  pub completion_notes : Option String
  pub completed_at : Option ℕ

pub record JobEvent : Type 0 where
  pub job_id : ℕ
  pub from_status : Option JobStatus
  pub to_status : JobStatus
  pub actor_id : Option ℕ
  pub actor_type : String
  pub reason : Option String
  pub metadata : List (String × ℕ)

pub record WorkLineItem : Type 0 where
  pub description : String
  pub quantity : ℕ
  pub unit_price_minor : ℕ

pub record WorkRequest : Type 0 where
  pub id : ℕ
  pub job_id : ℕ
  pub status : WorkRequestStatus
  pub description : String
  pub line_items : List WorkLineItem
  pub subtotal_minor : ℕ
  pub tax_minor : ℕ
  pub total_minor : ℕ
  pub currency : String
  pub payment_id : Option ℕ
  pub customer_decided_at : Option ℕ
  pub created_by : ℕ
