-- ===== src/Models/Outbox.antt =====
-- apps/api/app/domains/common/outbox.py
use breero_com.Prelude.{ℕ, ◌≡◌, arith, Comparable, Option, String, List}
use breero_com.Models.Enum.{by_position}

pub data EventStatus : Type 0 where
  pending pending_configuration processing delivered retrying failed_retryable failed_terminal
        failed dead_letter :
      EventStatus

abbrev pub event_status_position : EventStatus → ℕ
event_status_position EventStatus.pending = 0
event_status_position EventStatus.pending_configuration = 1
event_status_position EventStatus.processing = 2
event_status_position EventStatus.delivered = 3
event_status_position EventStatus.retrying = 4
event_status_position EventStatus.failed_retryable = 5
event_status_position EventStatus.failed_terminal = 6
event_status_position EventStatus.failed = 7
event_status_position EventStatus.dead_letter = 8

pub event_status_position_injective :
    (a b : EventStatus) → event_status_position a ≡ event_status_position b → a ≡ b
event_status_position_injective a b h = ground arith

instance abbrev pub event_status_eq : Comparable EventStatus
event_status_eq = by_position event_status_position event_status_position_injective

-- A payload names the identifiers that it carries.
pub record IntegrationEvent : Type 0 where
  pub id : ℕ
  pub aggregate_type : String
  pub aggregate_id : ℕ
  pub event_type : String
  pub payload : List (String × ℕ)
  pub status : EventStatus
  pub attempt_count : ℕ
  pub next_attempt_at : ℕ
  pub claimed_at : Option ℕ
  pub lease_expires_at : Option ℕ
  pub claim_token : Option ℕ
  pub processed_at : Option ℕ
  pub last_error : Option String
  pub last_error_code : Option String
  pub last_error_at : Option ℕ
  pub external_model : Option String
  pub external_record_id : Option String

pub record AuditLog : Type 0 where
  pub actor_id : Option ℕ
  pub action : String
  pub resource_type : String
  pub resource_id : ℕ
  pub metadata : List (String × String)
  pub created_at : ℕ
