-- ===== src/Models/Payments.antt =====
-- apps/api/app/domains/payments/models.py
use breero_com.Prelude.{ℕ, ◌≡◌, arith, Comparable, Option, String, List}
use breero_com.Models.Enum.{by_position}

pub data PaymentStatus : Type 0 where
  created requires_action authorized captured failed canceled refunded partially_refunded :
      PaymentStatus

abbrev pub payment_status_position : PaymentStatus → ℕ
payment_status_position PaymentStatus.created = 0
payment_status_position PaymentStatus.requires_action = 1
payment_status_position PaymentStatus.authorized = 2
payment_status_position PaymentStatus.captured = 3
payment_status_position PaymentStatus.failed = 4
payment_status_position PaymentStatus.canceled = 5
payment_status_position PaymentStatus.refunded = 6
payment_status_position PaymentStatus.partially_refunded = 7

pub payment_status_position_injective :
    (a b : PaymentStatus) → payment_status_position a ≡ payment_status_position b → a ≡ b
payment_status_position_injective a b h = ground arith

instance abbrev pub payment_status_eq : Comparable PaymentStatus
payment_status_eq = by_position payment_status_position payment_status_position_injective

pub data PaymentPurpose : Type 0 where
  booking_diagnostic quote_additional_work professional_lead : PaymentPurpose

abbrev pub payment_purpose_position : PaymentPurpose → ℕ
payment_purpose_position PaymentPurpose.booking_diagnostic = 0
payment_purpose_position PaymentPurpose.quote_additional_work = 1
payment_purpose_position PaymentPurpose.professional_lead = 2

pub payment_purpose_position_injective :
    (a b : PaymentPurpose) → payment_purpose_position a ≡ payment_purpose_position b → a ≡ b
payment_purpose_position_injective a b h = ground arith

instance abbrev pub payment_purpose_eq : Comparable PaymentPurpose
payment_purpose_eq = by_position payment_purpose_position payment_purpose_position_injective

pub data RefundStatus : Type 0 where
  pending succeeded failed canceled : RefundStatus

abbrev pub refund_status_position : RefundStatus → ℕ
refund_status_position RefundStatus.pending = 0
refund_status_position RefundStatus.succeeded = 1
refund_status_position RefundStatus.failed = 2
refund_status_position RefundStatus.canceled = 3

pub refund_status_position_injective :
    (a b : RefundStatus) → refund_status_position a ≡ refund_status_position b → a ≡ b
refund_status_position_injective a b h = ground arith

instance abbrev pub refund_status_eq : Comparable RefundStatus
refund_status_eq = by_position refund_status_position refund_status_position_injective

pub record Payment : Type 0 where
  pub id : ℕ
  pub booking_id : Option ℕ
  pub quote_id : Option ℕ
  pub lead_purchase_id : Option ℕ
  pub payment_purpose : PaymentPurpose
  pub provider : String
  pub provider_payment_id : Option String
  pub status : PaymentStatus
  pub amount_minor : ℕ
  pub currency : String
  pub captured_amount_minor : ℕ
  pub provider_client_secret : Option String
  pub failure_code : Option String
  pub metadata : List (String × String)

pub record Refund : Type 0 where
  pub id : ℕ
  pub payment_id : ℕ
  pub amount_minor : ℕ
  pub status : RefundStatus
  pub provider_refund_id : Option String
  pub idempotency_key : String
  pub reason : Option String
  pub created_by : ℕ

pub record PaymentEvent : Type 0 where
  pub provider : String
  pub provider_event_id : String
  pub event_type : String
  pub payment_id : Option ℕ
  pub status : String
  pub attempts : ℕ
  pub last_error : Option String
  pub processed_at : Option ℕ

pub record IdempotencyRecord : Type 0 where
  pub operation : String
  pub idempotency_key : String
  pub request_hash : ℕ
  pub response_code : Option ℕ
  pub response_body : Option ℕ
