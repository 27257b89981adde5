-- ===== src/Payments.antt =====
-- apps/api/app/domains/payments: the payment provider (app/integrations/contracts.py and schemas.py),
-- a parameter, and the rows that the payment service reads (repository.py).
pub mod Settle
pub mod Intents
pub mod Refunds
pub mod Webhooks
pub mod OneJob
pub mod Atomic
use breero_com.Prelude.{
  List, Option, String, [], add, find, get, lookup, nat_eq, none, option_eq, or_else, put, some,
  string_eq, ℕ, ◌==◌, ◌∷◌,
}
use breero_com.Models.{
  Booking, Db, LeadPurchase, Payment, PaymentStatus, ProfessionalLead, WorkRequest, authorized,
  captured, payment_status_eq, requires_action,
}
use breero_com.Session.{Outcome}
use breero_com.Jobs.Work.{get_request}

pub record ProviderIntent : Type 0 where
  pub id : String
  pub status : String
  pub client_secret : Option String
  pub amount_received : ℕ

pub record ProviderRefund : Type 0 where
  pub id : String
  pub status : String

-- `event["data"]["object"]`: what the service reads of it.
pub record WebhookObject : Type 0 where
  pub object : Option String
  pub id : Option String
  pub status : Option String
  pub amount_received : Option ℕ
  -- `last_payment_error.code`
  pub error_code : Option String

pub record WebhookEvent : Type 0 where
  pub id : String
  pub event_type : String
  pub object : WebhookObject

pub record PaymentProvider : Type 0 where
  -- the amount, the currency, the capture method, the metadata and the idempotency key
  pub create_intent : ℕ → String → String → List (String × String) → String → Outcome ProviderIntent
  pub capture_intent : String → Option ℕ → String → Outcome ProviderIntent
  pub create_refund : String → ℕ → String → Outcome ProviderRefund
  pub verify_webhook : String → String → Outcome WebhookEvent

-- `STRIPE_STATUS`.
unfoldable pub stripe_statuses : List (String × PaymentStatus)
stripe_statuses =
    ("requires_payment_method", PaymentStatus.created)
    ∷ ("requires_confirmation", PaymentStatus.created)
    ∷ ("requires_action", PaymentStatus.requires_action)
    ∷ ("processing", PaymentStatus.authorized)
    ∷ ("requires_capture", PaymentStatus.authorized)
    ∷ ("succeeded", PaymentStatus.captured)
    ∷ ("canceled", PaymentStatus.canceled)
    ∷ []

-- `STRIPE_STATUS.get(status, default)`.
unfoldable pub stripe_status : String → PaymentStatus → PaymentStatus
unfolding stripe_statuses
stripe_status status default = or_else (lookup status stripe_statuses) default

abbrev pub payment_id_of : Payment → ℕ
payment_id_of p = p.id

-- `PaymentRepository.get`.
abbrev pub get_payment : ℕ → Db → Option Payment
get_payment payment_id db = get payment_id_of payment_id db.payments

abbrev pub put_payment : Payment → Db → Db
put_payment payment db = record db { payments = put payment_id_of payment db.payments }

-- `PaymentRepository.add`.
abbrev pub add_payment : Payment → Db → Db
add_payment payment db = record db { payments = add payment db.payments }

-- `PaymentRepository.get_by_provider_id`.
abbrev pub get_by_provider_id : String → Db → Option Payment
get_by_provider_id provider_id db =
    find (λ p. p.provider_payment_id == some provider_id) db.payments

abbrev pub lead_id_of : ProfessionalLead → ℕ
lead_id_of l = l.id

abbrev pub purchase_id_of : LeadPurchase → ℕ
purchase_id_of p = p.id

-- The row that an optional reference names: a query for `NULL` finds none.
abbrev pub purchase_of : Payment → Db → Option LeadPurchase
purchase_of payment db = elim payment.lead_purchase_id [
  | none ↦ none
  | some k ↦ get purchase_id_of k db.lead_purchases
]

abbrev pub put_purchase : LeadPurchase → Db → Db
put_purchase purchase db = record db {
  lead_purchases = put purchase_id_of purchase db.lead_purchases;
}

abbrev pub put_lead : ProfessionalLead → Db → Db
put_lead lead db = record db { leads = put lead_id_of lead db.leads }

abbrev pub booking_id_of : Booking → ℕ
booking_id_of b = b.id

abbrev pub put_booking : Booking → Db → Db
put_booking booking db = record db { bookings = put booking_id_of booking db.bookings }

abbrev pub booking_of : Option ℕ → Db → Option Booking
booking_of none db = none
booking_of (some k) db = get booking_id_of k db.bookings

abbrev pub quote_of : Option ℕ → Db → Option WorkRequest
quote_of none db = none
quote_of (some k) db = get_request k db
