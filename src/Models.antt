-- ===== src/Models.antt =====
-- The tables that the marketplace services share (app/domains/*/models.py), as one database.
-- Identifiers (UUID columns) and times are numbers, times in seconds; a text column is a String.
-- Columns that no modelled code reads (created_at, updated_at of most tables) are left out.
mod Enum
mod Outbox
mod Jobs
mod Bookings
mod Payments
mod Leads
mod Finance
mod Dispatch
mod Holds
mod Intents
mod Catalog
pub use Outbox.*
pub use Jobs.*
pub use Bookings.*
pub use Payments.*
pub use Leads.*
pub use Finance.*
pub use Dispatch.*
pub use Holds.*
pub use Intents.*
pub use Catalog.*
use breero_com.Prelude.{List}

pub record Db : Type 0 where
  pub jobs : List Job
  pub job_events : List JobEvent
  pub work_requests : List WorkRequest
  pub bookings : List Booking
  pub payments : List Payment
  pub refunds : List Refund
  pub payment_events : List PaymentEvent
  pub idempotency_records : List IdempotencyRecord
  pub leads : List ProfessionalLead
  pub lead_purchases : List LeadPurchase
  pub plans : List CompensationPlan
  pub service_rates : List ServiceRate
  pub snapshots : List CompensationSnapshot
  pub earnings : List VendorEarning
  pub adjustments : List EarningAdjustment
  pub batches : List PayoutBatch
  pub vendors : List Vendor
  pub workers : List Worker
  pub offers : List DispatchOffer
  pub assignments : List Assignment
  pub holds : List BookingCapacityHold
  pub booking_intents : List BookingIntent
  pub services : List Service
  pub addresses : List Address
  pub lead_disputes : List LeadDispute
  pub events : List IntegrationEvent
  pub audits : List AuditLog
