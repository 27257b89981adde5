-- ===== src/Payments/Settle.antt =====
-- apps/api/app/domains/payments/service.py: what a captured payment, a failed one and a refunded one
-- do to the row that was paid for.
pub mod Release
pub mod Keeps
pub mod OneJob
use breero_com.Prelude.{
  List, Option, [], add, find, get, if◌then◌else◌, is_some, nat_eq, none, not, one_of, option_eq,
  some, string_eq, ℕ, ◌==◌, ◌∷◌,
}
use breero_com.Models.{
  Booking, BookingStatus, Db, IntegrationEvent, Job, JobEvent, JobStatus, LeadPurchase,
  LeadPurchaseStatus, LeadStatus, Payment, PaymentPurpose, PaymentStatus, ProfessionalLead,
  WorkRequest, WorkRequestStatus, approved_pending_payment, awaiting_approval, booking_status_eq,
  confirmed, job_status_eq, lead_purchase_status_eq, lead_status_eq, payment_purpose_eq,
  payment_status_eq, pending_provider_confirmation, professional_lead, purchased,
  quote_additional_work, reserved, work_request_status_eq,
}
use breero_com.Errors.{
  booking_not_confirmable, lead_not_settleable, payment_error, quote_not_settleable,
  unknown_booking, unknown_lead_purchase, unknown_quote,
}
use breero_com.Context.{Context, new_event, publish}
use breero_com.Session.{Tx, gets, guard, modify, pure, require, when, ◌>>=◌, ◌>>◌}
use breero_com.Payments.{
  booking_of, lead_id_of, purchase_of, put_booking, put_lead, put_purchase, quote_of,
}
use breero_com.Jobs.{Actor, apply_transition, completion_notes, diagnostic_notes, get_job}
use breero_com.Jobs.Work.{apply_work_request_transition, put_request}

captured_event : Context → Payment → IntegrationEvent
captured_event c p =
    new_event c (c.uuid 5) "payment" p.id "payment_captured" (("payment_id", p.id) ∷ [])

-- The branch of `_settle` for a lead.
pub settle_lead : Context → Payment → Tx Db (Unit {0})
unfolding captured_event
settle_lead c p = do
  bought ← gets (purchase_of p)
  purchase ← require bought (payment_error unknown_lead_purchase)
  modify (put_purchase (record purchase { status = LeadPurchaseStatus.paid }))
  found ← gets (λ db. get lead_id_of purchase.lead_id db.leads)
  lead ← require found (payment_error lead_not_settleable)
  guard (one_of lead.status (LeadStatus.reserved ∷ LeadStatus.purchased ∷ []))
      (payment_error lead_not_settleable)
  modify (put_lead (record lead { status = LeadStatus.purchased }))
  modify (publish (captured_event c p))

system_actor : Actor
system_actor = record {
  actor_id = none;
  actor_type = "system";
  reason = some "additional_work_payment_captured";
  metadata = [];
}

resume_paid : Context → Option Job → Tx Db (Unit {0})
unfolding system_actor
resume_paid c none = pure tt
resume_paid c (some job) =
    when (job.status == JobStatus.awaiting_approval)
      (apply_transition c job JobStatus.in_progress system_actor >>= λ _. pure tt)

pub resume_paid_job : Context → ℕ → Tx Db (Unit {0})
unfolding resume_paid
resume_paid_job c job_id = do found ← gets (get_job job_id); resume_paid c found

-- The branch of `_settle` for a quote, behind its lookup. A quote that is approved already ends
-- `_settle` before the event.
pub settle_quote : Context → Payment → WorkRequest → Tx Db (Unit {0})
unfolding resume_paid_job captured_event
settle_quote c p quote = if quote.status == WorkRequestStatus.approved then pure tt else do
  guard (quote.status == WorkRequestStatus.approved_pending_payment)
      (payment_error quote_not_settleable)
  approved ← apply_work_request_transition quote WorkRequestStatus.approved
  modify (put_request (record approved { payment_id = some p.id }))
  resume_paid_job c quote.job_id
  modify (publish (captured_event c p))

new_job : Context → Booking → Job
new_job c booking = record {
  id = c.uuid 2;
  booking_id = booking.id;
  customer_id = some booking.customer_id;
  service_id = booking.service_id;
  address_id = booking.address_id;
  status = JobStatus.created;
  scheduled_start = booking.window_start;
  scheduled_end = booking.window_end;
  vendor_id = none;
  worker_id = none;
  version = 1;
  diagnostic_notes = none;
  completion_notes = none;
  completed_at = none;
}

created_entry : Context → JobEvent
created_entry c = record {
  job_id = c.uuid 2;
  from_status = none;
  to_status = JobStatus.created;
  actor_id = none;
  actor_type = "system";
  reason = some "payment_captured";
  metadata = [];
}

job_created_event : Context → Booking → IntegrationEvent
job_created_event c booking =
    new_event c (c.uuid 3) "job" (c.uuid 2) "job.created"
      (("job_id", c.uuid 2) ∷ ("booking_id", booking.id) ∷ [])

unfoldable pub create_job : Context → Booking → Db → Db
unfolding new_job created_entry job_created_event
create_job c booking db = record db {
  jobs = add (new_job c booking) db.jobs;
  job_events = add (created_entry c) db.job_events;
  events = add (job_created_event c booking) db.events;
}

abbrev pub job_for_booking : ℕ → Db → Option Job
job_for_booking booking_id db = find (λ j. j.booking_id == booking_id) db.jobs

abbrev pub settled_bookings : List BookingStatus
settled_bookings = BookingStatus.pending_provider_confirmation ∷ BookingStatus.confirmed ∷ []

pub create_missing_job : Context → Booking → Tx Db (Unit {0})
create_missing_job c booking = do
  existing ← gets (job_for_booking booking.id)
  when (not (is_some existing)) (modify (create_job c booking))

-- `_confirm_booking_and_create_job`, behind its lookup.
pub confirm_booking : Context → Booking → Tx Db (Unit {0})
confirm_booking c booking = if one_of booking.status settled_bookings then pure tt else do
  guard (booking.status == BookingStatus.pending_payment) (payment_error booking_not_confirmable)
  modify (put_booking (record booking { status = BookingStatus.pending_provider_confirmation }))
  create_missing_job c booking

unfoldable pub settle_booking : Context → Payment → Tx Db (Unit {0})
unfolding captured_event
settle_booking c p = do
  found ← gets (booking_of p.booking_id)
  booking ← require found (payment_error unknown_booking)
  confirm_booking c booking
  modify (publish (captured_event c p))

pub settle_quote_payment : Context → Payment → Tx Db (Unit {0})
settle_quote_payment c p = do
  found ← gets (quote_of p.quote_id)
  quote ← require found (payment_error unknown_quote)
  settle_quote c p quote

-- `_settle`.
unfoldable pub settle : Context → Payment → Tx Db (Unit {0})
settle c p =
    if p.payment_purpose == PaymentPurpose.professional_lead
    then settle_lead c p
    else if p.payment_purpose == PaymentPurpose.quote_additional_work
    then settle_quote_payment c p
    else settle_booking c p

released_lead : ProfessionalLead → ProfessionalLead
released_lead lead = record lead { status = LeadStatus.available; purchased_by_vendor_id = none }

release_lead : Option ProfessionalLead → Tx Db (Unit {0})
unfolding released_lead
release_lead none = pure tt
release_lead (some lead) =
    when (lead.status == LeadStatus.reserved) (modify (put_lead (released_lead lead)))

fail_purchase : Option LeadPurchase → Tx Db (Unit {0})
unfolding release_lead
fail_purchase none = pure tt
fail_purchase (some purchase) = do
  modify (put_purchase (record purchase { status = LeadPurchaseStatus.failed }))
  found ← gets (λ db. get lead_id_of purchase.lead_id db.leads)
  release_lead found

-- `_release_failed_lead_purchase`.
unfoldable pub release_failed_lead_purchase : Payment → Tx Db (Unit {0})
unfolding fail_purchase
release_failed_lead_purchase p =
    when (p.payment_purpose == PaymentPurpose.professional_lead)
      (gets (purchase_of p) >>= fail_purchase)

mark_refunded : PaymentStatus → Option LeadPurchase → Tx Db (Unit {0})
mark_refunded status none = pure tt
mark_refunded status (some purchase) =
    when (status == PaymentStatus.refunded)
      (modify (put_purchase (record purchase { status = LeadPurchaseStatus.refunded })))

-- `_mark_lead_purchase_refunded`, and the test of the purpose that its callers make.
pub mark_lead_purchase_refunded : Payment → Tx Db (Unit {0})
unfolding mark_refunded
mark_lead_purchase_refunded p =
    when (p.payment_purpose == PaymentPurpose.professional_lead)
      (gets (purchase_of p) >>= mark_refunded p.status)
