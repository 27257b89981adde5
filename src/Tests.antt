-- ===== src/Tests.antt =====
-- Concrete inputs for the tests and the witnesses.
mod Jobs
mod Finance
mod Payments
mod Outbox
mod Dispatch
mod Offers
mod Booking
mod Leads
mod Intents
use breero_com.Prelude.{[], none, some, true, ◌+◌}
use breero_com.Models.{Db, Job, JobStatus}
use breero_com.Context.{Context}

abbrev pub surroundings : Context
surroundings = record {
  now = 1000;
  uuid = λ k. 100 + k;
  token = "PO-1";
  str = λ k. "id";
  text_of = λ e. "failed";
  payments_enabled = true;
  payout_enabled = true;
  stripe_enabled = true;
  odoo_enabled = true;
}

abbrev pub empty : Db
empty = record {
  jobs = [];
  job_events = [];
  work_requests = [];
  bookings = [];
  payments = [];
  refunds = [];
  payment_events = [];
  idempotency_records = [];
  leads = [];
  lead_purchases = [];
  plans = [];
  service_rates = [];
  snapshots = [];
  earnings = [];
  adjustments = [];
  batches = [];
  vendors = [];
  workers = [];
  offers = [];
  assignments = [];
  holds = [];
  booking_intents = [];
  services = [];
  addresses = [];
  lead_disputes = [];
  events = [];
  audits = [];
}

abbrev pub a_job : Job
a_job = record {
  id = 1;
  booking_id = 2;
  customer_id = some 3;
  service_id = 4;
  address_id = 5;
  status = JobStatus.created;
  scheduled_start = 2000;
  scheduled_end = 5600;
  vendor_id = some 6;
  worker_id = some 7;
  version = 1;
  diagnostic_notes = none;
  completion_notes = none;
  completed_at = none;
}
