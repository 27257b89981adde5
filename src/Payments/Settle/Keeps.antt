-- ===== src/Payments/Settle/Keeps.antt =====
-- What the settling, the release and the refund of what was paid for keep of the session: what each
-- of their writes keeps.
use breero_com.Prelude.{Option, none, some, ℕ}
use breero_com.Models.{
  Booking, Db, IntegrationEvent, Job, JobEvent, LeadPurchase, Payment, PaymentStatus,
  ProfessionalLead, WorkRequest, WorkRequestStatus,
}
use breero_com.Context.{Context, publish}
use breero_com.Session.{Session, modify}
use breero_com.Session.Keeps.{Keeps, keeps_rules}
use breero_com.Jobs.{log_transition}
use breero_com.Jobs.Work.{apply_work_request_transition, put_request}
use breero_com.Jobs.Keeps.{apply_transition-Keeps}
use breero_com.Payments.{put_booking, put_lead, put_purchase}
use breero_com.Payments.Settle.{
  confirm_booking, create_job, create_missing_job, fail_purchase, mark_lead_purchase_refunded,
  mark_refunded, release_failed_lead_purchase, release_lead, resume_paid, resume_paid_job, settle,
  settle_booking, settle_lead, settle_quote, settle_quote_payment,
}

-- The writes, and the two steps that look at the state before they write.
pub record SettleKeeps (P : Session Db → Type 0) : Type 0 where
  pub purchase : (p : LeadPurchase) → Keeps P (modify (put_purchase p))
  pub lead : (l : ProfessionalLead) → Keeps P (modify (put_lead l))
  pub request : (r : WorkRequest) → Keeps P (modify (put_request r))
  pub booking : (b : Booking) → Keeps P (modify (put_booking b))
  pub event : (e : IntegrationEvent) → Keeps P (modify (publish e))
  pub paid_job : (c : Context) (job_id : ℕ) → Keeps P (resume_paid_job c job_id)
  pub missing_job : (c : Context) (b : Booking) → Keeps P (create_missing_job c b)

module _ {P : Session Db → Type 0} where
  resume_paid-Keeps :
      ((event : JobEvent) (j : Job) → Keeps P (modify (log_transition event j)))
      → (c : Context) (o : Option Job) → Keeps P (resume_paid c o)
  unfolding resume_paid
  resume_paid-Keeps logged c none = search keeps_rules
  resume_paid-Keeps logged c (some j) = search (keeps_rules, apply_transition-Keeps logged) depth 16

  pub resume_paid_job-Keeps :
      ((event : JobEvent) (j : Job) → Keeps P (modify (log_transition event j)))
      → (c : Context) (job_id : ℕ) → Keeps P (resume_paid_job c job_id)
  unfolding resume_paid_job
  resume_paid_job-Keeps logged c job_id = search (keeps_rules, resume_paid-Keeps logged) depth 16

  pub create_missing_job-Keeps :
      ((c : Context) (b : Booking) → Keeps P (modify (create_job c b)))
      → (c : Context) (b : Booking) → Keeps P (create_missing_job c b)
  unfolding create_missing_job
  create_missing_job-Keeps created c b = search (keeps_rules, created) depth 16

module _ {P : Session Db → Type 0} (w : SettleKeeps P) where
  settle_lead-Keeps : (c : Context) (p : Payment) → Keeps P (settle_lead c p)
  unfolding settle_lead
  settle_lead-Keeps c p = search (keeps_rules, w.purchase, w.lead, w.event) depth 24

  request-Keeps :
      (r : WorkRequest) (target : WorkRequestStatus)
      → Keeps P (apply_work_request_transition r target)
  unfolding apply_work_request_transition
  request-Keeps r target = search (keeps_rules, w.request) depth 16

  settle_quote-Keeps : (c : Context) (p : Payment) (q : WorkRequest) → Keeps P (settle_quote c p q)
  unfolding settle_quote
  settle_quote-Keeps c p q =
      search (keeps_rules, request-Keeps, w.request, w.paid_job, w.event) depth 24

  settle_quote_payment-Keeps : (c : Context) (p : Payment) → Keeps P (settle_quote_payment c p)
  unfolding settle_quote_payment
  settle_quote_payment-Keeps c p = search (keeps_rules, settle_quote-Keeps) depth 16

  confirm_booking-Keeps : (c : Context) (b : Booking) → Keeps P (confirm_booking c b)
  unfolding confirm_booking
  confirm_booking-Keeps c b = search (keeps_rules, w.booking, w.missing_job) depth 16

  settle_booking-Keeps : (c : Context) (p : Payment) → Keeps P (settle_booking c p)
  unfolding settle_booking
  settle_booking-Keeps c p = search (keeps_rules, confirm_booking-Keeps, w.event) depth 16

  pub settle-Keeps : (c : Context) (p : Payment) → Keeps P (settle c p)
  unfolding settle
  settle-Keeps c p =
      search (keeps_rules, settle_lead-Keeps, settle_quote_payment-Keeps, settle_booking-Keeps)

  release_lead-Keeps : (o : Option ProfessionalLead) → Keeps P (release_lead o)
  unfolding release_lead
  release_lead-Keeps none = search keeps_rules
  release_lead-Keeps (some l) = search (keeps_rules, w.lead)

  fail_purchase-Keeps : (o : Option LeadPurchase) → Keeps P (fail_purchase o)
  unfolding fail_purchase
  fail_purchase-Keeps none = search keeps_rules
  fail_purchase-Keeps (some p) = search (keeps_rules, release_lead-Keeps, w.purchase) depth 16

  pub release-Keeps : (p : Payment) → Keeps P (release_failed_lead_purchase p)
  unfolding release_failed_lead_purchase
  release-Keeps p = search (keeps_rules, fail_purchase-Keeps) depth 16

  mark_refunded-Keeps : (s : PaymentStatus) (o : Option LeadPurchase) → Keeps P (mark_refunded s o)
  unfolding mark_refunded
  mark_refunded-Keeps s none = search keeps_rules
  mark_refunded-Keeps s (some p) = search (keeps_rules, w.purchase)

  pub mark-Keeps : (p : Payment) → Keeps P (mark_lead_purchase_refunded p)
  unfolding mark_lead_purchase_refunded
  mark-Keeps p = search (keeps_rules, mark_refunded-Keeps) depth 16
