-- ===== src/Jobs/Work.antt =====
-- apps/api/app/domains/jobs/service.py: the requests for additional work on a job, from the
-- technician's request over the operators' review to the customer's decision.
pub mod Decisions
pub mod Requests
use breero_com.Prelude.{
  Bool, List, Option, String, [], add, get, if◌then◌else◌, nat_eq, none, not, one_of, option_eq,
  put, some, string_eq, ℕ, ◌*◌, ◌+◌, ◌==◌, ◌∷◌,
}
use breero_com.Models.{
  Db, Job, JobStatus, WorkLineItem, WorkRequest, WorkRequestStatus, approved_pending_payment,
  awaiting_approval, diagnosing, job_status_eq, on_site, pending_customer, submitted,
  work_request_status_eq,
}
use breero_com.Errors.{
  already_decided, already_reviewed, bad_work_request_transition, decision_not_permitted,
  job_not_found, work_not_requestable, work_request_not_found, worker_not_assigned,
}
use breero_com.Context.{Context, record_audit}
use breero_com.Session.{Tx, commit, gets, guard, modify, pure, request, require, when, ◌>>=◌, ◌>>◌}
use breero_com.Jobs.{Actor, apply_transition, get_job, work_request_transitions}

abbrev pub request_id_of : WorkRequest → ℕ
request_id_of r = r.id

abbrev pub get_request : ℕ → Db → Option WorkRequest
get_request request_id db = get request_id_of request_id db.work_requests

abbrev pub put_request : WorkRequest → Db → Db
put_request request db = record db { work_requests = put request_id_of request db.work_requests }

-- `apply_work_request_transition`: the new row.
unfoldable pub apply_work_request_transition : WorkRequest → WorkRequestStatus → Tx Db WorkRequest
apply_work_request_transition request target = if request.status == target then pure request else do
  guard (one_of target (work_request_transitions request.status))
      (bad_work_request_transition request.status target)
  let request' = record request { status = target }
  modify (put_request request')
  pure request'

unfoldable pub load_request : ℕ → Tx Db WorkRequest
load_request request_id = do
  found ← gets (get_request request_id)
  require found work_request_not_found

-- The body of the request, `WorkRequestCreate`.
pub record WorkRequestCreate : Type 0 where
  pub description : String
  pub line_items : List WorkLineItem
  pub tax_minor : ℕ
  pub currency : String

pub subtotal : List WorkLineItem → ℕ
subtotal [] = 0
subtotal (item ∷ items) = item.quantity * item.unit_price_minor + subtotal items

pub new_request : Context → ℕ → WorkRequestCreate → ℕ → WorkRequest
unfolding subtotal
new_request c job_id payload worker_id = record {
  id = c.uuid 1;
  job_id = job_id;
  status = WorkRequestStatus.submitted;
  description = payload.description;
  line_items = payload.line_items;
  subtotal_minor = subtotal payload.line_items;
  tax_minor = payload.tax_minor;
  total_minor = subtotal payload.line_items + payload.tax_minor;
  currency = payload.currency;
  payment_id = none;
  customer_decided_at = none;
  created_by = worker_id;
}

abbrev pub requestable : List JobStatus
requestable = JobStatus.on_site ∷ JobStatus.diagnosing ∷ JobStatus.in_progress ∷ []

unfoldable pub requested_actor : ℕ → Actor
requested_actor worker_id = record {
  actor_id = some worker_id;
  actor_type = "worker";
  reason = some "additional_work_requested";
  metadata = [];
}

-- `create_work_request` behind the lookup of the job.
unfoldable pub create_for_job : Context → Job → WorkRequestCreate → ℕ → Tx Db WorkRequest
create_for_job c job payload worker_id = do
  guard (job.worker_id == some worker_id) worker_not_assigned
  guard (one_of job.status requestable) work_not_requestable
  let request = new_request c job.id payload worker_id
  modify (λ db. record db { work_requests = add request db.work_requests })
  apply_transition c job JobStatus.awaiting_approval (requested_actor worker_id)
  commit
  pure request

unfoldable pub create_work_request : Context → ℕ → WorkRequestCreate → ℕ → Tx Db WorkRequest
unfolding create_for_job
create_work_request c job_id payload worker_id = do
  found ← gets (get_job job_id)
  job ← require found job_not_found
  create_for_job c job payload worker_id

unfoldable pub decided_status : Context → Bool → WorkRequestStatus
decided_status c approve =
    if approve
    then (if c.payments_enabled
        then WorkRequestStatus.approved_pending_payment
        else WorkRequestStatus.approved)
    else WorkRequestStatus.declined

-- `APPROVED` is assigned past the transition table, which reaches it from a payment only.
unfoldable pub set_decision : WorkRequest → WorkRequestStatus → Tx Db WorkRequest
set_decision request target =
    if target == WorkRequestStatus.approved
    then pure (record request { status = target })
    else apply_work_request_transition request target

unfoldable pub resume : Context → Job → Actor → Tx Db (Unit {0})
resume c job actor = do apply_transition c job JobStatus.in_progress actor; pure tt

unfoldable pub customer_actor : ℕ → String → Actor
customer_actor customer_id reason = record {
  actor_id = some customer_id;
  actor_type = "customer";
  reason = some reason;
  metadata = [];
}

unfoldable pub after_decision : Context → Bool → Job → ℕ → Tx Db (Unit {0})
unfolding resume customer_actor
after_decision c approve job customer_id =
    if not approve
    then resume c job (customer_actor customer_id "additional_work_declined")
    else when (not c.payments_enabled)
        (resume c job (customer_actor customer_id "quote_approved_no_payment"))

-- How a decision is stored, once the new status of the request is known.
unfoldable pub store_decision :
    Context → WorkRequest → Job → Bool → ℕ → WorkRequest → Tx Db WorkRequest
store_decision c r j approve customer_id moved = do
  let decided = record moved { customer_decided_at = some c.now }
  modify (put_request decided)
  modify (
      record_audit c (some customer_id) (if approve then "quote.approve" else "quote.reject")
        "work_request" r.id [])
  after_decision c approve j customer_id
  commit
  pure decided

-- `decide_work_request` behind the lookups.
unfoldable pub decide_for_job : Context → WorkRequest → Job → Bool → ℕ → Tx Db WorkRequest
decide_for_job c request job approve customer_id = do
  guard (job.customer_id == some customer_id) decision_not_permitted
  guard (request.status == WorkRequestStatus.pending_customer) already_decided
  moved ← set_decision request (decided_status c approve)
  store_decision c request job approve customer_id moved

-- `decide_work_request` behind the lookup of the request.
unfoldable pub decide_loaded : Context → Bool → ℕ → WorkRequest → Tx Db WorkRequest
decide_loaded c approve customer_id request = do
  found ← gets (get_job request.job_id)
  job ← require found decision_not_permitted
  decide_for_job c request job approve customer_id

unfoldable pub decide_work_request : Context → ℕ → Bool → ℕ → Tx Db WorkRequest
decide_work_request c request_id approve customer_id = do
  request ← load_request request_id
  decide_loaded c approve customer_id request

-- A rejected request lets the job go on, if it is still waiting.
unfoldable pub resume_waiting : Context → Option Job → Option ℕ → Tx Db (Unit {0})
unfolding resume
resume_waiting c none actor_id = pure tt
resume_waiting c (some job) actor_id = when (job.status == JobStatus.awaiting_approval) (
    resume c job (record {
      actor_id = actor_id;
      actor_type = "operations";
      reason = some "work_request_rejected";
      metadata = [];
    }))

unfoldable pub resume_request_job : Context → ℕ → Option ℕ → Tx Db (Unit {0})
resume_request_job c job_id actor_id = do
  found ← gets (get_job job_id)
  resume_waiting c found actor_id

unfoldable pub review_work_request : Context → ℕ → Bool → Option ℕ → Tx Db WorkRequest
review_work_request c request_id approve actor_id = do
  request ← load_request request_id
  guard (request.status == WorkRequestStatus.submitted) already_reviewed
  reviewed ←
      apply_work_request_transition request
        (if approve then WorkRequestStatus.pending_customer else WorkRequestStatus.declined)
  when (not approve) (resume_request_job c request.job_id actor_id)
  commit
  pure reviewed
