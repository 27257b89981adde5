-- ===== src/Jobs.antt =====
-- apps/api/app/domains/jobs/service.py: the lifecycle of a job and of the requests for additional
-- work on it. A job that is loaded in a session is the row itself: a step returns the new row and
-- writes it.
pub mod Keeps
pub mod Diagram
pub mod Lifecycle
pub mod Work
pub mod Atomic
use breero_com.Prelude.{
  Bool, List, Option, String, [], add, false, get, if◌then◌else◌, is_present, is_some, nat_eq, not,
  one_of, option_eq, or_else, put, some, string_eq, true, ℕ, ◌&&◌, ◌+◌, ◌==◌, ◌∷◌,
}
use breero_com.Prelude.Int.{pos}
use breero_com.Models.{
  Db, IntegrationEvent, Job, JobEvent, JobStatus, WorkRequestStatus, approved_pending_payment,
  assigned, awaiting_approval, diagnosing, job_status_eq, matching, offered, on_site,
  pending_customer, submitted, work_request_status_eq,
}
use breero_com.Errors.{
  Error, bad_job_transition, booking_unavailable, job_not_found, not_assigned_at_completion,
  notes_missing, technician_not_assigned,
}
use breero_com.Context.{Context, new_event, publish}
use breero_com.Session.{Tx, commit, gets, guard, modify, pure, require, when, ◌>>=◌, ◌>>◌}
use breero_com.Finance.{earning_for_job, recognize_earning}

-- `TRANSITIONS`.
abbrev pub transitions : JobStatus → List JobStatus
transitions JobStatus.created = JobStatus.matching ∷ JobStatus.cancelled ∷ []
transitions JobStatus.matching = JobStatus.offered ∷ JobStatus.assigned ∷ JobStatus.cancelled ∷ []
transitions JobStatus.offered = JobStatus.matching ∷ JobStatus.assigned ∷ JobStatus.cancelled ∷ []
transitions JobStatus.assigned = JobStatus.en_route ∷ JobStatus.cancelled ∷ []
transitions JobStatus.en_route = JobStatus.on_site ∷ JobStatus.cancelled ∷ []
transitions JobStatus.on_site =
    JobStatus.diagnosing ∷ JobStatus.in_progress ∷ JobStatus.cancelled ∷ []
transitions JobStatus.diagnosing =
    JobStatus.awaiting_approval ∷ JobStatus.in_progress ∷ JobStatus.cancelled ∷ []
transitions JobStatus.awaiting_approval = JobStatus.in_progress ∷ JobStatus.cancelled ∷ []
transitions JobStatus.in_progress =
    JobStatus.completed ∷ JobStatus.awaiting_approval ∷ JobStatus.cancelled ∷ []
transitions JobStatus.completed = []
transitions JobStatus.cancelled = []

-- `WORK_REQUEST_TRANSITIONS`.
abbrev pub work_request_transitions : WorkRequestStatus → List WorkRequestStatus
work_request_transitions WorkRequestStatus.draft = WorkRequestStatus.submitted ∷ []
work_request_transitions WorkRequestStatus.submitted =
    WorkRequestStatus.pending_customer ∷ WorkRequestStatus.declined ∷ []
work_request_transitions WorkRequestStatus.pending_customer =
    WorkRequestStatus.approved_pending_payment ∷ WorkRequestStatus.declined ∷ []
work_request_transitions WorkRequestStatus.approved_pending_payment =
    WorkRequestStatus.approved ∷ []
work_request_transitions WorkRequestStatus.approved = []
work_request_transitions WorkRequestStatus.declined = []
work_request_transitions WorkRequestStatus.paid = []
work_request_transitions WorkRequestStatus.cancelled = []
work_request_transitions WorkRequestStatus.expired = []

-- Who makes a transition, and why.
pub record Actor : Type 0 where
  pub actor_id : Option ℕ
  pub actor_type : String
  pub reason : Option String
  pub metadata : List (String × ℕ)

abbrev pub job_id_of : Job → ℕ
job_id_of j = j.id

abbrev pub get_job : ℕ → Db → Option Job
get_job job_id db = get job_id_of job_id db.jobs

abbrev pub put_job : Job → Db → Db
put_job job db = record db { jobs = put job_id_of job db.jobs }

-- `_validate_completion`.
unfoldable pub validate_completion : Job → Tx Db (Unit {0})
validate_completion job = do
  guard (is_some job.vendor_id && is_some job.worker_id) not_assigned_at_completion
  guard (is_present job.diagnostic_notes && is_present job.completion_notes) notes_missing

unfoldable pub transitioned : Context → Job → JobStatus → Job
transitioned c job target = record job {
  status = target;
  version = job.version + 1;
  completed_at = if target == JobStatus.completed then some c.now else job.completed_at;
}

pub transition_event : Job → JobStatus → Actor → JobEvent
transition_event job target actor = record {
  job_id = job.id;
  from_status = some job.status;
  to_status = target;
  actor_id = actor.actor_id;
  actor_type = actor.actor_type;
  reason = actor.reason;
  metadata = actor.metadata;
}

unfoldable pub log_transition : JobEvent → Job → Db → Db
log_transition event job db = record (put_job job db) { job_events = add event db.job_events }

-- The part of `apply_transition` behind its first test.
unfoldable pub change_status : Context → Job → JobStatus → Actor → Tx Db (Job × Bool)
change_status c job target actor = do
  guard (one_of target (transitions job.status)) (bad_job_transition job.status target)
  when (target == JobStatus.completed) (validate_completion job)
  let job' = transitioned c job target
  modify (log_transition (transition_event job target actor) job')
  pure (job', true)

-- The Boolean says whether anything was changed.
unfoldable pub apply_transition : Context → Job → JobStatus → Actor → Tx Db (Job × Bool)
unfolding change_status
apply_transition c job target actor =
    if target == job.status then pure (job, false) else change_status c job target actor

-- `_record_completion_effects`.
completed_event : Context → Job → IntegrationEvent
completed_event c job =
    new_event c (c.uuid 3) "job" job.id "job.completed"
      (("job_id", job.id) ∷ ("vendor_id", or_else job.vendor_id 0) ∷ [])

recognize_for_booking : Context → Job → Tx Db (Unit {0})
recognize_for_booking c job = do
  found ← gets (λ db. get (λ b. b.id) job.booking_id db.bookings)
  booking ← require found booking_unavailable
  recognize_earning c job (pos booking.total_amount) (pos 0) booking.currency
  pure tt

pub record_completion_effects : Context → Job → Tx Db (Unit {0})
unfolding completed_event recognize_for_booking
record_completion_effects c job = do
  existing ← gets (earning_for_job job.id)
  when (c.payout_enabled && not (is_some existing)) (recognize_for_booking c job)
  modify (publish (completed_event c job))

unfoldable pub load_job : ℕ → Error → Tx Db Job
load_job job_id e = do found ← gets (get_job job_id); require found e

-- The end of a command that moved a job: the effects of completion, and the commit.
unfoldable pub finish_transition : Context → JobStatus → Job × Bool → Tx Db Job
finish_transition c target (job, changed) = do
  when (changed && target == JobStatus.completed) (record_completion_effects c job)
  commit
  pure job

-- `transition_locked`, which `transition` calls.
unfoldable pub transition : Context → ℕ → JobStatus → Actor → Tx Db Job
unfolding load_job finish_transition
transition c job_id target actor = do
  job ← load_job job_id job_not_found
  moved ← apply_transition c job target actor
  finish_transition c target moved

-- The two columns that `technician_note_transition` is called with.
pub data NotesField : Type 0 where
  diagnostic_notes completion_notes : NotesField

abbrev pub with_notes : NotesField → String → Job → Job
with_notes diagnostic_notes notes job = record job { diagnostic_notes = some notes }
with_notes completion_notes notes job = record job { completion_notes = some notes }

notes_reason : NotesField → String
notes_reason diagnostic_notes = "diagnostic_notes_recorded"
notes_reason completion_notes = "completion_notes_recorded"

pub note_actor : ℕ → NotesField → Actor
unfolding notes_reason
note_actor actor_id notes_field = record {
  actor_id = some actor_id;
  actor_type = "worker";
  reason = some (notes_reason notes_field);
  metadata = [];
}

pub technician_note_transition : Context → ℕ → ℕ → ℕ → NotesField → String → JobStatus → Tx Db Job
unfolding load_job finish_transition note_actor
technician_note_transition c job_id worker_id actor_id notes_field notes target = do
  loaded ← load_job job_id technician_not_assigned
  guard (loaded.worker_id == some worker_id) technician_not_assigned
  let job = with_notes notes_field notes loaded
  modify (put_job job)
  moved ← apply_transition c job target (note_actor actor_id notes_field)
  finish_transition c target moved
