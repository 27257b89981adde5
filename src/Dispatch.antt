-- ===== src/Dispatch.antt =====
-- apps/api/app/domains/dispatch/service.py: `manual_assign`, by which an operator gives a job to a
-- worker. The offers to vendors are in the children Offers and Matching.
pub mod Manual
pub mod Offers
pub mod Matching
use breero_com.Prelude.{
  Bool, List, Option, String, [], add, find, get, is_some, nat_eq, none, one_of, option_eq, or_else,
  some, string_eq, true, ℕ, ◌&&◌, ◌==◌, ◌∷◌, any, not,
}
use breero_com.Models.{
  Assignment, AssignmentStatus, Booking, BookingStatus, Db, Job, JobStatus, Worker,
  assignment_status_eq, booking_status_eq, created, job_status_eq,
}
use breero_com.Errors.{
  assignment_job_not_found, job_not_assignable, slot_not_held, worker_unavailable,
  active_assignment_exists,
}
use breero_com.Context.{Context, record_audit}
use breero_com.Session.{Tx, commit, gets, guard, modify, pure, require, when, ◌>>=◌, ◌>>◌}
use breero_com.Jobs.{Actor, apply_transition, get_job, put_job}
use breero_com.Payments.{booking_id_of, put_booking}

-- The worker that is asked for, if it is of the vendor and takes part.
abbrev pub available_worker : ℕ → ℕ → Db → Option Worker
available_worker worker_id vendor_id db =
    find (λ w. w.id == worker_id && w.vendor_id == vendor_id && w.available) db.workers

abbrev pub assignable_statuses : List JobStatus
assignable_statuses = JobStatus.created ∷ JobStatus.matching ∷ JobStatus.offered ∷ []

-- `booking and booking.provider_worker_id != worker_id` does not hold.
unfoldable pub holds_slot : ℕ → Option Booking → Bool
holds_slot worker_id none = true
holds_slot worker_id (some booking) = booking.provider_worker_id == some worker_id

unfoldable pub new_assignment : Job → ℕ → ℕ → ℕ → Assignment
new_assignment job vendor_id worker_id actor_id = record {
  job_id = job.id;
  offer_id = none;
  vendor_id = vendor_id;
  worker_id = worker_id;
  status = AssignmentStatus.active;
  assigned_by = some actor_id;
}

-- The rows that the unique index `uq_active_assignment_job` is on.
abbrev pub is_active_for : ℕ → Assignment → Bool
is_active_for job_id a = a.job_id == job_id && a.status == AssignmentStatus.active

abbrev pub add_assignment : Assignment → Db → Db
add_assignment assignment db = record db { assignments = add assignment db.assignments }

unfoldable pub confirm_slot : Option Booking → Tx Db (Unit {0})
confirm_slot none = pure tt
confirm_slot (some booking) =
    when (booking.status == BookingStatus.pending_provider_confirmation)
      (modify (put_booking (record booking { status = BookingStatus.confirmed })))

unfoldable pub assigning_actor : ℕ → Option String → Actor
assigning_actor actor_id reason = record {
  actor_id = some actor_id;
  actor_type = "operations";
  reason = reason;
  metadata = [];
}

unfoldable pub assigned_to : ℕ → ℕ → Job → Job
assigned_to vendor_id worker_id job = record job {
  vendor_id = some vendor_id;
  worker_id = some worker_id;
}

-- `manual_assign` once its checks have passed. The commit flushes the new assignment, which breaks the
-- unique index where the job has an active one.
unfoldable pub assign :
    Context → Job → Option Booking → ℕ → ℕ → ℕ → Option String → Tx Db Assignment
assign c job booking vendor_id worker_id actor_id reason = do
  taken ← gets (λ db. any (is_active_for job.id) db.assignments)
  let assignment = new_assignment job vendor_id worker_id actor_id
  modify (add_assignment assignment)
  modify (
      record_audit c (some actor_id) "assignment.create" "job" job.id (
        ("vendor_id", c.str vendor_id)
        ∷ ("worker_id", c.str worker_id)
        ∷ ("reason", or_else reason "")
        ∷ []))
  (moved, changed) ← apply_transition c job JobStatus.assigned (assigning_actor actor_id reason)
  modify (put_job (assigned_to vendor_id worker_id moved))
  confirm_slot booking
  guard (not taken) active_assignment_exists
  commit
  pure assignment

-- `manual_assign` behind the lookup of the job.
unfoldable pub assign_job :
    Context → Option Worker → ℕ → ℕ → ℕ → Option String → Job → Tx Db Assignment
assign_job c worker vendor_id worker_id actor_id reason job = do
  guard (is_some worker) worker_unavailable
  guard (one_of job.status assignable_statuses) job_not_assignable
  booking ← gets (λ db. get booking_id_of job.booking_id db.bookings)
  guard (holds_slot worker_id booking) slot_not_held
  assign c job booking vendor_id worker_id actor_id reason

unfoldable pub manual_assign : Context → ℕ → ℕ → ℕ → ℕ → Option String → Tx Db Assignment
manual_assign c job_id vendor_id worker_id actor_id reason = do
  found ← gets (get_job job_id)
  worker ← gets (available_worker worker_id vendor_id)
  job ← require found assignment_job_not_found
  assign_job c worker vendor_id worker_id actor_id reason job
