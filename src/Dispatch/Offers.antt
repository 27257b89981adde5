-- ===== src/Dispatch/Offers.antt =====
-- apps/api/app/domains/dispatch/service.py: `decide_offer`, by which a vendor accepts or declines an
-- offer; dispatch/repository.py: `get_offer`, `expire_due`. The unique index on the active
-- assignments of a job (`uq_active_assignment_job`) is tested where the assignment is flushed.
pub mod Settled
pub mod Steps
pub mod Rivals
pub mod Accept
use breero_com.Prelude.{
  Bool, List, Option, [], any, count, get, if◌then◌else◌, leb, nat_eq, none, not, one_of, option_eq,
  put, some, string_eq, update, ℕ, ◌&&◌, ◌==◌, ◌∷◌,
}
use breero_com.Models.{
  Assignment, AssignmentStatus, Booking, BookingStatus, Db, DispatchOffer, Job, JobStatus,
  OfferStatus, Worker, accepted, assignment_status_eq, booking_status_eq, declined, job_status_eq,
  offer_status_eq, withdrawn,
}
use breero_com.Errors.{
  assignment_conflict, job_no_longer_assignable, offer_has_expired, offer_not_found,
  offer_not_pending, offer_of_other_vendor, slot_not_held, worker_unavailable,
}
use breero_com.Context.{Context, record_audit}
use breero_com.Session.{Tx, commit, gets, guard, modify, pure, raise, require, when, ◌>>=◌, ◌>>◌}
use breero_com.Jobs.{Actor, apply_transition, get_job, put_job}
use breero_com.Payments.{booking_id_of, put_booking}
use breero_com.Dispatch.{add_assignment, assigned_to, available_worker, holds_slot, is_active_for}

abbrev pub offer_id_of : DispatchOffer → ℕ
offer_id_of o = o.id

-- `DispatchRepository.get_offer`.
abbrev pub get_offer : ℕ → Db → Option DispatchOffer
get_offer offer_id db = get offer_id_of offer_id db.offers

abbrev pub put_offer : DispatchOffer → Db → Db
put_offer offer db = record db { offers = put offer_id_of offer db.offers }

abbrev pub with_status : OfferStatus → DispatchOffer → DispatchOffer
with_status status offer = record offer { status = status }

abbrev pub is_due : ℕ → DispatchOffer → Bool
is_due now offer = offer.status == OfferStatus.pending && leb offer.expires_at now

-- `DispatchRepository.expire_due`: the number of the rows that it changes is its answer.
unfoldable pub expire_offers : ℕ → Db → Db
expire_offers now db = record db {
  offers = update (is_due now) (with_status OfferStatus.expired) db.offers;
}

unfoldable pub expire_due : ℕ → Tx Db ℕ
expire_due now = do
  due ← gets (λ db. count (is_due now) db.offers)
  modify (expire_offers now)
  pure due

-- The other offers of the job that nobody has answered.
abbrev pub is_rival : ℕ → ℕ → DispatchOffer → Bool
is_rival job_id offer_id offer =
    offer.job_id == job_id && not (offer.id == offer_id) && offer.status == OfferStatus.pending

unfoldable pub withdraw_rivals : ℕ → ℕ → Db → Db
withdraw_rivals job_id offer_id db = record db {
  offers = update (is_rival job_id offer_id) (with_status OfferStatus.withdrawn) db.offers;
}

unfoldable pub offer_assignment : Job → DispatchOffer → ℕ → ℕ → ℕ → Assignment
offer_assignment job offer vendor_id worker_id actor_id = record {
  job_id = job.id;
  offer_id = some offer.id;
  vendor_id = vendor_id;
  worker_id = worker_id;
  status = AssignmentStatus.active;
  assigned_by = some actor_id;
}

-- `Worker.id == selected_worker` is not true of a `NULL`.
abbrev pub selected_worker : Option ℕ → ℕ → Db → Option Worker
selected_worker none vendor_id db = none
selected_worker (some worker_id) vendor_id db = available_worker worker_id vendor_id db

abbrev pub either_worker : Option ℕ → Option ℕ → Option ℕ
either_worker none offered_to = offered_to
either_worker (some worker_id) offered_to = some worker_id

unfoldable pub confirm_held_slot : ℕ → Option Booking → Tx Db (Unit {0})
confirm_held_slot worker_id none = pure tt
confirm_held_slot worker_id (some booking) =
    when
      (booking.provider_worker_id == some worker_id
        && booking.status == BookingStatus.pending_provider_confirmation)
      (modify (put_booking (record booking { status = BookingStatus.confirmed })))

unfoldable pub accepting_actor : ℕ → Actor
accepting_actor actor_id = record {
  actor_id = some actor_id;
  actor_type = "vendor";
  reason = some "offer_accepted";
  metadata = [];
}

unfoldable pub audit_assignment : Context → Job → ℕ → ℕ → ℕ → Db → Db
audit_assignment c job vendor_id worker_id actor_id =
    record_audit c (some actor_id) "assignment.create" "job" job.id
      (("vendor_id", c.str vendor_id) ∷ ("worker_id", c.str worker_id) ∷ [])

-- `decide_offer` from the write of ACCEPTED on. The update of the other offers flushes the new
-- assignment first.
unfoldable pub accept_checked :
    Context → DispatchOffer → Job → Option Booking → ℕ → ℕ → ℕ → Tx Db DispatchOffer
accept_checked c offer job booking vendor_id worker_id actor_id = do
  let updated = with_status OfferStatus.accepted offer
  modify (put_offer updated)
  modify (audit_assignment c job vendor_id worker_id actor_id)
  let staffed = assigned_to vendor_id worker_id job
  modify (put_job staffed)
  confirm_held_slot worker_id booking
  apply_transition c staffed JobStatus.assigned (accepting_actor actor_id)
  taken ← gets (λ db. any (is_active_for job.id) db.assignments)
  guard (not taken) assignment_conflict
  modify (add_assignment (offer_assignment job offer vendor_id worker_id actor_id))
  modify (withdraw_rivals job.id offer.id)
  commit
  pure updated

abbrev pub open_statuses : List JobStatus
open_statuses = JobStatus.offered ∷ JobStatus.matching ∷ []

-- `decide_offer` behind the lookups of the worker and the job.
unfoldable pub accept_for_job : Context → DispatchOffer → ℕ → ℕ → ℕ → Job → Tx Db DispatchOffer
accept_for_job c offer vendor_id worker_id actor_id job = do
  guard (one_of job.status open_statuses) job_no_longer_assignable
  booking ← gets (λ db. get booking_id_of job.booking_id db.bookings)
  guard (holds_slot worker_id booking) slot_not_held
  accept_checked c offer job booking vendor_id worker_id actor_id

unfoldable pub accept_offer : Context → ℕ → Option ℕ → ℕ → DispatchOffer → Tx Db DispatchOffer
accept_offer c vendor_id worker_id actor_id offer = do
  found ← gets (selected_worker (either_worker worker_id offer.worker_id) vendor_id)
  worker ← require found worker_unavailable
  held ← gets (get_job offer.job_id)
  job ← require held job_no_longer_assignable
  accept_for_job c offer vendor_id worker.id actor_id job

unfoldable pub decline_offer : DispatchOffer → Tx Db DispatchOffer
decline_offer offer = do
  let updated = with_status OfferStatus.declined offer
  modify (put_offer updated)
  commit
  pure updated

-- An offer that is past its time is stored as expired before the request is refused.
unfoldable pub expire_offer : DispatchOffer → Tx Db DispatchOffer
expire_offer offer = do
  modify (put_offer (with_status OfferStatus.expired offer))
  commit
  raise offer_has_expired

abbrev pub responded : ℕ → DispatchOffer → DispatchOffer
responded now offer = record offer { responded_at = some now }

-- `decide_offer` on an offer that stands.
unfoldable pub answer_offer :
    Context → ℕ → Bool → Option ℕ → ℕ → DispatchOffer → Tx Db DispatchOffer
answer_offer c vendor_id accept worker_id actor_id offer = do
  let answered = responded c.now offer
  modify (put_offer answered)
  if accept then accept_offer c vendor_id worker_id actor_id answered else decline_offer answered

-- `decide_offer` behind the lookup of the offer.
unfoldable pub decide_found :
    Context → ℕ → Bool → Option ℕ → ℕ → DispatchOffer → Tx Db DispatchOffer
decide_found c vendor_id accept worker_id actor_id offer = do
  guard (offer.vendor_id == vendor_id) offer_of_other_vendor
  guard (offer.status == OfferStatus.pending) offer_not_pending
  if leb offer.expires_at c.now
      then expire_offer offer
      else answer_offer c vendor_id accept worker_id actor_id offer

-- `decide_offer`.
unfoldable pub decide_offer : Context → ℕ → ℕ → Bool → Option ℕ → ℕ → Tx Db DispatchOffer
decide_offer c offer_id vendor_id accept worker_id actor_id = do
  found ← gets (get_offer offer_id)
  offer ← require found offer_not_found
  decide_found c vendor_id accept worker_id actor_id offer
