-- ===== src/Dispatch/Matching.antt =====
-- apps/api/app/domains/dispatch/service.py: `match`, by which a job is offered to workers;
-- dispatch/repository.py: `candidate_workers`, `offers_for_job`. A query with a limit takes the rows
-- in the order of insertion.
pub mod Runs
pub mod Rounds
use breero_com.Prelude.{
  Bool, List, Option, String, [], any, false, get, if◌then◌else◌, is_empty, length, max, nat_eq,
  none, not, one_of, option_eq, select, some, string_eq, suc, take, true, ℕ, ◌&&◌, ◌++◌, ◌+◌, ◌-◌,
  ◌==◌, ◌∷◌,
}
use breero_com.Models.{
  Booking, Db, DispatchOffer, Job, JobStatus, OfferStatus, Vendor, VendorStatus, Worker,
  WorkerStatus, created, job_status_eq, offer_status_eq, vendor_status_eq, worker_status_eq,
}
use breero_com.Errors.{job_not_found, job_not_matchable, offers_conflict}
use breero_com.Context.{Context}
use breero_com.Session.{Tx, commit, gets, guard, modify, pure, require, ◌>>=◌, ◌>>◌}
use breero_com.Jobs.{Actor, apply_transition, get_job}
use breero_com.Payments.{booking_id_of}
use breero_com.Dispatch.{assignable_statuses}

abbrev vendor_id_of : Vendor → ℕ
vendor_id_of v = v.id

abbrev is_worker : Option ℕ → Worker → Bool
is_worker none w = true
is_worker (some worker_id) w = w.id == worker_id

-- The join with the vendor of the worker.
abbrev is_active_vendor : Option Vendor → Bool
is_active_vendor none = false
is_active_vendor (some v) = v.status == VendorStatus.active

abbrev pub is_candidate : Option ℕ → Db → Worker → Bool
is_candidate worker_id db w =
    w.status == WorkerStatus.active
    && w.available
    && is_worker worker_id w
    && is_active_vendor (get vendor_id_of w.vendor_id db.vendors)

-- `candidate_workers` with no capabilities asked for.
unfoldable pub candidate_workers : ℕ → Option ℕ → Db → List Worker
candidate_workers limit worker_id db = take limit (select (is_candidate worker_id db) db.workers)

-- `max((offer.round for offer in existing), default=0)`.
abbrev pub last_round : ℕ → List DispatchOffer → ℕ
last_round job_id [] = 0
last_round job_id (o ∷ offers) =
    let rest = last_round job_id offers in if o.job_id == job_id then max o.round rest else rest

-- Fifteen minutes.
abbrev offer_seconds : ℕ
offer_seconds = 900

abbrev pub candidate_limit : ℕ
candidate_limit = 10

-- The offer to the candidate at a rank, under the identifier that is drawn for it.
unfoldable pub new_offer : Context → ℕ → ℕ → ℕ → Worker → DispatchOffer
new_offer c job_id round rank w = record {
  id = c.uuid rank;
  job_id = job_id;
  vendor_id = w.vendor_id;
  worker_id = some w.id;
  status = OfferStatus.pending;
  round = round;
  score = 1000 - rank;
  expires_at = c.now + offer_seconds;
  responded_at = none;
}

-- `for rank, (vendor, worker) in enumerate(candidates)`.
unfoldable pub new_offers : Context → ℕ → ℕ → ℕ → List Worker → List DispatchOffer
new_offers c job_id round rank [] = []
new_offers c job_id round rank (w ∷ workers) =
    new_offer c job_id round rank w ∷ new_offers c job_id round (suc rank) workers

abbrev pub add_offers : List DispatchOffer → Db → Db
add_offers offers db = record db { offers = db.offers ++ offers }

unfoldable pub matching_actor : Option ℕ → String → List (String × ℕ) → Actor
matching_actor actor_id reason metadata = record {
  actor_id = actor_id;
  actor_type = "system";
  reason = some reason;
  metadata = metadata;
}

-- `if job.status == CREATED: apply_transition(…)`, in front of a transition.
unfoldable pub start_matching : Context → Option ℕ → Job → Tx Db (Job × Bool)
start_matching c actor_id job =
    if job.status == JobStatus.created
    then apply_transition c job JobStatus.matching (matching_actor actor_id "matching_started" [])
    else pure (job, false)

-- `UniqueConstraint("job_id", "vendor_id", "round")`, of the whole table.
abbrev pub clashes : DispatchOffer → DispatchOffer → Bool
clashes o other =
    o.job_id == other.job_id && o.vendor_id == other.vendor_id && o.round == other.round

abbrev pub is_unique : List DispatchOffer → Bool
is_unique [] = true
is_unique (o ∷ offers) = not (any (clashes o) offers) && is_unique offers

-- The commit flushes the new offers: an `IntegrityError` is not handled.
unfoldable pub store_offers : List DispatchOffer → Tx Db (List DispatchOffer)
store_offers offers = do
  unique ← gets (λ db. is_unique db.offers)
  guard unique offers_conflict
  commit
  pure offers

unfoldable pub offer_job :
    Context → Option ℕ → ℕ → Job → List DispatchOffer → Tx Db (List DispatchOffer)
offer_job c actor_id round job offers = do
  modify (add_offers offers)
  (started, moved) ← start_matching c actor_id job
  apply_transition c started JobStatus.offered
      (matching_actor actor_id "offers_created" (("count", length offers) ∷ ("round", round) ∷ []))
  store_offers offers

-- The branch without candidates.
unfoldable pub await_candidates : Context → Option ℕ → Job → Tx Db (List DispatchOffer)
await_candidates c actor_id job = do
  if job.status == JobStatus.matching
      then pure (job, false)
      else apply_transition c job JobStatus.matching (matching_actor actor_id "no_candidates" [])
  commit
  pure []

abbrev pub held_worker : Option Booking → Option ℕ
held_worker none = none
held_worker (some booking) = booking.provider_worker_id

-- `match` behind its first guards.
unfoldable pub match_to : Context → Option ℕ → Job → ℕ → List Worker → Tx Db (List DispatchOffer)
match_to c actor_id job round candidates =
    if is_empty candidates
    then await_candidates c actor_id job
    else offer_job c actor_id round job (new_offers c job.id round 0 candidates)

unfoldable pub match_job : Context → Option ℕ → Job → Tx Db (List DispatchOffer)
match_job c actor_id job = do
  guard (one_of job.status assignable_statuses) job_not_matchable
  round ← gets (λ db. last_round job.id db.offers + 1)
  booking ← gets (λ db. get booking_id_of job.booking_id db.bookings)
  candidates ← gets (candidate_workers candidate_limit (held_worker booking))
  match_to c actor_id job round candidates

-- `match`.
unfoldable pub match_offers : Context → ℕ → Option ℕ → Tx Db (List DispatchOffer)
match_offers c job_id actor_id = do
  found ← gets (get_job job_id)
  job ← require found job_not_found
  match_job c actor_id job
