-- ===== src/Tests/Jobs.antt =====
-- The theorems on jobs and work requests at concrete inputs.
use breero_com.Prelude.{List, [], arith, none, refl, some, true, ◌∷◌, ◌≡◌, one_of, false, ◌+◌, ◌⊎◌}
use breero_com.Models.{Db, Job, JobStatus, WorkRequest, WorkRequestStatus, JobEvent, job_status_eq}
use breero_com.Errors.{bad_job_transition, job_not_found}
use breero_com.Context.{Context}
use breero_com.Session.{err, request, returned, ◌>>=◌}
use breero_com.Tests.{a_job, empty, surroundings}
use breero_com.Jobs.{
  Actor, apply_transition, change_status, finish_transition, load_job, transition, transitioned,
  get_job,
}
use breero_com.Jobs.Work.{WorkRequestCreate, create_work_request}
use breero_com.Jobs.Work.Requests.{
  create_work_request-on_site, IsSubmitted, create_work_request-decides, open_states,
}
use breero_com.Jobs.Atomic.{Command, move, run, run_atomic}
use breero_com.Jobs.Diagram.{Moves, transition-Moves}
use breero_com.Jobs.Lifecycle.{IsSound}
use breero_com.Jobs.Lifecycle.Serve.{serve, serve-IsSound}

abbrev with_job : JobStatus → Db
with_job status = record empty { jobs = record a_job { status = status } ∷ [] }

abbrev operator : Actor
operator = record { actor_id = some 8; actor_type = "operations"; reason = none; metadata = [] }

created_job-IsSound : IsSound (with_job JobStatus.created)
created_job-IsSound = record {
  logged = λ k j found. ground arith;
  documented = λ k j found done. absurd (ground arith);
}

abbrev a_day : List (Context × Command)
a_day =
    (surroundings, move 1 JobStatus.matching operator)
    ∷ (surroundings, move 1 JobStatus.assigned operator)
    ∷ (surroundings, move 1 JobStatus.completed operator)
    ∷ []

serve-IsSound_example : IsSound (serve a_day (with_job JobStatus.created))
serve-IsSound_example =
    serve-IsSound a_day (with_job JobStatus.created) (tt, (tt, (tt, tt))) created_job-IsSound

run_atomic_example :
    (run surroundings (move 9 JobStatus.matching operator) (with_job JobStatus.created)).1
    ≡ with_job JobStatus.created
unfolding run transition load_job request ◌>>=◌
run_atomic_example =
    run_atomic surroundings (move 9 JobStatus.matching operator) (with_job JobStatus.created)
      job_not_found refl

abbrev matching_job : Job
matching_job = record a_job { status = JobStatus.matching; version = 2 }

transition-Moves_example :
    (get_job 1
        (request
          (transition surroundings 1 JobStatus.matching operator)
          (with_job JobStatus.created)).1
      ≡ some matching_job)
    × (JobStatus.matching ≡ JobStatus.matching)
    × Moves JobStatus.created JobStatus.matching
unfolding transition load_job apply_transition change_status transitioned finish_transition request
    ◌>>=◌
transition-Moves_example =
    transition-Moves surroundings 1 JobStatus.matching operator (with_job JobStatus.created) a_job
      matching_job refl refl

abbrev payload : WorkRequestCreate
payload = record {
  description = "new valve";
  line_items = record { description = "valve"; quantity = 2; unit_price_minor = 1500 } ∷ [];
  tax_minor = 300;
  currency = "usd";
}

create_work_request-on_site_example :
    request (create_work_request surroundings 1 payload 7) (with_job JobStatus.on_site) ≡ (
      err (bad_job_transition JobStatus.on_site JobStatus.awaiting_approval),
      with_job JobStatus.on_site,
    )
create_work_request-on_site_example =
    create_work_request-on_site surroundings 1 payload 7 (with_job JobStatus.on_site)
      (record a_job { status = JobStatus.on_site }) refl refl refl

create_work_request-decides_example :
    let r =
      request (create_work_request surroundings 1 payload 7) (with_job JobStatus.diagnosing) in
    let j = record a_job { status = JobStatus.diagnosing } in
    ((one_of JobStatus.diagnosing open_states ≡ true)
      × (q : WorkRequest) × (j' : Job) × (e : JobEvent) × (returned r ≡ some q)
      × (r.1.work_requests ≡ q ∷ [])
      × IsSubmitted payload 7 j q
      × (get_job 1 r.1 ≡ some j')
      × (j'.status ≡ JobStatus.awaiting_approval)
      × (j'.version ≡ j.version + 1)
      × (r.1.job_events ≡ e ∷ [])
      × (e.job_id ≡ 1)
      × (e.from_status ≡ some JobStatus.diagnosing)
      × (e.to_status ≡ JobStatus.awaiting_approval)
      × (e.actor_id ≡ some 7))
    ⊎ ((one_of JobStatus.diagnosing open_states ≡ false)
        × (returned r ≡ none)
        × (r.1 ≡ with_job JobStatus.diagnosing))
create_work_request-decides_example =
    create_work_request-decides surroundings 1 payload 7 (with_job JobStatus.diagnosing)
      (record a_job { status = JobStatus.diagnosing }) refl refl

abbrev waiting_request : WorkRequest
waiting_request = record {
  id = 11;
  job_id = 1;
  status = WorkRequestStatus.pending_customer;
  description = "new valve";
  line_items = [];
  subtotal_minor = 3000;
  tax_minor = 300;
  total_minor = 3300;
  currency = "usd";
  payment_id = none;
  customer_decided_at = none;
  created_by = 7;
}

abbrev waiting : Db
waiting = record (with_job JobStatus.awaiting_approval) { work_requests = waiting_request ∷ [] }

abbrev approved_request : WorkRequest
approved_request = record waiting_request {
  status = WorkRequestStatus.approved_pending_payment;
  customer_decided_at = some 1000;
}
