-- ===== src/Jobs/Work/Requests.antt =====
-- apps/api/app/domains/jobs/service.py: `create_work_request`, by the state of the job.
use breero_com.Prelude.{
  add, arith, false, nat_eq, one_of, option_beq_iff, put, some, ℕ, ◌≡◌, ◌⊎◌, List, [], ◌∷◌,
  Bool-cases, get, get-put, get_key, inl, inr, none, refl, sum, true, ◌*◌, ◌+◌,
}
use breero_com.Models.{
  Db, Job, JobStatus, job_status_eq, JobEvent, WorkRequest, WorkRequestStatus, WorkLineItem,
}
use breero_com.Errors.{bad_job_transition}
use breero_com.Context.{Context}
use breero_com.Session.{err, request, returned, ◌>>=◌}
use breero_com.Jobs.{
  apply_transition, get_job, job_id_of, log_transition, transition_event, transitioned,
}
use breero_com.Jobs.Work.{
  WorkRequestCreate, create_work_request, new_request, requested_actor, subtotal,
}

-- The states in which additional work can be requested.
abbrev pub open_states : List JobStatus
open_states = JobStatus.diagnosing ∷ JobStatus.in_progress ∷ []

abbrev line_total : WorkLineItem → ℕ
line_total item = item.quantity * item.unit_price_minor

-- What a request says of the job, the technician and the money.
pub record IsSubmitted (payload : WorkRequestCreate) (worker_id : ℕ) (j : Job) (q : WorkRequest)
    : Type 0 where
  status : q.status ≡ WorkRequestStatus.submitted
  job_id : q.job_id ≡ j.id
  created_by : q.created_by ≡ worker_id
  line_items : q.line_items ≡ payload.line_items
  subtotal_minor : q.subtotal_minor ≡ sum (λ item. true) line_total payload.line_items
  total_minor : q.total_minor ≡ q.subtotal_minor + payload.tax_minor
  undecided : q.customer_decided_at ≡ none

subtotal-sum : (items : List WorkLineItem) → subtotal items ≡ sum (λ item. true) line_total items
unfolding subtotal
subtotal-sum [] = refl
subtotal-sum (item ∷ items) = ground (arith, subtotal-sum items)

new_request-IsSubmitted :
    (c : Context) (payload : WorkRequestCreate) (worker_id : ℕ) (j : Job)
    → IsSubmitted payload worker_id j (new_request c j.id payload worker_id)
unfolding new_request
new_request-IsSubmitted c payload worker_id j = record {
  status = refl;
  job_id = refl;
  created_by = refl;
  line_items = refl;
  subtotal_minor = subtotal-sum payload.line_items;
  total_minor = refl;
  undecided = refl;
}

moved_status :
    (c : Context) (j : Job)
    → (transitioned c j JobStatus.awaiting_approval).status ≡ JobStatus.awaiting_approval
unfolding transitioned
moved_status c j = refl

moved_version :
    (c : Context) (j : Job) → (transitioned c j JobStatus.awaiting_approval).version ≡ j.version + 1
unfolding transitioned
moved_version c j = refl

moved_row :
    (c : Context) (j : Job) (k : ℕ) (rows : List Job)
    → get job_id_of k rows ≡ some j
    → j.id ≡ k
    → let j' = transitioned c j JobStatus.awaiting_approval in
      get job_id_of k (put job_id_of j' rows) ≡ some j'
unfolding transitioned
moved_row c j k rows found key =
    ground (arith, get-put job_id_of (transitioned c j JobStatus.awaiting_approval) k rows)

logged :
    (worker_id : ℕ) (j : Job)
    → let e = transition_event j JobStatus.awaiting_approval (requested_actor worker_id) in
      (e.job_id ≡ j.id)
      × (e.from_status ≡ some j.status)
      × (e.to_status ≡ JobStatus.awaiting_approval)
      × (e.actor_id ≡ some worker_id)
unfolding transition_event requested_actor
logged worker_id j = (refl, refl, refl, refl)

module _ (c : Context) (job_id : ℕ) (payload : WorkRequestCreate) (worker_id : ℕ) (db : Db)
    (j : Job) (found : get_job job_id db ≡ some j) (worker : j.worker_id ≡ some worker_id) where
  request_runs :
      one_of j.status open_states ≡ true
      → let r = request (create_work_request c job_id payload worker_id) db in
        (returned r ≡ some (new_request c j.id payload worker_id))
        × (r.1.work_requests ≡ add (new_request c j.id payload worker_id) db.work_requests)
        × (r.1.jobs ≡ put job_id_of (transitioned c j JobStatus.awaiting_approval) db.jobs)
        × (r.1.job_events
            ≡ add
                (transition_event j JobStatus.awaiting_approval (requested_actor worker_id))
                db.job_events)
  unfolding create_work_request request ◌>>=◌ apply_transition log_transition requested_actor
  request_runs listed = ground (arith, option_beq_iff j.worker_id (some worker_id))

  request_refused :
      one_of j.status open_states ≡ false
      → let r = request (create_work_request c job_id payload worker_id) db in
        (returned r ≡ none) × (r.1 ≡ db)
  unfolding create_work_request request ◌>>=◌ apply_transition
  request_refused shut = ground (arith, option_beq_iff j.worker_id (some worker_id))

  -- A technician on site is let through by the first test of the state, and refused by the
  -- transition: no request for additional work is ever made from that state.
  pub create_work_request-on_site :
      j.status ≡ JobStatus.on_site
      → request (create_work_request c job_id payload worker_id) db
        ≡ (err (bad_job_transition JobStatus.on_site JobStatus.awaiting_approval), db)
  unfolding create_work_request request ◌>>=◌ apply_transition
  create_work_request-on_site at = ground (arith, option_beq_iff j.worker_id (some worker_id))

  -- A technician's request on his job, by the state of the job. While the job is being diagnosed or
  -- worked on, the request is stored as submitted, for what its lines and its tax come to; the job
  -- waits for approval, one version on; and that transition is added to its log. In any other state
  -- the request is refused and nothing changes.
  pub create_work_request-decides :
      let r = request (create_work_request c job_id payload worker_id) db in
      ((one_of j.status open_states ≡ true)
        × (q : WorkRequest) × (j' : Job) × (e : JobEvent) × (returned r ≡ some q)
        × (r.1.work_requests ≡ add q db.work_requests)
        × IsSubmitted payload worker_id j q
        × (get_job job_id r.1 ≡ some j')
        × (j'.status ≡ JobStatus.awaiting_approval)
        × (j'.version ≡ j.version + 1)
        × (r.1.job_events ≡ add e db.job_events)
        × (e.job_id ≡ j.id)
        × (e.from_status ≡ some j.status)
        × (e.to_status ≡ JobStatus.awaiting_approval)
        × (e.actor_id ≡ some worker_id))
      ⊎ ((one_of j.status open_states ≡ false) × (returned r ≡ none) × (r.1 ≡ db))
  create_work_request-decides = elim (Bool-cases (one_of j.status open_states)) [
    | inl listed ↦
        let (answer, requests, jobs, events) = request_runs listed in
        let key : j.id ≡ job_id = get_key job_id_of job_id db.jobs j found in
        let (job, from, to, actor) = logged worker_id j in
        inl (
          listed,
          new_request c j.id payload worker_id,
          transitioned c j JobStatus.awaiting_approval,
          transition_event j JobStatus.awaiting_approval (requested_actor worker_id),
          answer,
          requests,
          new_request-IsSubmitted c payload worker_id j,
          rw jobs (moved_row c j job_id db.jobs found key),
          moved_status c j,
          moved_version c j,
          events,
          job,
          from,
          to,
          actor,
        )
    | inr shut ↦ let (answer, same) = request_refused shut in inr (shut, answer, same)
  ]
