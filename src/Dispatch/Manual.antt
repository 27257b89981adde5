-- ===== src/Dispatch/Manual.antt =====
-- apps/api/app/domains/dispatch/service.py: `manual_assign`, by the state of the job.
use breero_com.Prelude.{
  List, Option, String, [], add, ap, arith, get, get-put, get_key, nat_eq, none, one_of, or_else,
  put, refl, some, true, ℕ, ◌∙◌, ◌∷◌, ◌≡◌, ◌⊎◌, any, Bool, false, not, ◌+◌,
}
use breero_com.Models.{
  Assignment, Booking, Db, Job, JobStatus, Worker, job_status_eq, AssignmentStatus,
}
use breero_com.Errors.{bad_job_transition, active_assignment_exists}
use breero_com.Context.{Context, record_audit}
use breero_com.Session.{Session, Tx, commit, err, ok, pure, request, returned, ◌>>=◌, guard}
use breero_com.Jobs.{
  Actor, apply_transition, change_status, get_job, job_id_of, log_transition, put_job,
  transition_event, transitioned,
}
use breero_com.Payments.{booking_id_of}
use breero_com.Dispatch.{
  add_assignment, assign, assign_job, assignable_statuses, assigned_to, assigning_actor,
  available_worker, confirm_slot, holds_slot, manual_assign, new_assignment, is_active_for,
}

pub put_twice :
    (a b j : Job) (k : ℕ) (rows : List Job)
    → get job_id_of k rows ≡ some j
    → a.id ≡ k
    → b.id ≡ k
    → get job_id_of k (put job_id_of b (put job_id_of a rows)) ≡ some b
put_twice a b j k rows found same_a same_b =
    ground (arith, get-put job_id_of a k rows, get-put job_id_of b k (put job_id_of a rows))

assigned_id :
    (c : Context) (j : Job) (vendor_id worker_id : ℕ)
    → (assigned_to vendor_id worker_id (transitioned c j JobStatus.assigned)).id ≡ j.id
unfolding assigned_to transitioned
assigned_id c j vendor_id worker_id = refl

pub transitioned_id : (c : Context) (j : Job) → (transitioned c j JobStatus.assigned).id ≡ j.id
unfolding transitioned
transitioned_id c j = refl

-- The slot's booking is confirmed beside the jobs and the assignments.
confirm_slot_runs :
    (o : Option Booking) (s : Session Db)
    → ((confirm_slot o s).0 ≡ ok tt)
      × ((confirm_slot o s).1.live.jobs ≡ s.live.jobs)
      × ((confirm_slot o s).1.live.assignments ≡ s.live.assignments)
unfolding confirm_slot ◌>>=◌
confirm_slot_runs none s = (refl, refl, refl)
confirm_slot_runs (some b) s = ground arith

pub transition_runs :
    (c : Context) (j : Job) (actor : Actor) (s : Session Db)
    → (j.status ≡ JobStatus.matching) ⊎ (j.status ≡ JobStatus.offered)
    → apply_transition c j JobStatus.assigned actor s ≡ (
      ok (transitioned c j JobStatus.assigned, true),
      record s {
        live =
            log_transition
              (transition_event j JobStatus.assigned actor)
              (transitioned c j JobStatus.assigned)
              s.live;
      },
    )
unfolding apply_transition change_status ◌>>=◌
transition_runs c j actor s at = ground arith

finish_assigning : Bool → Option Booking → Assignment → Tx Db Assignment
finish_assigning taken booking assignment = confirm_slot booking >>= λ _.
    guard (not taken) active_assignment_exists >>= λ _. commit >>= λ _. pure assignment

finish_runs :
    (o : Option Booking) (x : Assignment) (s : Session Db)
    → ((finish_assigning false o x s).0 ≡ ok x)
      × ((finish_assigning false o x s).1.saved.jobs ≡ s.live.jobs)
      × ((finish_assigning false o x s).1.saved.assignments ≡ s.live.assignments)
unfolding finish_assigning ◌>>=◌
finish_runs o x s = ground (arith, confirm_slot_runs o s)

finish_refuses :
    (o : Option Booking) (x : Assignment) (s : Session Db)
    → ((finish_assigning true o x s).0 ≡ err active_assignment_exists)
      × ((finish_assigning true o x s).1.saved ≡ s.saved)
unfolding finish_assigning confirm_slot ◌>>=◌
finish_refuses none x s = (refl, refl)
finish_refuses (some b) x s = ground arith

-- What `assign` leaves to be finished.
assign_runs :
    (c : Context) (j : Job) (o : Option Booking) (vendor_id worker_id actor_id : ℕ)
    (reason : Option String) (db : Db)
    → (j.status ≡ JobStatus.matching) ⊎ (j.status ≡ JobStatus.offered)
    → (d : Db) × (assign c j o vendor_id worker_id actor_id reason
          (record { saved = db; live = db })
        ≡ finish_assigning
            (any (is_active_for j.id) db.assignments)
            o
            (new_assignment j vendor_id worker_id actor_id)
            (record { saved = db; live = d }))
      × (d.jobs
          ≡ put job_id_of
              (assigned_to vendor_id worker_id (transitioned c j JobStatus.assigned))
              (put job_id_of (transitioned c j JobStatus.assigned) db.jobs))
      × (d.assignments ≡ add (new_assignment j vendor_id worker_id actor_id) db.assignments)
unfolding assign finish_assigning log_transition ◌>>=◌
assign_runs c j o vendor_id worker_id actor_id reason db at =
    let x : Assignment = new_assignment j vendor_id worker_id actor_id in
    let actor : Actor = assigning_actor actor_id reason in
    let moved : Job = transitioned c j JobStatus.assigned in
    let recorded : Db =
      record_audit c (some actor_id) "assignment.create" "job" j.id
        (("vendor_id", c.str vendor_id)
          ∷ ("worker_id", c.str worker_id)
          ∷ ("reason", or_else reason "")
          ∷ [])
        (add_assignment x db) in
    (
      put_job (assigned_to vendor_id worker_id moved)
          (log_transition (transition_event j JobStatus.assigned actor) moved recorded),
      rw (transition_runs c j actor (record { saved = db; live = recorded }) at) refl,
      refl,
      refl,
    )

-- The assignment is active and gives the job, one version on, to the vendor and the worker.
pub record IsStaffed (vendor_id worker_id : ℕ) (j : Job) (x : Assignment) (j' : Job) : Type 0 where
  pub active : x.status ≡ AssignmentStatus.active
  pub of_job : x.job_id ≡ j.id
  pub of_vendor : x.vendor_id ≡ vendor_id
  pub of_worker : x.worker_id ≡ worker_id
  pub assigned : j'.status ≡ JobStatus.assigned
  pub to_vendor : j'.vendor_id ≡ some vendor_id
  pub to_worker : j'.worker_id ≡ some worker_id
  pub version : j'.version ≡ j.version + 1

new_assignment-IsStaffed :
    (c : Context) (j : Job) (vendor_id worker_id actor_id : ℕ)
    → IsStaffed vendor_id worker_id j
        (new_assignment j vendor_id worker_id actor_id)
        (assigned_to vendor_id worker_id (transitioned c j JobStatus.assigned))
unfolding new_assignment assigned_to transitioned
new_assignment-IsStaffed c j vendor_id worker_id actor_id = record {
  active = refl;
  of_job = refl;
  of_vendor = refl;
  of_worker = refl;
  assigned = refl;
  to_vendor = refl;
  to_worker = refl;
  version = refl;
}

module _ (c : Context) (job_id vendor_id worker_id actor_id : ℕ) (reason : Option String) (db : Db)
    (j : Job) (w : Worker) (found : get_job job_id db ≡ some j)
    (worker : available_worker worker_id vendor_id db ≡ some w)
    (slot : holds_slot worker_id (get booking_id_of j.booking_id db.bookings) ≡ true) where
  -- A job that was created and not yet matched passes the test of its state, and is refused by the
  -- transition: an operator never assigns a job from that state.
  pub manual_assign-created :
      j.status ≡ JobStatus.created
      → request (manual_assign c job_id vendor_id worker_id actor_id reason) db
        ≡ (err (bad_job_transition JobStatus.created JobStatus.assigned), db)
  unfolding manual_assign assign_job assign apply_transition change_status request ◌>>=◌
  manual_assign-created at = ground arith

  as_assign :
      one_of j.status assignable_statuses ≡ true
      → request (manual_assign c job_id vendor_id worker_id actor_id reason) db
        ≡ request
            (assign c j
              (get booking_id_of j.booking_id db.bookings)
              vendor_id
              worker_id
              actor_id
              reason)
            db
  unfolding manual_assign assign_job request ◌>>=◌
  as_assign at = ground arith

  -- What the request ends with, from a job that is being matched or was offered.
  stored_run :
      (taken : Bool)
      → any (is_active_for j.id) db.assignments ≡ taken
      → (j.status ≡ JobStatus.matching) ⊎ (j.status ≡ JobStatus.offered)
      → (d : Db) × (let final =
            finish_assigning taken
              (get booking_id_of j.booking_id db.bookings)
              (new_assignment j vendor_id worker_id actor_id)
              (record { saved = db; live = d }) in
          request (manual_assign c job_id vendor_id worker_id actor_id reason) db
          ≡ (final.0, final.1.saved))
        × (d.jobs
            ≡ put job_id_of
                (assigned_to vendor_id worker_id (transitioned c j JobStatus.assigned))
                (put job_id_of (transitioned c j JobStatus.assigned) db.jobs))
        × (d.assignments ≡ add (new_assignment j vendor_id worker_id actor_id) db.assignments)
  unfolding request
  stored_run taken free at =
      let booking : Option Booking = get booking_id_of j.booking_id db.bookings in
      let (d, ran, jobs, assignments) =
        assign_runs c j booking vendor_id worker_id actor_id reason db at in
      (
        d,
        as_assign (ground arith) ∙ ap (λ t. (t.0, t.1.saved)) ran ∙ rw free refl,
        jobs,
        assignments,
      )

  -- From a job that is being matched or was offered and has no active assignment, with its slot held
  -- by the worker, an active assignment of the job to the vendor and the worker is stored, and the
  -- job is assigned to the two, one version on.
  pub manual_assign-stored :
      (j.status ≡ JobStatus.matching) ⊎ (j.status ≡ JobStatus.offered)
      → any (is_active_for j.id) db.assignments ≡ false
      → let r = request (manual_assign c job_id vendor_id worker_id actor_id reason) db in
        (x : Assignment) × (j' : Job) × (returned r ≡ some x)
        × (r.1.assignments ≡ add x db.assignments)
        × (get_job job_id r.1 ≡ some j')
        × IsStaffed vendor_id worker_id j x j'
  manual_assign-stored at free =
      let key : j.id ≡ job_id = get_key job_id_of job_id db.jobs j found in
      let booking : Option Booking = get booking_id_of j.booking_id db.bookings in
      let x : Assignment = new_assignment j vendor_id worker_id actor_id in
      let (d, run, jobs, assignments) = stored_run false free at in
      let (ended, kept, added) = finish_runs booking x (record { saved = db; live = d }) in
      (
        x,
        assigned_to vendor_id worker_id (transitioned c j JobStatus.assigned),
        rw (run, ended) refl,
        rw run (added ∙ assignments),
        rw (run, kept, jobs)
            (put_twice (transitioned c j JobStatus.assigned)
              (assigned_to vendor_id worker_id (transitioned c j JobStatus.assigned)) j job_id
              db.jobs found (transitioned_id c j ∙ key)
              (assigned_id c j vendor_id worker_id ∙ key)),
        new_assignment-IsStaffed c j vendor_id worker_id actor_id,
      )

  -- Where the job has an active assignment, the new one breaks the unique index: the request raises
  -- that error, which nothing handles, and changes nothing.
  manual_assign-taken :
      (j.status ≡ JobStatus.matching) ⊎ (j.status ≡ JobStatus.offered)
      → any (is_active_for j.id) db.assignments ≡ true
      → request (manual_assign c job_id vendor_id worker_id actor_id reason) db
        ≡ (err active_assignment_exists, db)
  manual_assign-taken at taken =
      let booking : Option Booking = get booking_id_of j.booking_id db.bookings in
      let x : Assignment = new_assignment j vendor_id worker_id actor_id in
      let (d, run, jobs, assignments) = stored_run true taken at in
      let (refused, kept) = finish_refuses booking x (record { saved = db; live = d }) in
      rw (run, refused, kept) refl
