-- ===== src/Dispatch/Offers/Accept.antt =====
-- apps/api/app/domains/dispatch/service.py: `decide_offer` on an offer that is pending.
use breero_com.Prelude.{
  Bool, Option, add, any, ap, arith, false, get, get_key, if◌then◌else◌, leb, nat_eq, none, one_of,
  option_eq, put, refl, some, true, update, ℕ, ◌&&◌, ◌<◌, ◌==◌, ◌∙◌, ◌≡◌, ◌≢◌, ◌≤◌, ◌⊎◌, sym,
}
use breero_com.Models.{
  Booking, BookingStatus, Db, DispatchOffer, Job, JobStatus, OfferStatus, Worker, booking_status_eq,
  job_status_eq, offer_status_eq, Assignment,
}
use breero_com.Errors.{offer_has_expired}
use breero_com.Context.{Context}
use breero_com.Session.{Session, err, ok, request, returned, ◌>>=◌}
use breero_com.Jobs.{
  Actor, get_job, job_id_of, log_transition, put_job, transition_event, transitioned,
}
use breero_com.Payments.{booking_id_of, put_booking}
use breero_com.Dispatch.{add_assignment, assigned_to, holds_slot, is_active_for}
use breero_com.Dispatch.Manual.{put_twice, transition_runs, transitioned_id, IsStaffed}
use breero_com.Dispatch.Offers.{
  accept_checked, accept_for_job, accept_offer, accepting_actor, answer_offer, audit_assignment,
  confirm_held_slot, decide_found, decide_offer, either_worker, expire_offer, get_offer, is_rival,
  offer_assignment, offer_id_of, open_statuses, put_offer, responded, selected_worker, with_status,
  withdraw_rivals,
}
use breero_com.Dispatch.Offers.Rivals.{accepted_kept, none_pending, offer_twice}

-- What `confirm_held_slot` leaves.
slot_after : ℕ → Option Booking → Db → Db
slot_after worker_id none db = db
slot_after worker_id (some b) db =
    if b.provider_worker_id == some worker_id
      && b.status == BookingStatus.pending_provider_confirmation
    then put_booking (record b { status = BookingStatus.confirmed }) db
    else db

slot_runs :
    (worker_id : ℕ) (b : Option Booking) (s : Session Db)
    → confirm_held_slot worker_id b s ≡ (ok tt, record s { live = slot_after worker_id b s.live })
unfolding confirm_held_slot slot_after ◌>>=◌
slot_runs worker_id none s = refl
slot_runs worker_id (some b) s = ground arith

slot_beside :
    (worker_id : ℕ) (b : Option Booking) (db : Db)
    → ((slot_after worker_id b db).jobs ≡ db.jobs)
      × ((slot_after worker_id b db).assignments ≡ db.assignments)
      × ((slot_after worker_id b db).offers ≡ db.offers)
unfolding slot_after
slot_beside worker_id none db = (refl, refl, refl)
slot_beside worker_id (some b) db = ground arith

abbrev accepted_offer : DispatchOffer → DispatchOffer
accepted_offer o = with_status OfferStatus.accepted o

abbrev staffed_job : Context → Job → ℕ → ℕ → Job
staffed_job c j vendor_id worker_id =
    transitioned c (assigned_to vendor_id worker_id j) JobStatus.assigned

staffed_same :
    (j : Job) (vendor_id worker_id : ℕ)
    → ((assigned_to vendor_id worker_id j).status ≡ j.status)
      × ((assigned_to vendor_id worker_id j).id ≡ j.id)
unfolding assigned_to
staffed_same j vendor_id worker_id = (refl, refl)

-- What `accept_checked` commits.
accept_runs :
    (c : Context) (x : DispatchOffer) (j : Job) (b : Option Booking)
    (vendor_id worker_id actor_id : ℕ) (s : Session Db)
    → (j.status ≡ JobStatus.matching) ⊎ (j.status ≡ JobStatus.offered)
    → any (is_active_for j.id) s.live.assignments ≡ false
    → (d : Db) × (accept_checked c x j b vendor_id worker_id actor_id s
        ≡ (ok (accepted_offer x), record { saved = d; live = d }))
      × (d.offers
          ≡ update
              (is_rival j.id x.id)
              (with_status OfferStatus.withdrawn)
              (put offer_id_of (accepted_offer x) s.live.offers))
      × (d.assignments ≡ add (offer_assignment j x vendor_id worker_id actor_id) s.live.assignments)
      × (d.jobs
          ≡ put job_id_of
              (staffed_job c j vendor_id worker_id)
              (put job_id_of (assigned_to vendor_id worker_id j) s.live.jobs))
unfolding accept_checked withdraw_rivals audit_assignment log_transition ◌>>=◌
accept_runs c x j b vendor_id worker_id actor_id s at free =
    let staffed : Job = assigned_to vendor_id worker_id j in
    let actor : Actor = accepting_actor actor_id in
    let written : Db =
      put_job staffed
        (audit_assignment c j vendor_id worker_id actor_id (put_offer (accepted_offer x) s.live)) in
    let slotted : Db = slot_after worker_id b written in
    let moved : Db =
      log_transition (transition_event staffed JobStatus.assigned actor)
        (transitioned c staffed JobStatus.assigned) slotted in
    let (jobs, assignments, offers) = slot_beside worker_id b written in
    (
      withdraw_rivals j.id x.id
          (add_assignment (offer_assignment j x vendor_id worker_id actor_id) moved),
      rw
          (
            slot_runs worker_id b (record { saved = s.saved; live = written }),
            transition_runs c staffed actor (record { saved = s.saved; live = slotted })
                (ground (arith, at, staffed_same j vendor_id worker_id)),
            assignments,
            free,
          )
          refl,
      rw offers refl,
      rw assignments refl,
      rw jobs refl,
    )

decide_runs :
    (c : Context) (offer_id vendor_id : ℕ) (accept : Bool) (worker_id : Option ℕ) (actor_id : ℕ)
    (db : Db) (o : DispatchOffer)
    → get_offer offer_id db ≡ some o
    → (o.vendor_id == vendor_id) ≡ true
    → (o.status == OfferStatus.pending) ≡ true
    → let s : Session Db = record { saved = db; live = db } in
      let r =
        (if leb o.expires_at c.now
            then expire_offer o
            else answer_offer c vendor_id accept worker_id actor_id o)
          s in
      request (decide_offer c offer_id vendor_id accept worker_id actor_id) db ≡ (r.0, r.1.saved)
unfolding decide_offer decide_found request ◌>>=◌
decide_runs c offer_id vendor_id accept worker_id actor_id db o found own pending =
    rw (found, own, pending) refl

expire_runs :
    (o : DispatchOffer) (s : Session Db)
    → let d = put_offer (with_status OfferStatus.expired o) s.live in
      expire_offer o s ≡ (err offer_has_expired, record { saved = d; live = d })
unfolding expire_offer ◌>>=◌
expire_runs o s = refl

reads_beside :
    (worker_id : Option ℕ) (vendor_id : ℕ) (x : DispatchOffer) (db : Db)
    → selected_worker worker_id vendor_id (put_offer x db) ≡ selected_worker worker_id vendor_id db
reads_beside none vendor_id x db = refl
reads_beside (some worker_id) vendor_id x db = refl

answer_runs :
    (c : Context) (vendor_id : ℕ) (worker_id : Option ℕ) (actor_id : ℕ) (o : DispatchOffer)
    (db : Db) (w : Worker) (j : Job)
    → selected_worker (either_worker worker_id o.worker_id) vendor_id db ≡ some w
    → get_job o.job_id db ≡ some j
    → holds_slot w.id (get booking_id_of j.booking_id db.bookings) ≡ true
    → one_of j.status open_statuses ≡ true
    → answer_offer c vendor_id true worker_id actor_id o (record { saved = db; live = db })
      ≡ accept_checked c
          (responded c.now o)
          j
          (get booking_id_of j.booking_id db.bookings)
          vendor_id
          w.id
          actor_id
          (record { saved = db; live = put_offer (responded c.now o) db })
unfolding answer_offer accept_offer accept_for_job ◌>>=◌
answer_runs c vendor_id worker_id actor_id o db w j worker job slot at =
    rw
      (
        reads_beside (either_worker worker_id o.worker_id) vendor_id (responded c.now o) db,
        worker,
        job,
        at,
        slot,
      )
      refl

not_pending :
    (y : DispatchOffer) → (y.status == OfferStatus.pending) ≡ false → y.status ≢ OfferStatus.pending
not_pending y h e = ground (arith, offer_status_eq.equal_iff y.status OfferStatus.pending)

offer_assignment-IsStaffed :
    (c : Context) (j : Job) (o : DispatchOffer) (vendor_id worker_id actor_id : ℕ)
    → IsStaffed vendor_id worker_id j
        (offer_assignment j o vendor_id worker_id actor_id)
        (transitioned c (assigned_to vendor_id worker_id j) JobStatus.assigned)
unfolding offer_assignment assigned_to transitioned
offer_assignment-IsStaffed c j o vendor_id worker_id actor_id = record {
  active = refl;
  of_job = refl;
  of_vendor = refl;
  of_worker = refl;
  assigned = refl;
  to_vendor = refl;
  to_worker = refl;
  version = refl;
}

module _ (c : Context) (offer_id vendor_id actor_id : ℕ) (worker_id : Option ℕ) (db : Db)
    (o : DispatchOffer) (found : get_offer offer_id db ≡ some o) (own : o.vendor_id ≡ vendor_id)
    (pending : o.status ≡ OfferStatus.pending) where
  own' : (o.vendor_id == vendor_id) ≡ true
  own' = (nat_eq.equal_iff o.vendor_id vendor_id).1 own

  pending' : (o.status == OfferStatus.pending) ≡ true
  pending' = (offer_status_eq.equal_iff o.status OfferStatus.pending).1 pending

  -- An offer that is answered after its time, whatever the answer is, is stored as expired, although
  -- the request is refused; nothing else is changed.
  pub decide_offer-expired :
      (accept : Bool)
      → o.expires_at ≤ c.now
      → request (decide_offer c offer_id vendor_id accept worker_id actor_id) db
        ≡ (err offer_has_expired, put_offer (with_status OfferStatus.expired o) db)
  decide_offer-expired accept late =
      let late' : leb o.expires_at c.now ≡ true = ground arith in
      decide_runs c offer_id vendor_id accept worker_id actor_id db o found own' pending'
      ∙ rw (late', expire_runs o (record { saved = db; live = db })) refl

  module _ (j : Job) (w : Worker)
      (worker : selected_worker (either_worker worker_id o.worker_id) vendor_id db ≡ some w)
      (job : get_job o.job_id db ≡ some j)
      (slot : holds_slot w.id (get booking_id_of j.booking_id db.bookings) ≡ true)
      (standing : c.now < o.expires_at) where
    as_accept :
        one_of j.status open_statuses ≡ true
        → let r =
            accept_checked c
              (responded c.now o)
              j
              (get booking_id_of j.booking_id db.bookings)
              vendor_id
              w.id
              actor_id
              (record { saved = db; live = put_offer (responded c.now o) db }) in
          request (decide_offer c offer_id vendor_id true worker_id actor_id) db ≡ (r.0, r.1.saved)
    as_accept at =
        let standing' : leb o.expires_at c.now ≡ false = ground arith in
        decide_runs c offer_id vendor_id true worker_id actor_id db o found own' pending'
        ∙ rw (standing', answer_runs c vendor_id worker_id actor_id o db w j worker job slot at)
            refl

    -- A vendor who accepts an offer that stands, for a job that is being matched or was offered, with
    -- a worker of his that takes part and that holds the booked slot if there is a booking, gets the
    -- offer accepted, one active assignment of the job to the two stored, the job assigned to them,
    -- one version on; and no offer for the job is left pending. The job had no active assignment
    -- before.
    pub decide_offer-accepts :
        (j.status ≡ JobStatus.matching) ⊎ (j.status ≡ JobStatus.offered)
        → any (is_active_for j.id) db.assignments ≡ false
        → let r = request (decide_offer c offer_id vendor_id true worker_id actor_id) db in
          (o' : DispatchOffer) × (a : Assignment) × (j' : Job) × (returned r ≡ some o')
          × (get_offer offer_id r.1 ≡ some o')
          × (o'.status ≡ OfferStatus.accepted)
          × (o'.responded_at ≡ some c.now)
          × (r.1.assignments ≡ add a db.assignments)
          × (a.offer_id ≡ some offer_id)
          × (get_job o.job_id r.1 ≡ some j')
          × IsStaffed vendor_id w.id j a j'
          × ((k : ℕ) (x : DispatchOffer)
              → get_offer k r.1 ≡ some x
              → x.job_id ≡ j.id
              → x.status ≢ OfferStatus.pending)
    unfolding offer_assignment
    decide_offer-accepts at free =
        let x : DispatchOffer = responded c.now o in
        let key : o.id ≡ offer_id = get_key offer_id_of offer_id db.offers o found in
        let job_key : j.id ≡ o.job_id = get_key job_id_of o.job_id db.jobs j job in
        let booking : Option Booking = get booking_id_of j.booking_id db.bookings in
        let s : Session Db = record { saved = db; live = put_offer x db } in
        let (d, ran, offers, assignments, jobs) =
          accept_runs c x j booking vendor_id w.id actor_id s at free in
        let run = as_accept (ground arith) ∙ ap (λ t. (t.0, t.1.saved)) ran in
        let here = offer_twice x (accepted_offer x) o offer_id db.offers found key key in
        let staffed_key : (assigned_to vendor_id w.id j).id ≡ o.job_id =
          (staffed_same j vendor_id w.id).1 ∙ job_key in
        let rows = put offer_id_of (accepted_offer x) (put offer_id_of x db.offers) in
        (
          accepted_offer x,
          offer_assignment j (accepted_offer x) vendor_id w.id actor_id,
          staffed_job c j vendor_id w.id,
          rw run refl,
          rw (run, offers) (accepted_kept offer_id j.id (accepted_offer x) rows here),
          refl,
          refl,
          rw run assignments,
          ap some key,
          rw (run, jobs)
              (put_twice (assigned_to vendor_id w.id j) (staffed_job c j vendor_id w.id) j o.job_id
                db.jobs job staffed_key
                (transitioned_id c (assigned_to vendor_id w.id j) ∙ staffed_key)),
          offer_assignment-IsStaffed c j (accepted_offer x) vendor_id w.id actor_id,
          λ k y read of_job. not_pending y (
              none_pending k j.id offer_id (accepted_offer x) y rows here key refl
                (rw (← offers) (sym (ap (λ t. get_offer k t.1) run) ∙ read)) of_job),
        )
