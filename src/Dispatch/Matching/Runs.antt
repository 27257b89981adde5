-- ===== src/Dispatch/Matching/Runs.antt =====
-- apps/api/app/domains/dispatch/service.py: how `match` offers a job.
use breero_com.Prelude.{
  List, Option, [], arith, false, get-put, get_key, inl, inr, length, nat_eq, one_of, option_eq,
  refl, some, string_eq, true, ℕ, ◌++◌, ◌==◌, ◌∙◌, ◌∷◌, ◌≡◌, ◌⊎◌,
}
use breero_com.Models.{Db, DispatchOffer, Job, JobEvent, JobStatus, job_status_eq}
use breero_com.Context.{Context}
use breero_com.Session.{Session, ok, ◌>>=◌}
use breero_com.Jobs.{
  Actor, apply_transition, change_status, get_job, job_id_of, log_transition, transition_event,
  transitioned, transitions,
}
use breero_com.Dispatch.{assignable_statuses}
use breero_com.Dispatch.Matching.{
  add_offers, matching_actor, offer_job, start_matching, store_offers,
}

-- A transition that the diagram lists, other than a completion.
move_runs :
    (c : Context) (j : Job) (target : JobStatus) (actor : Actor) (s : Session Db)
    → one_of target (transitions j.status) ≡ true
    → (target == j.status) ≡ false
    → (target == JobStatus.completed) ≡ false
    → apply_transition c j target actor s ≡ (
      ok (transitioned c j target, true),
      record s {
        live = log_transition (transition_event j target actor) (transitioned c j target) s.live;
      },
    )
unfolding apply_transition change_status ◌>>=◌
move_runs c j target actor s listed other partial = rw (other, listed, partial) refl

log_beside :
    (event : JobEvent) (x j : Job) (k : ℕ) (db : Db)
    → get_job k db ≡ some j
    → x.id ≡ k
    → (get_job k (log_transition event x db) ≡ some x)
      × ((log_transition event x db).offers ≡ db.offers)
unfolding log_transition
log_beside event x j k db found same = (ground (arith, get-put job_id_of x k db.jobs), refl)

moved_same :
    (c : Context) (j : Job) (target : JobStatus)
    → ((transitioned c j target).id ≡ j.id) × ((transitioned c j target).status ≡ target)
unfolding transitioned
moved_same c j target = (refl, refl)

assignable :
    (status : JobStatus)
    → one_of status assignable_statuses ≡ true
    → (status ≡ JobStatus.created) ⊎ (status ≡ JobStatus.matching) ⊎ (status ≡ JobStatus.offered)
assignable JobStatus.created h = inl refl
assignable JobStatus.matching h = inr (inl refl)
assignable JobStatus.offered h = inr (inr refl)
assignable status h = absurd (cc)

-- The state in which the offers are committed: they are added, and the job is offered.
pub record IsOffered (k : ℕ) (offers : List DispatchOffer) (before after : Db) : Type 0 where
  pub added : after.offers ≡ before.offers ++ offers
  pub job_offered : (x : Job) × (get_job k after ≡ some x) × (x.status ≡ JobStatus.offered)

module _ (c : Context) (actor_id : Option ℕ) (k round : ℕ) (j : Job) (offers : List DispatchOffer)
    (db : Db) (found : get_job k db ≡ some j) where
  abbrev with_offers : Session Db
  with_offers = record { saved = db; live = add_offers offers db }

  abbrev offered_actor : Actor
  offered_actor =
      matching_actor actor_id "offers_created" (("count", length offers) ∷ ("round", round) ∷ [])

  abbrev HasOffered : Db → Type 0
  HasOffered d =
      (offer_job c actor_id round j offers (record { saved = db; live = db })
        ≡ store_offers offers (record { saved = db; live = d }))
      × IsOffered k offers db d

  abbrev logged : Job → JobStatus → Actor → Db → Db
  logged x target actor d =
      log_transition (transition_event x target actor) (transitioned c x target) d

  offered_again : j.status ≡ JobStatus.offered → (d : Db) × HasOffered d
  unfolding offer_job start_matching apply_transition ◌>>=◌
  offered_again at =
      (add_offers offers db, (rw at refl, record { added = refl; job_offered = (j, found, at) }))

  offered_from_matching : j.status ≡ JobStatus.matching → (d : Db) × HasOffered d
  unfolding offer_job start_matching ◌>>=◌
  offered_from_matching at =
      let key : j.id ≡ k = get_key job_id_of k db.jobs j found in
      let skips : (j.status == JobStatus.created) ≡ false = rw at refl in
      let (same, status) = moved_same c j JobStatus.offered in
      let (read, beside) =
        log_beside (transition_event j JobStatus.offered offered_actor)
          (transitioned c j JobStatus.offered) j k (add_offers offers db) found (same ∙ key) in
      (
        logged j JobStatus.offered offered_actor (add_offers offers db),
        (
          rw
              (
                skips,
                move_runs c j JobStatus.offered offered_actor with_offers (rw at refl) (rw at refl)
                    refl,
              )
              refl,
          record {
            added = beside;
            job_offered = (transitioned c j JobStatus.offered, read, status);
          },
        ),
      )

  offered_from_created : j.status ≡ JobStatus.created → (d : Db) × HasOffered d
  unfolding offer_job start_matching ◌>>=◌
  offered_from_created at =
      let starts : (j.status == JobStatus.created) ≡ true = rw at refl in
      let started : Actor = matching_actor actor_id "matching_started" [] in
      let x : Job = transitioned c j JobStatus.matching in
      let key : j.id ≡ k = get_key job_id_of k db.jobs j found in
      let (same, status) = moved_same c j JobStatus.matching in
      let (same', status') = moved_same c x JobStatus.offered in
      let d : Db = logged j JobStatus.matching started (add_offers offers db) in
      let (read, beside) =
        log_beside (transition_event j JobStatus.matching started) x j k (add_offers offers db)
          found (same ∙ key) in
      let (read', beside') =
        log_beside (transition_event x JobStatus.offered offered_actor)
          (transitioned c x JobStatus.offered) x k d read (same' ∙ same ∙ key) in
      (
        logged x JobStatus.offered offered_actor d,
        (
          rw
              (
                starts,
                move_runs c j JobStatus.matching started with_offers (rw at refl) (rw at refl) refl,
                move_runs c x JobStatus.offered offered_actor (record { saved = db; live = d })
                    (rw status refl) (rw status refl) refl,
              )
              refl,
          record {
            added = beside' ∙ beside;
            job_offered = (transitioned c x JobStatus.offered, read', status');
          },
        ),
      )

  pub offer_job_runs : one_of j.status assignable_statuses ≡ true → (d : Db) × HasOffered d
  offer_job_runs at = elim (assignable j.status at) [
    | inl e ↦ offered_from_created e
    | inr (inl e) ↦ offered_from_matching e
    | inr (inr e) ↦ offered_again e
  ]
