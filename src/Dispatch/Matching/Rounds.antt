-- ===== src/Dispatch/Matching/Rounds.antt =====
-- apps/api/app/domains/dispatch/service.py: the rounds of offers that `match` opens.
use breero_com.Prelude.{
  All, Bool, List, Option, [], any, ap, arith, false, get, if◌then◌else◌, is_empty, length,
  length-take_le, nat_eq, not, one_of, option_eq, refl, select, some, suc, true, ℕ, ◌++◌, ◌+◌, ◌<◌,
  ◌==◌, ◌||◌, ◌∙◌, ◌∷◌, ◌≡◌, ◌≤◌,
}
use breero_com.Models.{
  Db, DispatchOffer, Job, JobStatus, OfferStatus, Worker, job_status_eq, offer_status_eq,
}
use breero_com.Errors.{offers_conflict}
use breero_com.Context.{Context}
use breero_com.Session.{err, ok, request, returned, ◌>>=◌}
use breero_com.Jobs.{get_job}
use breero_com.Payments.{booking_id_of}
use breero_com.Dispatch.{assignable_statuses}
use breero_com.Dispatch.Matching.{
  candidate_limit, candidate_workers, clashes, held_worker, is_candidate, is_unique, last_round,
  match_job, match_offers, match_to, new_offer, new_offers, offer_job, store_offers,
}
use breero_com.Dispatch.Matching.Runs.{offer_job_runs}

-- Two of the workers are of one vendor.
abbrev pub shares_vendor : List Worker → Bool
shares_vendor [] = false
shares_vendor (w ∷ workers) = any (λ v. w.vendor_id == v.vendor_id) workers || shares_vendor workers

any-append :
    {A : Type 0} (p : A → Bool) (xs ys : List A) → any p (xs ++ ys) ≡ (any p xs || any p ys)
any-append p [] ys = refl
any-append p (x ∷ xs) ys = ground (arith, any-append p xs ys)

-- The rounds of a job in a table come before round `n`.
abbrev IsBefore : ℕ → ℕ → List DispatchOffer → Type 0
IsBefore job_id n = All λ o. o.job_id ≡ job_id → o.round < n

last_round-IsBefore :
    (job_id n : ℕ) (rows : List DispatchOffer) → last_round job_id rows < n → IsBefore job_id n rows
last_round-IsBefore job_id n [] h = tt
last_round-IsBefore job_id n (o ∷ rows) h = (
  (λ same. ground (arith, nat_eq.equal_iff o.job_id job_id)),
  last_round-IsBefore job_id n rows (ground (arith, nat_eq.equal_iff o.job_id job_id)),
)

module _ (c : Context) (job_id round : ℕ) where
  clash_new :
      (w : Worker) (rank next : ℕ) (workers : List Worker)
      → any (clashes (new_offer c job_id round rank w)) (new_offers c job_id round next workers)
        ≡ any (λ v. w.vendor_id == v.vendor_id) workers
  unfolding new_offers new_offer
  clash_new w rank next [] = refl
  clash_new w rank next (v ∷ workers) = ground (
    arith,
    clash_new w rank (suc next) workers,
    nat_eq.equal_iff job_id job_id,
    nat_eq.equal_iff round round,
  )

  is_unique-new :
      (rank : ℕ) (workers : List Worker)
      → is_unique (new_offers c job_id round rank workers) ≡ not (shares_vendor workers)
  unfolding new_offers
  is_unique-new rank [] = refl
  is_unique-new rank (w ∷ workers) =
      rw (clash_new w rank (suc rank) workers, is_unique-new (suc rank) workers) (ground arith)

  clash_old :
      (o : DispatchOffer) (rank : ℕ) (workers : List Worker)
      → (o.job_id ≡ job_id → o.round < round)
      → any (clashes o) (new_offers c job_id round rank workers) ≡ false
  unfolding new_offers new_offer
  clash_old o rank [] before = refl
  clash_old o rank (w ∷ workers) before = ground (
    arith,
    clash_old o (suc rank) workers before,
    nat_eq.equal_iff o.job_id job_id,
    nat_eq.equal_iff o.round round,
  )

  is_unique-append :
      (rank : ℕ) (rows : List DispatchOffer) (workers : List Worker)
      → IsBefore job_id round rows
      → is_unique rows ≡ true
      → is_unique (rows ++ new_offers c job_id round rank workers) ≡ not (shares_vendor workers)
  is_unique-append rank [] workers before h = is_unique-new rank workers
  is_unique-append rank (o ∷ rows) workers before h =
      rw
        (
          any-append (clashes o) rows (new_offers c job_id round rank workers),
          clash_old o rank workers before.0,
        )
        (ground (arith, is_unique-append rank rows workers before.1))

-- Every offer of a round: to a worker, with fifteen minutes to answer.
abbrev IsRound : Context → ℕ → ℕ → List DispatchOffer → Type 0
IsRound c job_id round = All λ o.
    (o.job_id ≡ job_id)
    × (o.round ≡ round)
    × (o.status ≡ OfferStatus.pending)
    × (o.expires_at ≡ c.now + 900)

new_offers-IsRound :
    (c : Context) (job_id round rank : ℕ) (workers : List Worker)
    → IsRound c job_id round (new_offers c job_id round rank workers)
unfolding new_offers new_offer
new_offers-IsRound c job_id round rank [] = tt
new_offers-IsRound c job_id round rank (w ∷ workers) =
    ((refl, refl, refl, refl), new_offers-IsRound c job_id round (suc rank) workers)

length-new_offers :
    (c : Context) (job_id round rank : ℕ) (workers : List Worker)
    → length (new_offers c job_id round rank workers) ≡ length workers
unfolding new_offers
length-new_offers c job_id round rank [] = refl
length-new_offers c job_id round rank (w ∷ workers) =
    omega (arith, length-new_offers c job_id round (suc rank) workers)

store_runs :
    (offers : List DispatchOffer) (saved d : Db) (unique : Bool)
    → is_unique d.offers ≡ unique
    → store_offers offers (record { saved = saved; live = d }) ≡ (
        if unique
        then (ok offers, record { saved = d; live = d })
        else (err offers_conflict, record { saved = saved; live = d }))
unfolding store_offers ◌>>=◌
store_runs offers saved d true h = rw h refl
store_runs offers saved d false h = rw h refl

-- The candidates are offered the job, in a round of its own.
abbrev pub OpensRound : Context → ℕ → Option ℕ → Db → Job → List Worker → Type 0
OpensRound c job_id actor_id db j workers =
    let r = request (match_offers c job_id actor_id) db in
    (os : List DispatchOffer) × (n : ℕ) × ((returned r ≡ some os)
      × (r.1.offers ≡ db.offers ++ os)
      × (length os ≡ length workers)
      × (length os ≤ 10)
      × IsRound c j.id n os
      × All (λ o. o.job_id ≡ j.id → o.round < n) db.offers
      × ((x : Job) × (get_job job_id r.1 ≡ some x) × (x.status ≡ JobStatus.offered)))

module _ (c : Context) (job_id : ℕ) (actor_id : Option ℕ) (db : Db) (j : Job)
    (workers : List Worker) (found : get_job job_id db ≡ some j)
    (at : one_of j.status assignable_statuses ≡ true)
    (candidates : candidate_workers candidate_limit
        (held_worker (get booking_id_of j.booking_id db.bookings))
        db
      ≡ workers)
    (some_candidate : is_empty workers ≡ false) (sound : is_unique db.offers ≡ true) where
  abbrev round : ℕ
  round = last_round j.id db.offers + 1

  abbrev offers : List DispatchOffer
  offers = new_offers c j.id round 0 workers

  at_most_ten : length workers ≤ 10
  unfolding candidate_workers
  at_most_ten = rw (← candidates) (
      length-take_le candidate_limit (
        select (is_candidate (held_worker (get booking_id_of j.booking_id db.bookings)) db)
          db.workers))

  IsBefore-round : IsBefore j.id round db.offers
  IsBefore-round = last_round-IsBefore j.id round db.offers (omega arith)

  match_runs :
      let r = offer_job c actor_id round j offers (record { saved = db; live = db }) in
      request (match_offers c job_id actor_id) db ≡ (r.0, r.1.saved)
  unfolding match_offers match_job match_to request ◌>>=◌
  match_runs = rw (found, at, candidates, some_candidate) refl

  unique_after :
      (d : Db) → d.offers ≡ db.offers ++ offers → is_unique d.offers ≡ not (shares_vendor workers)
  unique_after d added =
      rw added (is_unique-append c j.id round 0 db.offers workers IsBefore-round sound)

  conflict :
      shares_vendor workers ≡ true
      → request (match_offers c job_id actor_id) db ≡ (err offers_conflict, db)
  conflict shared =
      let (d, (ran, result)) = offer_job_runs c actor_id job_id round j offers db found at in
      let stored =
        store_runs offers db d (not (shares_vendor workers)) (unique_after d result.added) in
      match_runs ∙ ap (λ t. (t.0, t.1.saved)) (ran ∙ stored) ∙ rw shared refl

  opens_round : shares_vendor workers ≡ false → OpensRound c job_id actor_id db j workers
  opens_round distinct =
      let (d, (ran, result)) = offer_job_runs c actor_id job_id round j offers db found at in
      let stored =
        store_runs offers db d (not (shares_vendor workers)) (unique_after d result.added) in
      let run : request (match_offers c job_id actor_id) db ≡ (ok offers, d) =
        match_runs ∙ ap (λ t. (t.0, t.1.saved)) (ran ∙ stored) ∙ rw distinct refl in
      (
        offers,
        round,
        rw run (
          refl,
          result.added,
          length-new_offers c j.id round 0 workers,
          rw (length-new_offers c j.id round 0 workers) (at_most_ten),
          new_offers-IsRound c j.id round 0 workers,
          IsBefore-round,
          result.job_offered,
        ),
      )

  -- Where the candidates are of different vendors, they are offered the job: each offer is pending
  -- for fifteen minutes and its round is later than that of any offer of the job before, there are at
  -- most ten, they are added to those before, and the job is in the state OFFERED. Where two of the
  -- candidates are workers of one vendor, the offers break the unique index on job, vendor and
  -- round: the request raises that error, which nothing handles, and no one is offered the job. The
  -- offers before satisfied the index.
  pub match_offers-rounds :
      (shares_vendor workers ≡ false → OpensRound c job_id actor_id db j workers)
      × (shares_vendor workers ≡ true
          → request (match_offers c job_id actor_id) db ≡ (err offers_conflict, db))
  match_offers-rounds = (opens_round, conflict)
