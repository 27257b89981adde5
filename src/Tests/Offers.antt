-- ===== src/Tests/Offers.antt =====
-- The theorems on offers and rounds at concrete inputs.
use breero_com.Dispatch.Manual.{IsStaffed}
use breero_com.Prelude.{[], arith, false, inr, none, refl, some, true, ℕ, ◌∷◌, ◌≡◌, ◌≢◌}
use breero_com.Models.{
  Db, DispatchOffer, Job, JobStatus, OfferStatus, Vendor, VendorStatus, Worker, WorkerStatus,
  Assignment,
}
use breero_com.Errors.{offer_has_expired, offers_conflict}
use breero_com.Session.{err, request, returned}
use breero_com.Tests.{a_job, empty, surroundings}
use breero_com.Jobs.{get_job}
use breero_com.Dispatch.{holds_slot}
use breero_com.Dispatch.Offers.{decide_offer, get_offer, put_offer, with_status}
use breero_com.Dispatch.Offers.Steps.{decide, expire, match, run, run-settled}
use breero_com.Dispatch.Offers.Accept.{decide_offer-accepts, decide_offer-expired}
use breero_com.Dispatch.Matching.{candidate_workers, match_offers}
use breero_com.Dispatch.Matching.Rounds.{OpensRound, match_offers-rounds, shares_vendor}

abbrev a_worker : Worker
a_worker = record { id = 7; vendor_id = 6; status = WorkerStatus.active; available = true }

abbrev a_vendor : Vendor
a_vendor = record { id = 6; status = VendorStatus.active; capabilities = [] }

abbrev an_offer : DispatchOffer
an_offer = record {
  id = 20;
  job_id = 1;
  vendor_id = 6;
  worker_id = some 7;
  status = OfferStatus.pending;
  round = 1;
  score = 1000;
  expires_at = 1500;
  responded_at = none;
}

abbrev waiting_job : Job
waiting_job = record a_job { status = JobStatus.offered; vendor_id = none; worker_id = none }

-- A job with two offers, and two workers of different vendors.
abbrev two_offers : Db
two_offers = record empty {
  jobs = waiting_job ∷ [];
  vendors = a_vendor ∷ record a_vendor { id = 9 } ∷ [];
  workers = a_worker ∷ record a_worker { id = 8; vendor_id = 9 } ∷ [];
  offers = an_offer ∷ record an_offer { id = 21; vendor_id = 9; worker_id = some 8 } ∷ [];
}

abbrev refused_offer : DispatchOffer
refused_offer = record an_offer { status = OfferStatus.declined }

run-settled_example :
    get_offer 20 (
      run
        (expire 3000 ∷ decide surroundings 20 6 true none 5 ∷ match surroundings 1 none ∷ [])
        (record two_offers { offers = refused_offer ∷ [] }))
    ≡ some refused_offer
run-settled_example =
    run-settled _ (record two_offers { offers = refused_offer ∷ [] }) 20 refused_offer refl
      (λ e. ground arith)

decide_offer-expired_example :
    request (decide_offer (record surroundings { now = 1500 }) 20 6 true none 5) two_offers
    ≡ (err offer_has_expired, put_offer (with_status OfferStatus.expired an_offer) two_offers)
decide_offer-expired_example =
    decide_offer-expired (record surroundings { now = 1500 }) 20 6 5 none two_offers an_offer refl
      refl refl true (omega arith)

decide_offer-accepts_example :
    let r = request (decide_offer surroundings 20 6 true none 5) two_offers in
    (o' : DispatchOffer) × (a : Assignment) × (j' : Job) × (returned r ≡ some o')
    × (get_offer 20 r.1 ≡ some o')
    × (o'.status ≡ OfferStatus.accepted)
    × (o'.responded_at ≡ some 1000)
    × (r.1.assignments ≡ a ∷ [])
    × (a.offer_id ≡ some 20)
    × (get_job 1 r.1 ≡ some j')
    × IsStaffed 6 7 waiting_job a j'
    × ((k : ℕ) (x : DispatchOffer)
        → get_offer k r.1 ≡ some x
        → x.job_id ≡ 1
        → x.status ≢ OfferStatus.pending)
unfolding holds_slot
decide_offer-accepts_example =
    decide_offer-accepts surroundings 20 6 5 none two_offers an_offer refl refl refl waiting_job
      a_worker refl refl refl (omega arith) (inr refl) refl

match_offers-rounds_example :
    (shares_vendor two_offers.workers ≡ false
      → OpensRound surroundings 1 none two_offers waiting_job two_offers.workers)
    × (shares_vendor two_offers.workers ≡ true
        → request (match_offers surroundings 1 none) two_offers ≡ (err offers_conflict, two_offers))
unfolding candidate_workers
match_offers-rounds_example =
    match_offers-rounds surroundings 1 none two_offers waiting_job two_offers.workers refl refl refl
      refl refl
