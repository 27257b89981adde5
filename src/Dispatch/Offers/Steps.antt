-- ===== src/Dispatch/Offers/Steps.antt =====
-- apps/api/app/domains/dispatch/service.py and repository.py: the commands of dispatch in any order,
-- each with the surroundings in which it is served.
use breero_com.Prelude.{
  Bool, List, Option, String, [], arith, false, nat_eq, option_eq, some, string_eq, ℕ, ◌==◌, ◌∷◌,
  ◌≡◌, ◌≢◌,
}
use breero_com.Models.{Db, DispatchOffer, Job, OfferStatus, Worker, offer_status_eq}
use breero_com.Context.{Context}
use breero_com.Session.{Tx, commit, modify, pure, request, ◌>>=◌, ◌>>◌}
use breero_com.Session.Keeps.{Keeps, Keeps-modify, keeps_rules}
use breero_com.Dispatch.{assign, assign_job, manual_assign}
use breero_com.Dispatch.Offers.{decide_offer, expire_due, get_offer}
use breero_com.Dispatch.Offers.Settled.{
  IsSettled, decide_offer-Keeps, expire-Keeps, get-append, settled_rules,
}
use breero_com.Dispatch.Matching.{
  add_offers, await_candidates, match_job, match_offers, match_to, offer_job, start_matching,
  store_offers,
}

pub data Command : Type 0 where
  decide : Context → ℕ → ℕ → Bool → Option ℕ → ℕ → Command
  expire : ℕ → Command
  match : Context → ℕ → Option ℕ → Command
  assign_by_hand : Context → ℕ → ℕ → ℕ → ℕ → Option String → Command

-- `expire_due` leaves the commit to its caller.
unfoldable pub serve : Command → Db → Db
serve (decide c offer_id vendor_id accept worker_id actor_id) db =
    (request (decide_offer c offer_id vendor_id accept worker_id actor_id) db).1
serve (expire now) db = (request (expire_due now >>= λ due. commit >> pure due) db).1
serve (match c job_id actor_id) db = (request (match_offers c job_id actor_id) db).1
serve (assign_by_hand c job_id vendor_id worker_id actor_id reason) db =
    (request (manual_assign c job_id vendor_id worker_id actor_id reason) db).1

unfoldable pub run : List Command → Db → Db
run [] db = db
run (command ∷ commands) db = run commands (serve command db)

module _ (k : ℕ) (o : DispatchOffer) (settled : (o.status == OfferStatus.pending) ≡ false) where
  add_offers-Keeps :
      (offers : List DispatchOffer) → Keeps (IsSettled k o) (modify (add_offers offers))
  add_offers-Keeps offers =
      Keeps-modify (add_offers offers)
        λ s h. record { saved = h.saved; live = get-append k o s.live.offers offers h.live }

  start-Keeps :
      (c : Context) (actor_id : Option ℕ) (j : Job)
      → Keeps (IsSettled k o) (start_matching c actor_id j)
  unfolding start_matching
  start-Keeps c actor_id j = search settled_rules depth 16

  store-Keeps : (offers : List DispatchOffer) → Keeps (IsSettled k o) (store_offers offers)
  unfolding store_offers
  store-Keeps offers = search settled_rules depth 16

  match_to-Keeps :
      (c : Context) (actor_id : Option ℕ) (j : Job) (round : ℕ) (candidates : List Worker)
      → Keeps (IsSettled k o) (match_to c actor_id j round candidates)
  unfolding match_to offer_job await_candidates
  match_to-Keeps c actor_id j round candidates =
      search (settled_rules, add_offers-Keeps, start-Keeps, store-Keeps) depth 24

  match_offers-Keeps :
      (c : Context) (job_id : ℕ) (actor_id : Option ℕ)
      → Keeps (IsSettled k o) (match_offers c job_id actor_id)
  unfolding match_offers match_job
  match_offers-Keeps c job_id actor_id = search (keeps_rules, match_to-Keeps) depth 24

  manual-Keeps :
      (c : Context) (job_id vendor_id worker_id actor_id : ℕ) (reason : Option String)
      → Keeps (IsSettled k o) (manual_assign c job_id vendor_id worker_id actor_id reason)
  unfolding manual_assign assign_job assign
  manual-Keeps c job_id vendor_id worker_id actor_id reason = search settled_rules depth 32

  expire_due-Keeps :
      (now : ℕ) → Keeps (IsSettled k o) (expire_due now >>= λ due. commit >> pure due)
  unfolding expire_due
  expire_due-Keeps now = search (settled_rules, expire-Keeps k o settled) depth 16

  after_request :
      {A : Type 0} (m : Tx Db A) (db : Db)
      → Keeps (IsSettled k o) m
      → get_offer k db ≡ some o
      → get_offer k (request m db).1 ≡ some o
  unfolding request
  after_request m db km h =
      (km.kept (record { saved = db; live = db }) (record { saved = h; live = h })).saved

  serve_settled :
      (command : Command) (db : Db)
      → get_offer k db ≡ some o
      → get_offer k (serve command db) ≡ some o
  unfolding serve
  serve_settled (decide c offer_id vendor_id accept worker_id actor_id) db =
      after_request _ db
        (decide_offer-Keeps k o settled c offer_id vendor_id accept worker_id actor_id)
  serve_settled (expire now) db = after_request _ db (expire_due-Keeps now)
  serve_settled (match c job_id actor_id) db =
      after_request _ db (match_offers-Keeps c job_id actor_id)
  serve_settled (assign_by_hand c job_id vendor_id worker_id actor_id reason) db =
      after_request _ db (manual-Keeps c job_id vendor_id worker_id actor_id reason)

-- An offer that is accepted, declined, expired or withdrawn is never changed again, whatever
-- commands of dispatch are served after it, by whom and when: each run of decisions, expiries,
-- matchings and manual assignments leaves its row as it was.
pub run-settled :
    (commands : List Command) (db : Db) (k : ℕ) (o : DispatchOffer)
    → get_offer k db ≡ some o
    → o.status ≢ OfferStatus.pending
    → get_offer k (run commands db) ≡ some o
unfolding run
run-settled [] db k o h answered = h
run-settled (command ∷ commands) db k o h answered =
    run-settled commands (serve command db) k o
      (serve_settled k o (ground (arith, offer_status_eq.equal_iff o.status OfferStatus.pending))
        command db h)
      answered
