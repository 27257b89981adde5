-- ===== src/Dispatch/Offers/Settled.antt =====
-- apps/api/app/domains/dispatch/service.py: what the writes of dispatch, and `decide_offer`, do to an
-- offer that is not pending.
use breero_com.Prelude.{
  Bool, Bool-cases, List, Option, String, [], arith, eqb, eqb_iff, false, find-append, get, get-put,
  get_key, inl, inr, leb, nat_eq, none, option_eq, refl, some, string_eq, true, update, ℕ, ◌++◌,
  ◌==◌, ◌∷◌, ◌≡◌,
}
use breero_com.Models.{
  Assignment, Booking, Db, DispatchOffer, Job, JobEvent, JobStatus, OfferStatus, job_status_eq,
  offer_status_eq,
}
use breero_com.Errors.{offer_not_found, offer_not_pending, offer_of_other_vendor}
use breero_com.Context.{Context, record_audit}
use breero_com.Session.{Session, commit, modify, ◌>>=◌}
use breero_com.Session.Keeps.{Keeps, Keeps-bind, Keeps-guard, Keeps-if, Keeps-modify, keeps_rules}
use breero_com.Session.Rules.{after_require}
use breero_com.Jobs.{Actor, apply_transition, log_transition, put_job}
use breero_com.Jobs.Keeps.{apply_transition-Keeps}
use breero_com.Payments.{put_booking}
use breero_com.Dispatch.{add_assignment, confirm_slot}
use breero_com.Dispatch.Offers.{
  accept_checked, accept_for_job, accept_offer, answer_offer, audit_assignment, confirm_held_slot,
  decide_found, decide_offer, decline_offer, expire_offer, expire_offers, get_offer, is_due,
  is_rival, offer_id_of, put_offer, responded, with_status, withdraw_rivals,
}

-- The specification: an offer that has been answered is a constant.
pub record IsSettled (k : ℕ) (o : DispatchOffer) (s : Session Db) : Type 0 where
  pub saved : get_offer k s.saved ≡ some o
  pub live : get_offer k s.live ≡ some o

pub get-append :
    (k : ℕ) (o : DispatchOffer) (xs ys : List DispatchOffer)
    → get offer_id_of k xs ≡ some o
    → get offer_id_of k (xs ++ ys) ≡ some o
get-append k o xs ys h = rw (find-append (λ r. r.id == k) xs ys, h) refl

-- An update of pending offers passes an offer by that is not pending.
get-update :
    (k : ℕ) (o : DispatchOffer) (p : DispatchOffer → Bool) (status : OfferStatus)
    (rows : List DispatchOffer)
    → get offer_id_of k rows ≡ some o
    → p o ≡ false
    → get offer_id_of k (update p (with_status status) rows) ≡ some o
get-update k o p status [] h other = cc
get-update k o p status (r ∷ rows) h other = ground (arith, get-update k o p status rows)

module _ (k : ℕ) (o : DispatchOffer) (settled : (o.status == OfferStatus.pending) ≡ false) where
  pub commit-Keeps : Keeps (IsSettled k o) commit
  unfolding ◌>>=◌
  commit-Keeps = record { kept = λ s h. record { saved = h.live; live = h.live } }

  -- A write beside the offers.
  beside-Keeps :
      (f : Db → Db) → ((db : Db) → (f db).offers ≡ db.offers) → Keeps (IsSettled k o) (modify f)
  beside-Keeps f same =
      Keeps-modify f λ s h. record { saved = h.saved; live = rw (same s.live) h.live }

  pub put_offer-Keeps :
      (x : DispatchOffer) → eqb x.id k ≡ false → Keeps (IsSettled k o) (modify (put_offer x))
  put_offer-Keeps x other = Keeps-modify (put_offer x) λ s h. record {
    saved = h.saved;
    live = rw (get-put offer_id_of x k s.live.offers, other) h.live;
  }

  pub expire-Keeps : (now : ℕ) → Keeps (IsSettled k o) (modify (expire_offers now))
  unfolding expire_offers
  expire-Keeps now = Keeps-modify (expire_offers now) λ s h. record {
    saved = h.saved;
    live =
        get-update k o (is_due now) OfferStatus.expired s.live.offers h.live
          (ground (arith, settled));
  }

  pub withdraw-Keeps :
      (job_id offer_id : ℕ) → Keeps (IsSettled k o) (modify (withdraw_rivals job_id offer_id))
  unfolding withdraw_rivals
  withdraw-Keeps job_id offer_id = Keeps-modify (withdraw_rivals job_id offer_id) λ s h. record {
    saved = h.saved;
    live =
        get-update k o (is_rival job_id offer_id) OfferStatus.withdrawn s.live.offers h.live
          (ground (arith, settled));
  }

  log-Keeps : (event : JobEvent) (j : Job) → Keeps (IsSettled k o) (modify (log_transition event j))
  unfolding log_transition
  log-Keeps event j = beside-Keeps (log_transition event j) λ db. refl

  pub put_job-Keeps : (j : Job) → Keeps (IsSettled k o) (modify (put_job j))
  put_job-Keeps j = beside-Keeps (put_job j) λ db. refl

  put_booking-Keeps : (b : Booking) → Keeps (IsSettled k o) (modify (put_booking b))
  put_booking-Keeps b = beside-Keeps (put_booking b) λ db. refl

  pub assignment-Keeps : (a : Assignment) → Keeps (IsSettled k o) (modify (add_assignment a))
  assignment-Keeps a = beside-Keeps (add_assignment a) λ db. refl

  pub audit-Keeps :
      (c : Context) (actor_id : Option ℕ) (action resource : String) (id : ℕ)
      (metadata : List (String × String))
      → Keeps (IsSettled k o) (modify (record_audit c actor_id action resource id metadata))
  audit-Keeps c actor_id action resource id metadata =
      beside-Keeps (record_audit c actor_id action resource id metadata) λ db. refl

  pub move-Keeps :
      (c : Context) (j : Job) (target : JobStatus) (actor : Actor)
      → Keeps (IsSettled k o) (apply_transition c j target actor)
  move-Keeps = apply_transition-Keeps log-Keeps

  pub audit_assignment-Keeps :
      (c : Context) (j : Job) (vendor_id worker_id actor_id : ℕ)
      → Keeps (IsSettled k o) (modify (audit_assignment c j vendor_id worker_id actor_id))
  unfolding audit_assignment
  audit_assignment-Keeps c j vendor_id worker_id actor_id =
      audit-Keeps c (some actor_id) "assignment.create" "job" j.id _

  pub slot-Keeps :
      (worker_id : ℕ) (b : Option Booking) → Keeps (IsSettled k o) (confirm_held_slot worker_id b)
  unfolding confirm_held_slot
  slot-Keeps worker_id none = search keeps_rules
  slot-Keeps worker_id (some b) = search (keeps_rules, put_booking-Keeps)

  pub manual_slot-Keeps : (b : Option Booking) → Keeps (IsSettled k o) (confirm_slot b)
  unfolding confirm_slot
  manual_slot-Keeps none = search keeps_rules
  manual_slot-Keeps (some b) = search (keeps_rules, put_booking-Keeps)

  pub ruleset settled_rules = (
    keeps_rules, commit-Keeps, put_offer-Keeps, withdraw-Keeps, put_job-Keeps, assignment-Keeps,
    audit_assignment-Keeps, audit-Keeps, move-Keeps, slot-Keeps, manual_slot-Keeps,
  )

  module _ (x : DispatchOffer) (other : eqb x.id k ≡ false) where
    stored-Keeps :
        (status : OfferStatus) → Keeps (IsSettled k o) (modify (put_offer (with_status status x)))
    stored-Keeps status = put_offer-Keeps (with_status status x) other

    accept_checked-Keeps :
        (c : Context) (j : Job) (b : Option Booking) (vendor_id worker_id actor_id : ℕ)
        → Keeps (IsSettled k o) (accept_checked c x j b vendor_id worker_id actor_id)
    unfolding accept_checked
    accept_checked-Keeps c j b vendor_id worker_id actor_id =
        search (settled_rules, stored-Keeps) depth 24

    accept_for_job-Keeps :
        (c : Context) (vendor_id worker_id actor_id : ℕ) (j : Job)
        → Keeps (IsSettled k o) (accept_for_job c x vendor_id worker_id actor_id j)
    unfolding accept_for_job
    accept_for_job-Keeps c vendor_id worker_id actor_id j =
        search (keeps_rules, accept_checked-Keeps) depth 16

    accept_offer-Keeps :
        (c : Context) (vendor_id : ℕ) (worker_id : Option ℕ) (actor_id : ℕ)
        → Keeps (IsSettled k o) (accept_offer c vendor_id worker_id actor_id x)
    unfolding accept_offer
    accept_offer-Keeps c vendor_id worker_id actor_id =
        search (keeps_rules, accept_for_job-Keeps) depth 16

    decline_offer-Keeps : Keeps (IsSettled k o) (decline_offer x)
    unfolding decline_offer
    decline_offer-Keeps = search (settled_rules, stored-Keeps) depth 16

    expire_offer-Keeps : Keeps (IsSettled k o) (expire_offer x)
    unfolding expire_offer
    expire_offer-Keeps = search (settled_rules, stored-Keeps) depth 16

  answer_offer-Keeps :
      (c : Context) (vendor_id : ℕ) (accept : Bool) (worker_id : Option ℕ) (actor_id : ℕ)
      (x : DispatchOffer)
      → eqb x.id k ≡ false
      → Keeps (IsSettled k o) (answer_offer c vendor_id accept worker_id actor_id x)
  unfolding answer_offer
  answer_offer-Keeps c vendor_id accept worker_id actor_id x other =
      Keeps-bind _ _ (put_offer-Keeps (responded c.now x) other) λ u.
        Keeps-if accept _ _
          (accept_offer-Keeps (responded c.now x) other c vendor_id worker_id actor_id)
          (decline_offer-Keeps (responded c.now x) other)

  other_found-Keeps :
      (c : Context) (vendor_id : ℕ) (accept : Bool) (worker_id : Option ℕ) (actor_id : ℕ)
      (x : DispatchOffer)
      → eqb x.id k ≡ false
      → Keeps (IsSettled k o) (decide_found c vendor_id accept worker_id actor_id x)
  unfolding decide_found
  other_found-Keeps c vendor_id accept worker_id actor_id x other =
      Keeps-bind _ _ (Keeps-guard (x.vendor_id == vendor_id) offer_of_other_vendor) λ u.
        Keeps-bind _ _ (Keeps-guard (x.status == OfferStatus.pending) offer_not_pending) λ v.
          Keeps-if (leb x.expires_at c.now) _ _ (expire_offer-Keeps x other)
            (answer_offer-Keeps c vendor_id accept worker_id actor_id x other)

  refused :
      (c : Context) (vendor_id : ℕ) (accept : Bool) (worker_id : Option ℕ) (actor_id : ℕ)
      (x : DispatchOffer) (s : Session Db)
      → (x.status == OfferStatus.pending) ≡ false
      → (decide_found c vendor_id accept worker_id actor_id x s).1 ≡ s
  unfolding decide_found ◌>>=◌
  refused c vendor_id accept worker_id actor_id x s answered = ground arith

  same_offer :
      (x : DispatchOffer) (j : ℕ) (rows : List DispatchOffer)
      → get offer_id_of j rows ≡ some x
      → get offer_id_of k rows ≡ some o
      → eqb x.id k ≡ true
      → x ≡ o
  same_offer x j rows found is_o same =
      ground (arith, get_key offer_id_of j rows x found, eqb_iff x.id k)

  -- The offer that a vendor answers is another one, since this one is not pending.
  found-Keeps :
      (c : Context) (vendor_id : ℕ) (accept : Bool) (worker_id : Option ℕ) (actor_id j : ℕ)
      (x : DispatchOffer) (s : Session Db)
      → IsSettled k o s
      → get_offer j s.live ≡ some x
      → IsSettled k o (decide_found c vendor_id accept worker_id actor_id x s).1
  found-Keeps c vendor_id accept worker_id actor_id j x s h found = elim (Bool-cases (eqb x.id k)) [
    | inl same ↦
        let e : x ≡ o = same_offer x j s.live.offers found h.live same in
        rw (refused c vendor_id accept worker_id actor_id x s (rw e settled)) h
    | inr other ↦ (other_found-Keeps c vendor_id accept worker_id actor_id x other).kept s h
  ]

  pub decide_offer-Keeps :
      (c : Context) (offer_id vendor_id : ℕ) (accept : Bool) (worker_id : Option ℕ) (actor_id : ℕ)
      → Keeps (IsSettled k o) (decide_offer c offer_id vendor_id accept worker_id actor_id)
  unfolding decide_offer ◌>>=◌
  decide_offer-Keeps c offer_id vendor_id accept worker_id actor_id = record {
    kept = λ s h.
        after_require (λ r. IsSettled k o r.1) (get_offer offer_id s.live) offer_not_found
          (decide_found c vendor_id accept worker_id actor_id) s h
          (λ x found. found-Keeps c vendor_id accept worker_id actor_id offer_id x s h found);
  }
