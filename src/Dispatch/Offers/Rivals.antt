-- ===== src/Dispatch/Offers/Rivals.antt =====
-- apps/api/app/domains/dispatch/service.py: the offers of a job when one of them is accepted and the
-- others are withdrawn.
use breero_com.Prelude.{
  Bool, List, Option-cases, [], arith, false, get, get-put, get_key, if◌then◌else◌, inl, inr,
  nat_eq, none, put, refl, some, update, ℕ, ◌==◌, ◌∷◌, ◌≡◌,
}
use breero_com.Models.{DispatchOffer, OfferStatus, offer_status_eq}
use breero_com.Dispatch.Offers.{is_rival, offer_id_of, with_status}

-- What an update leaves of the row under a key.
get-update_lem :
    (k : ℕ) (p : DispatchOffer → Bool) (status : OfferStatus) (rows : List DispatchOffer)
    → get offer_id_of k (update p (with_status status) rows) ≡ elim (get offer_id_of k rows) [
      | none ↦ none
      | some r ↦ some (if p r then with_status status r else r)
    ]
get-update_lem k p status [] = refl
get-update_lem k p status (r ∷ rows) = ground (arith, get-update_lem k p status rows)

-- After the rivals are withdrawn, an offer of the job is the one that was accepted, or not pending.
pub none_pending :
    (k j i : ℕ) (o x : DispatchOffer) (rows : List DispatchOffer)
    → get offer_id_of i rows ≡ some o
    → o.id ≡ i
    → (o.status == OfferStatus.pending) ≡ false
    → get offer_id_of k (update (is_rival j o.id) (with_status OfferStatus.withdrawn) rows) ≡ some x
    → x.job_id ≡ j
    → (x.status == OfferStatus.pending) ≡ false
none_pending k j i o x rows here key answered found of_job =
    let e = get-update_lem k (is_rival j o.id) OfferStatus.withdrawn rows in
    elim (Option-cases (get offer_id_of k rows)) [
      | inl missing ↦ ground (arith, e)
      | inr (r, at) ↦ ground (
        arith,
        e,
        get_key offer_id_of k rows r at,
        nat_eq.equal_iff r.job_id j,
        nat_eq.equal_iff r.id o.id,
      )
    ]

pub offer_twice :
    (a b o : DispatchOffer) (k : ℕ) (rows : List DispatchOffer)
    → get offer_id_of k rows ≡ some o
    → a.id ≡ k
    → b.id ≡ k
    → get offer_id_of k (put offer_id_of b (put offer_id_of a rows)) ≡ some b
offer_twice a b o k rows found same_a same_b =
    ground (arith, get-put offer_id_of a k rows, get-put offer_id_of b k (put offer_id_of a rows))

-- The accepted offer is no rival of itself.
pub accepted_kept :
    (k j : ℕ) (o : DispatchOffer) (rows : List DispatchOffer)
    → get offer_id_of k rows ≡ some o
    → get offer_id_of k (update (is_rival j o.id) (with_status OfferStatus.withdrawn) rows) ≡ some o
accepted_kept k j o rows found = ground (
  arith,
  get-update_lem k (is_rival j o.id) OfferStatus.withdrawn rows,
  nat_eq.equal_iff o.id o.id,
)
