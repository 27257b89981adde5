-- ===== src/Finance/Payouts/Batches.antt =====
-- apps/api/app/domains/finance/service.py, `create_batch`: the batch and its earnings.
use breero_com.Prelude.{
  Bool, Bool-cases, List, Option, String, [], arith, false, inl, inr, length, nat_eq, option_eq,
  refl, select, some, string_eq, update, ℕ, ◌==◌, ◌∷◌, ◌≡◌,
}
use breero_com.Prelude.Int.{ℤ}
use breero_com.Models.{Db, PayoutBatch, PayoutStatus, VendorEarning, payout_status_eq}
use breero_com.Context.{Context}
use breero_com.Session.{request, returned, ◌>>=◌}
use breero_com.Finance.Payouts.{
  batch_up, create_batch, in_batch, is_payable, new_batch, total_payable,
}

abbrev pub of_batch : ℕ → VendorEarning → Bool
of_batch batch_id e = e.payout_batch_id == some batch_id

-- The earnings of a batch, by the column of the table.
abbrev pub batch_total : ℕ → List VendorEarning → ℤ
batch_total batch_id es = total_payable (select (of_batch batch_id) es)

batched_total :
    (p : VendorEarning → Bool) (id : ℕ) (es : List VendorEarning)
    → select (of_batch id) es ≡ []
    → batch_total id (update p (in_batch id) es) ≡ total_payable (select p es)
unfolding total_payable in_batch
batched_total p id [] fresh = refl
batched_total p id (e ∷ es) fresh = ground (arith, batched_total p id es)

batched_count :
    (p : VendorEarning → Bool) (id : ℕ) (es : List VendorEarning)
    → select (of_batch id) es ≡ []
    → length (select (of_batch id) (update p (in_batch id) es)) ≡ length (select p es)
unfolding in_batch
batched_count p id [] fresh = refl
batched_count p id (e ∷ es) fresh = ground (arith, batched_count p id es)

in_batch_unpayable :
    (c : Context) (locked : ℕ → Bool) (currency : String) (vendor_id : Option ℕ) (id : ℕ)
    (e : VendorEarning)
    → is_payable c locked currency vendor_id (in_batch id e) ≡ false
unfolding is_payable in_batch
in_batch_unpayable c locked currency vendor_id id e = refl

batched_unpayable :
    (c : Context) (locked : ℕ → Bool) (currency : String) (vendor_id : Option ℕ) (id : ℕ)
    (es : List VendorEarning)
    → select
        (is_payable c locked currency vendor_id)
        (update (is_payable c locked currency vendor_id) (in_batch id) es)
      ≡ []
batched_unpayable c locked currency vendor_id id [] = refl
batched_unpayable c locked currency vendor_id id (e ∷ es) =
    elim (Bool-cases (is_payable c locked currency vendor_id e)) [
      | inl taken ↦
          rw (taken, in_batch_unpayable c locked currency vendor_id id e)
            (batched_unpayable c locked currency vendor_id id es)
      | inr left ↦ rw (left, left) (batched_unpayable c locked currency vendor_id id es)
    ]

module _ (c : Context) (locked : ℕ → Bool) (currency : String) (vendor_id actor_id : Option ℕ)
    (db : Db) (b : PayoutBatch) where
  -- A batch that is created under a fresh identifier awaits approval; the earnings that now name it
  -- are as many as it says and add up to its total, and no earning that it could have taken is left
  -- to be paid by another batch.
  pub create_batch_pays :
      select (of_batch (c.uuid 1)) db.earnings ≡ []
      → returned (request (create_batch c locked currency vendor_id actor_id) db) ≡ some b
      → let db' = (request (create_batch c locked currency vendor_id actor_id) db).1 in
        (b.status ≡ PayoutStatus.pending_approval)
        × (batch_total b.id db'.earnings ≡ b.total_minor)
        × (length (select (of_batch b.id) db'.earnings) ≡ b.earning_count)
        × (select (is_payable c locked currency vendor_id) db'.earnings ≡ [])
  unfolding create_batch request new_batch batch_up ◌>>=◌
  create_batch_pays fresh h = ground (
    arith,
    batched_total (is_payable c locked currency vendor_id) (c.uuid 1) db.earnings fresh,
    batched_count (is_payable c locked currency vendor_id) (c.uuid 1) db.earnings fresh,
    batched_unpayable c locked currency vendor_id (c.uuid 1) db.earnings,
  )
