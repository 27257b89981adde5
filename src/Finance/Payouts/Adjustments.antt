-- ===== src/Finance/Payouts/Adjustments.antt =====
-- apps/api/app/domains/finance/service.py: `adjust_earning` and the batch of the earning.
use breero_com.Prelude.{
  List, [], ap, arith, get, get_key, none, put, refl, some, true, ℕ, ◌∙◌, ◌∷◌, ◌≡◌,
}
use breero_com.Prelude.Int.{int_laws, neg_part, pos_part, ℤ, ◌+ℤ◌}
use breero_com.Models.{AdjustmentType, Db, EarningAdjustment, VendorEarning, payable_minor}
use breero_com.Context.{Context}
use breero_com.Session.{request, returned, ◌>>=◌}
use breero_com.Finance.Payouts.{
  adjust_earning, adjust_row, adjusted, earning_id_of, find_adjustment, total_payable,
}
use breero_com.Finance.Payouts.Batches.{batch_total, of_batch}

swap_ends : (a b c : ℤ) → a +ℤ b +ℤ c ≡ c +ℤ b +ℤ a
swap_ends a b c = omega int_laws

under_head : (h a b c d : ℤ) → a +ℤ b ≡ c +ℤ d → h +ℤ a +ℤ b ≡ h +ℤ c +ℤ d
under_head h a b c d e = omega (int_laws, ap pos_part e, ap neg_part e)

total-put :
    (id : ℕ) (row old : VendorEarning) (es : List VendorEarning)
    → get earning_id_of row.id es ≡ some old
    → of_batch id row ≡ true
    → of_batch id old ≡ true
    → batch_total id (put earning_id_of row es) +ℤ payable_minor old
      ≡ batch_total id es +ℤ payable_minor row
unfolding total_payable
total-put id row old [] found p q = cc
total-put id row old (e ∷ es) found p q = ground (
  arith,
  total-put id row old es,
  swap_ends (payable_minor row) (batch_total id es) (payable_minor old),
  under_head (payable_minor e) (batch_total id (put earning_id_of row es)) (payable_minor old)
      (batch_total id es) (payable_minor row),
)

payable-adjusted :
    (e : VendorEarning) (amount : ℤ) (t : AdjustmentType)
    → payable_minor (adjusted e amount t) ≡ payable_minor e +ℤ amount
unfolding adjusted
payable-adjusted e amount t = omega int_laws

cancel : (x y p a : ℤ) → x +ℤ p ≡ y +ℤ (p +ℤ a) → x ≡ y +ℤ a
cancel x y p a e = omega (int_laws, ap pos_part e, ap neg_part e)

adjusted_in_batch :
    (id : ℕ) (e : VendorEarning) (amount : ℤ) (t : AdjustmentType)
    → of_batch id (adjusted e amount t) ≡ of_batch id e
unfolding adjusted
adjusted_in_batch id e amount t = refl

adjusted_id :
    (e : VendorEarning) (amount : ℤ) (t : AdjustmentType) → (adjusted e amount t).id ≡ e.id
unfolding adjusted
adjusted_id e amount t = refl

total_adjusted :
    (id : ℕ) (e : VendorEarning) (amount : ℤ) (t : AdjustmentType) (es : List VendorEarning)
    → get earning_id_of e.id es ≡ some e
    → of_batch id e ≡ true
    → batch_total id (put earning_id_of (adjusted e amount t) es) ≡ batch_total id es +ℤ amount
total_adjusted id e amount t es found p = cancel _ (batch_total id es) (payable_minor e) amount (
    total-put id (adjusted e amount t) e es (rw (adjusted_id e amount t) found)
      (adjusted_in_batch id e amount t ∙ p) p
    ∙ ap (λ x. batch_total id es +ℤ x) (payable-adjusted e amount t))

module _ (c : Context) (a : EarningAdjustment) (db : Db) (e : VendorEarning) (id : ℕ)
    (found : get earning_id_of a.earning_id db.earnings ≡ some e)
    (new : find_adjustment a.earning_id a.idempotency_key db ≡ none)
    (batched : e.payout_batch_id ≡ some id) where
  -- A new adjustment of an earning that is already in a payout batch goes through: what the earnings
  -- of the batch come to moves by its amount, and every batch keeps the total that it was created
  -- with.
  pub adjust_batched_stale :
      let db' = (request (adjust_earning c a) db).1 in
      (returned (request (adjust_earning c a) db) ≡ some a)
      × (batch_total id db'.earnings ≡ batch_total id db.earnings +ℤ a.amount_minor)
      × (db'.batches ≡ db.batches)
  unfolding adjust_earning adjust_row request ◌>>=◌
  adjust_batched_stale =
      let key : e.id ≡ a.earning_id = get_key earning_id_of a.earning_id db.earnings e found in
      ground (
        arith,
        new,
        total_adjusted id e a.amount_minor a.adjustment_type db.earnings (simp key found)
            (ground arith),
      )
