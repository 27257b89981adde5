-- ===== src/Leads/Resale.antt =====
-- apps/api/app/domains/professional_leads/service.py and payments/service.py: a lead whose payment
-- failed.
use breero_com.Prelude.{
  Bool, List, String, [], any, arith, eqb_iff, false, find, get, get-put, get_key, none, put, refl,
  some, sym, true, ℕ, ◌∙◌, ◌∷◌, ◌≡◌,
}
use breero_com.Models.{
  Db, LeadPurchase, LeadPurchaseStatus, LeadStatus, Payment, PaymentPurpose, ProfessionalLead,
  Vendor, VendorStatus,
}
use breero_com.Errors.{lead_sold_before}
use breero_com.Context.{Context}
use breero_com.Session.{commit, err, request, ◌>>=◌}
use breero_com.Payments.{
  PaymentProvider, lead_id_of, purchase_id_of, purchase_of, put_lead, put_purchase,
}
use breero_com.Payments.Settle.{release_failed_lead_purchase}
use breero_com.Payments.Settle.Release.{release_runs}
use breero_com.Leads.Sales.{
  buy_lead, get_lead, get_vendor, has_expired, is_eligible, is_keyed, is_on_sale, is_purchase_of,
  purchase,
}
use breero_com.Leads.Purchases.{purchase_runs}

any-put :
    (t : LeadPurchase → Bool) (row old : LeadPurchase) (rows : List LeadPurchase)
    → get purchase_id_of row.id rows ≡ some old
    → t row ≡ true
    → any t (put purchase_id_of row rows) ≡ true
any-put t row old [] found h = absurd (cc)
any-put t row old (r ∷ rows) found h = ground (arith, any-put t row old rows)

abbrev failed_purchase : LeadPurchase → LeadPurchase
failed_purchase q = record q { status = LeadPurchaseStatus.failed }

abbrev pub lead_on_sale_again : ProfessionalLead → ProfessionalLead
lead_on_sale_again l = record l { status = LeadStatus.available; purchased_by_vendor_id = none }

-- What the failure of a payment leaves, once it is committed.
abbrev pub after_failure : Payment → Db → Db
after_failure p db = (request (release_failed_lead_purchase p >>= λ _. commit) db).1

module _ (p : Payment) (q : LeadPurchase) (l : ProfessionalLead) (db : Db)
    (purpose : p.payment_purpose ≡ PaymentPurpose.professional_lead)
    (bought : purchase_of p db ≡ some q)
    (stored : get purchase_id_of q.id db.lead_purchases ≡ some q)
    (found : get_lead q.lead_id db ≡ some l) (at : l.status ≡ LeadStatus.reserved) where
  failure_leaves :
      after_failure p db ≡ put_lead (lead_on_sale_again l) (put_purchase (failed_purchase q) db)
  unfolding request ◌>>=◌
  failure_leaves =
      rw
        (
          release_runs p q l (record { saved = db; live = db }) purpose bought found at,
          after_failure,
        )
        refl

  -- A lead whose payment failed is on sale again, and yet it can never be sold: whatever vendor buys
  -- it, with whatever new key, the new purchase breaks the unique index on the lead of a purchase,
  -- and the request raises that error, which nothing handles, and changes nothing.
  pub resale-refused :
      (c : Context) (provider : PaymentProvider) (vendor_id : ℕ) (key : String) (v : Vendor)
      → c.stripe_enabled ≡ true
      → get_vendor vendor_id db ≡ some v
      → v.status ≡ VendorStatus.active
      → find (is_keyed vendor_id key) (after_failure p db).lead_purchases ≡ none
      → has_expired c.now l.expires_at ≡ false
      → is_eligible v l ≡ true
      → (get_lead q.lead_id (after_failure p db) ≡ some (lead_on_sale_again l))
        × (is_on_sale c.now (lead_on_sale_again l) ≡ true)
        × (request (purchase c (some provider) q.lead_id vendor_id key) (after_failure p db)
            ≡ (err lead_sold_before, after_failure p db))
  unfolding buy_lead ◌>>=◌
  resale-refused c provider vendor_id key v enabled vendor active fresh current eligible =
      let d = put_lead (lead_on_sale_again l) (put_purchase (failed_purchase q) db) in
      let key_of : l.id ≡ q.lead_id = get_key lead_id_of q.lead_id db.leads l found in
      let again : get_lead q.lead_id d ≡ some (lead_on_sale_again l) =
        ground (arith, get-put lead_id_of (lead_on_sale_again l) q.lead_id db.leads) in
      let sale : is_on_sale c.now (lead_on_sale_again l) ≡ true = rw current refl in
      let sold : any (is_purchase_of l.id) d.lead_purchases ≡ true =
        any-put (is_purchase_of l.id) (failed_purchase q) q db.lead_purchases stored
          ((eqb_iff q.lead_id l.id).1 (sym key_of)) in
      (
        rw failure_leaves again,
        sale,
        rw failure_leaves (
            purchase_runs c provider q.lead_id vendor_id key d v (lead_on_sale_again l) enabled
              vendor active (rw failure_leaves at fresh) again sale eligible
            ∙ rw sold refl),
      )
