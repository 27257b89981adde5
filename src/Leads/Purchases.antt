-- ===== src/Leads/Purchases.antt =====
-- apps/api/app/domains/professional_leads/service.py: a purchase that is made, with the payment that
-- payments/service.py opens for it.
use breero_com.Prelude.{
  String, [], add, any, ap, arith, concat, false, find, get-put, get_key, nat_eq, none, option_eq,
  refl, some, true, ℕ, ◌++◌, ◌==◌, ◌∙◌, ◌∷◌, ◌≡◌,
}
use breero_com.Models.{
  Db, LeadPurchase, LeadStatus, ProfessionalLead, Vendor, VendorStatus, lead_status_eq,
  vendor_status_eq, LeadPurchaseStatus, Payment, PaymentPurpose,
}
use breero_com.Context.{Context}
use breero_com.Session.{ok, request, returned, ◌>>=◌}
use breero_com.Payments.{PaymentProvider, ProviderIntent, add_payment, lead_id_of, put_lead}
use breero_com.Payments.Intents.{
  create_professional_lead_intent, lead_metadata, new_lead_payment, open_lead_intent,
}
use breero_com.Leads.Sales.{
  add_purchase, buy_lead, get_lead, get_vendor, has_expired, is_eligible, is_keyed, is_on_sale,
  is_purchase_of, new_purchase, pay_purchase, purchase, purchase_new, purchase_or_existing,
  reserved_for, view, PurchaseView,
}

-- The lead is reserved for the vendor by a purchase that waits for its payment, which is over the
-- price of the lead.
pub record IsSale (l : ProfessionalLead) (vendor_id : ℕ) (q : LeadPurchase) (p : Payment)
    (l' : ProfessionalLead) : Type 0 where
  of_lead : q.lead_id ≡ l.id
  by_vendor : q.vendor_id ≡ vendor_id
  price_minor : q.price_minor ≡ l.price_minor
  unpaid : q.status ≡ LeadPurchaseStatus.pending_payment
  of_purchase : p.lead_purchase_id ≡ some q.id
  purpose : p.payment_purpose ≡ PaymentPurpose.professional_lead
  amount_minor : p.amount_minor ≡ l.price_minor
  reserved : l'.status ≡ LeadStatus.reserved
  reserved_for_vendor : l'.purchased_by_vendor_id ≡ some vendor_id
  same_price : l'.price_minor ≡ l.price_minor

-- What is answered is of the purchase and its payment.
pub record IsAnswer (q : LeadPurchase) (p : Payment) (x : PurchaseView) : Type 0 where
  id : x.id ≡ q.id
  payment_id : x.payment_id ≡ p.id
  price_minor : x.price_minor ≡ q.price_minor
  status : x.status ≡ q.status
  payment_status : x.payment_status ≡ p.status
  client_secret : x.client_secret ≡ p.provider_client_secret

view-IsAnswer : (q : LeadPurchase) (p : Payment) → IsAnswer q p (view q p)
view-IsAnswer q p = record {
  id = refl;
  payment_id = refl;
  price_minor = refl;
  status = refl;
  payment_status = refl;
  client_secret = refl;
}

new_purchase-IsSale :
    (c : Context) (l : ProfessionalLead) (vendor_id : ℕ) (key : String) (intent : ProviderIntent)
    → let q = new_purchase c l vendor_id key in
      IsSale l vendor_id q
        (new_lead_payment c q.id l.price_minor l.currency
          (lead_metadata c q.id l.id vendor_id)
          intent)
        (reserved_for vendor_id l)
unfolding new_purchase new_lead_payment
new_purchase-IsSale c l vendor_id key intent = record {
  of_lead = refl;
  by_vendor = refl;
  price_minor = refl;
  unpaid = refl;
  of_purchase = refl;
  purpose = refl;
  amount_minor = refl;
  reserved = refl;
  reserved_for_vendor = refl;
  same_price = refl;
}

module _ (c : Context) (provider : PaymentProvider) (lead_id vendor_id : ℕ) (key : String) (db : Db)
    (v : Vendor) (l : ProfessionalLead) (enabled : c.stripe_enabled ≡ true)
    (vendor : get_vendor vendor_id db ≡ some v) (active : v.status ≡ VendorStatus.active)
    (fresh : find (is_keyed vendor_id key) db.lead_purchases ≡ none)
    (found : get_lead lead_id db ≡ some l) (on_sale : is_on_sale c.now l ≡ true)
    (eligible : is_eligible v l ≡ true) where
  active' : (v.status == VendorStatus.active) ≡ true
  active' = (vendor_status_eq.equal_iff v.status VendorStatus.active).1 active

  available' : (l.status == LeadStatus.available) ≡ true
  available' = ground arith

  current' : has_expired c.now l.expires_at ≡ false
  current' = ground arith

  abbrev bought : LeadPurchase
  bought = new_purchase c l vendor_id key

  -- All the guards of a first request passed.
  pub purchase_runs :
      let r = buy_lead c provider l vendor_id key (record { saved = db; live = db }) in
      request (purchase c (some provider) lead_id vendor_id key) db ≡ (r.0, r.1.saved)
  unfolding purchase purchase_or_existing purchase_new request ◌>>=◌
  purchase_runs = rw (enabled, vendor, active', fresh, found, available', current', eligible) refl

  buy_runs :
      (intent : ProviderIntent)
      → any (is_purchase_of l.id) db.lead_purchases ≡ false
      → find (λ p. p.lead_purchase_id == some bought.id) db.payments ≡ none
      → provider.create_intent l.price_minor l.currency "automatic"
          (lead_metadata c bought.id l.id vendor_id ++ ("purpose", "PROFESSIONAL_LEAD") ∷ [])
          (concat "professional-lead:" key)
        ≡ ok intent
      → let p =
          new_lead_payment c bought.id l.price_minor l.currency
            (lead_metadata c bought.id l.id vendor_id)
            intent in
        let d = put_lead (reserved_for vendor_id l) (add_payment p (add_purchase bought db)) in
        buy_lead c provider l vendor_id key (record { saved = db; live = db })
        ≡ (ok (view bought p), record { saved = d; live = d })
  unfolding buy_lead pay_purchase create_professional_lead_intent open_lead_intent ◌>>=◌
  buy_runs intent unsold unpaid intent_made = rw (unsold, unpaid, intent_made) refl

  -- A vendor who takes part, may have the lead and buys it for the first time, while it is on sale and
  -- was never sold, gets it reserved for him: one purchase of it by him is added, with the price of
  -- the lead and waiting for its payment, and one payment, which is for that purchase and over that
  -- price; the answer is of the two. The provider opened the intent, and the new purchase has no
  -- payment yet.
  pub purchase-reserves :
      (intent : ProviderIntent)
      → any (is_purchase_of l.id) db.lead_purchases ≡ false
      → find (λ p. p.lead_purchase_id == some bought.id) db.payments ≡ none
      → provider.create_intent l.price_minor l.currency "automatic"
          (lead_metadata c bought.id l.id vendor_id ++ ("purpose", "PROFESSIONAL_LEAD") ∷ [])
          (concat "professional-lead:" key)
        ≡ ok intent
      → let r = request (purchase c (some provider) lead_id vendor_id key) db in
        (q : LeadPurchase) × (p : Payment) × (l' : ProfessionalLead) × (x : PurchaseView)
        × (returned r ≡ some x)
        × (r.1.lead_purchases ≡ add q db.lead_purchases)
        × (r.1.payments ≡ add p db.payments)
        × (get_lead lead_id r.1 ≡ some l')
        × IsSale l vendor_id q p l'
        × IsAnswer q p x
  purchase-reserves intent unsold unpaid intent_made =
      let p =
        new_lead_payment c bought.id l.price_minor l.currency
          (lead_metadata c bought.id l.id vendor_id) intent in
      let d = put_lead (reserved_for vendor_id l) (add_payment p (add_purchase bought db)) in
      let run : request (purchase c (some provider) lead_id vendor_id key) db
          ≡ (ok (view bought p), d) =
        purchase_runs ∙ ap (λ t. (t.0, t.1.saved)) (buy_runs intent unsold unpaid intent_made) in
      let same : (reserved_for vendor_id l).id ≡ lead_id =
        get_key lead_id_of lead_id db.leads l found in
      (
        bought,
        p,
        reserved_for vendor_id l,
        view bought p,
        rw run refl,
        rw run refl,
        rw run refl,
        rw run (ground (arith, get-put lead_id_of (reserved_for vendor_id l) lead_id db.leads)),
        new_purchase-IsSale c l vendor_id key intent,
        view-IsAnswer bought p,
      )
