-- ===== src/Tests/Leads.antt =====
-- The theorems on leads at concrete inputs.
use breero_com.Prelude.{[], none, refl, some, true, ◌∷◌, ◌≡◌}
use breero_com.Models.{
  Db, LeadPurchase, LeadPurchaseStatus, LeadStatus, Payment, PaymentPurpose, PaymentStatus,
  ProfessionalLead, Vendor, VendorStatus,
}
use breero_com.Errors.{
  dispute_not_found, dispute_window_expired, invalid_webhook, lead_sold_before, lead_unavailable,
  payment_error, provider_failed,
}
use breero_com.Session.{err, ok, request, returned, ◌>>=◌}
use breero_com.Tests.{empty, surroundings}
use breero_com.Payments.{PaymentProvider, ProviderIntent}
use breero_com.Payments.Settle.{release_failed_lead_purchase}
use breero_com.Leads.Sales.{
  get_lead, is_on_sale, new_purchase, purchase, purchase_new, purchase_or_existing, read_lead,
  reserved_for, PurchaseView,
}
use breero_com.Leads.Disputes.{
  dispute_event, dispute_lead, dispute_purchase, get_dispute, new_dispute, open_dispute,
}
use breero_com.Leads.Atomic.{buy, lead_request-atomic, run}
use breero_com.Leads.Purchases.{purchase-reserves, IsAnswer, IsSale}
use breero_com.Leads.Resale.{after_failure, lead_on_sale_again, resale-refused}

abbrev a_vendor : Vendor
a_vendor = record { id = 6; status = VendorStatus.active; capabilities = "Plumbing" ∷ [] }

abbrev a_lead : ProfessionalLead
a_lead = record {
  id = 40;
  service_category = "plumbing";
  price_minor = 2500;
  currency = "USD";
  status = LeadStatus.available;
  purchased_by_vendor_id = none;
  expires_at = none;
}

abbrev lead_intent : ProviderIntent
lead_intent = record {
  id = "pi_9";
  status = "requires_payment_method";
  client_secret = some "secret";
  amount_received = 0;
}

abbrev a_provider : PaymentProvider
a_provider = record {
  create_intent = λ amount currency method metadata key. ok lead_intent;
  capture_intent = λ id amount key. err (payment_error provider_failed);
  create_refund = λ id amount key. err (payment_error provider_failed);
  verify_webhook = λ body signature. err (payment_error invalid_webhook);
}

abbrev market : Db
market = record empty { vendors = a_vendor ∷ []; leads = a_lead ∷ [] }

lead_request-atomic_example : (run surroundings (buy (some a_provider) 41 6 "k") market).1 ≡ market
unfolding run purchase purchase_or_existing purchase_new request ◌>>=◌
lead_request-atomic_example =
    lead_request-atomic surroundings (buy (some a_provider) 41 6 "k") market lead_unavailable refl

purchase-reserves_example :
    let r = request (purchase surroundings (some a_provider) 40 6 "k") market in
    (q : LeadPurchase) × (p : Payment) × (l' : ProfessionalLead) × (x : PurchaseView) × (returned r
      ≡ some x)
    × (r.1.lead_purchases ≡ q ∷ [])
    × (r.1.payments ≡ p ∷ [])
    × (get_lead 40 r.1 ≡ some l')
    × IsSale a_lead 6 q p l'
    × IsAnswer q p x
unfolding new_purchase
purchase-reserves_example =
    purchase-reserves surroundings a_provider 40 6 "k" market a_vendor a_lead refl refl refl refl
      refl refl refl lead_intent refl refl refl

abbrev sold_purchase : LeadPurchase
sold_purchase = record {
  id = 107;
  lead_id = 40;
  vendor_id = 6;
  idempotency_key = "k";
  price_minor = 2500;
  currency = "USD";
  status = LeadPurchaseStatus.pending_payment;
  created_at = 900;
}

abbrev lead_payment : Payment
lead_payment = record {
  id = 101;
  booking_id = none;
  quote_id = none;
  lead_purchase_id = some 107;
  payment_purpose = PaymentPurpose.professional_lead;
  provider = "stripe";
  provider_payment_id = some "pi_9";
  status = PaymentStatus.failed;
  amount_minor = 2500;
  currency = "USD";
  captured_amount_minor = 0;
  provider_client_secret = none;
  failure_code = none;
  metadata = [];
}

abbrev reserved_market : Db
reserved_market = record market {
  leads = reserved_for 6 a_lead ∷ [];
  lead_purchases = sold_purchase ∷ [];
  payments = lead_payment ∷ [];
}

resale-refused_example :
    (get_lead 40 (after_failure lead_payment reserved_market)
      ≡ some (lead_on_sale_again (reserved_for 6 a_lead)))
    × (is_on_sale 1000 (lead_on_sale_again (reserved_for 6 a_lead)) ≡ true)
    × (request
          (purchase surroundings (some a_provider) 40 6 "again")
          (after_failure lead_payment reserved_market)
        ≡ (err lead_sold_before, after_failure lead_payment reserved_market))
unfolding release_failed_lead_purchase request ◌>>=◌
resale-refused_example =
    resale-refused lead_payment sold_purchase (reserved_for 6 a_lead) reserved_market refl refl refl
      refl refl surroundings a_provider 6 "again" a_vendor refl refl refl refl refl refl

-- A dispute within three days, and one after them.
disputes :
    returned (request (dispute_lead surroundings 40 6 "wrong number" "no answer") reserved_market)
    ≡ some (new_dispute surroundings sold_purchase 6 "wrong number" "no answer")
unfolding dispute_lead dispute_purchase open_dispute new_dispute dispute_event request ◌>>=◌
disputes = refl

too_late_to_dispute :
    request
      (dispute_lead (record surroundings { now = 260101 }) 40 6 "wrong number" "no answer")
      reserved_market
    ≡ (err dispute_window_expired, reserved_market)
unfolding dispute_lead dispute_purchase request ◌>>=◌
too_late_to_dispute = refl

reads_lead : returned (request (read_lead surroundings 40 a_vendor) market) ≡ some a_lead
unfolding read_lead request ◌>>=◌
reads_lead = refl

finds_no_dispute :
    request (get_dispute 40 1 6) reserved_market ≡ (err dispute_not_found, reserved_market)
unfolding get_dispute request ◌>>=◌
finds_no_dispute = refl
