-- ===== src/Leads/Sales.antt =====
-- apps/api/app/domains/professional_leads/service.py: `available`, `get` and `purchase` of
-- `ProfessionalLeadService`.
use breero_com.Prelude.{
  Bool, List, Option, String, [], add, any, false, find, get, leb, lower, nat_eq, none, not, one_of,
  option_eq, select, some, string_eq, ℕ, ◌&&◌, ◌==◌, ◌∷◌,
}
use breero_com.Models.{
  Db, LeadPurchase, LeadPurchaseStatus, LeadStatus, Payment, PaymentStatus, ProfessionalLead,
  Vendor, VendorStatus, lead_status_eq, vendor_status_eq,
}
use breero_com.Errors.{
  lead_not_found, lead_sold_before, lead_unavailable, provider_not_eligible, purchase_key_conflict,
  purchase_payment_missing, purchasing_unavailable,
}
use breero_com.Context.{Context}
use breero_com.Session.{Tx, commit, gets, guard, modify, pure, require, ◌>>=◌, ◌>>◌}
use breero_com.Payments.{PaymentProvider, lead_id_of, put_lead}
use breero_com.Payments.Intents.{create_professional_lead_intent}

abbrev lowered : List String → List String
lowered [] = []
lowered (s ∷ rest) = lower s ∷ lowered rest

-- `_eligible`.
abbrev pub is_eligible : Vendor → ProfessionalLead → Bool
is_eligible vendor lead = one_of (lower lead.service_category) (lowered vendor.capabilities)

abbrev pub has_expired : ℕ → Option ℕ → Bool
has_expired now none = false
has_expired now (some t) = leb t now

abbrev pub is_on_sale : ℕ → ProfessionalLead → Bool
is_on_sale now lead = lead.status == LeadStatus.available && not (has_expired now lead.expires_at)

-- `available`.
abbrev available_leads : Context → Vendor → Db → List ProfessionalLead
available_leads c vendor db = select (is_eligible vendor) (select (is_on_sale c.now) db.leads)

abbrev pub get_lead : ℕ → Db → Option ProfessionalLead
get_lead lead_id db = get lead_id_of lead_id db.leads

abbrev is_open_to : Vendor → Option ProfessionalLead → Bool
is_open_to vendor none = false
is_open_to vendor (some lead) = lead.status == LeadStatus.available && is_eligible vendor lead

-- `get`.
unfoldable pub read_lead : Context → ℕ → Vendor → Tx Db ProfessionalLead
read_lead c lead_id vendor = do
  found ← gets (get_lead lead_id)
  guard (is_open_to vendor found) lead_not_found
  lead ← require found lead_not_found
  guard (not (has_expired c.now lead.expires_at)) lead_not_found
  pure lead

-- `_view`.
pub record PurchaseView : Type 0 where
  pub id : ℕ
  pub lead_id : ℕ
  pub vendor_id : ℕ
  pub price_minor : ℕ
  pub currency : String
  pub status : LeadPurchaseStatus
  pub payment_id : ℕ
  pub payment_status : PaymentStatus
  pub client_secret : Option String

abbrev pub view : LeadPurchase → Payment → PurchaseView
view bought payment = record {
  id = bought.id;
  lead_id = bought.lead_id;
  vendor_id = bought.vendor_id;
  price_minor = bought.price_minor;
  currency = bought.currency;
  status = bought.status;
  payment_id = payment.id;
  payment_status = payment.status;
  client_secret = payment.provider_client_secret;
}

-- `_purchase_view`.
unfoldable pub purchase_view : LeadPurchase → Tx Db PurchaseView
purchase_view bought = do
  found ← gets (λ db. find (λ p. p.lead_purchase_id == some bought.id) db.payments)
  payment ← require found purchase_payment_missing
  pure (view bought payment)

abbrev pub add_purchase : LeadPurchase → Db → Db
add_purchase bought db = record db { lead_purchases = add bought db.lead_purchases }

abbrev pub is_purchase_of : ℕ → LeadPurchase → Bool
is_purchase_of lead_id p = p.lead_id == lead_id

unfoldable pub new_purchase : Context → ProfessionalLead → ℕ → String → LeadPurchase
new_purchase c lead vendor_id key = record {
  id = c.uuid 7;
  lead_id = lead.id;
  vendor_id = vendor_id;
  idempotency_key = key;
  price_minor = lead.price_minor;
  currency = lead.currency;
  status = LeadPurchaseStatus.pending_payment;
  created_at = c.now;
}

abbrev pub reserved_for : ℕ → ProfessionalLead → ProfessionalLead
reserved_for vendor_id lead = record lead {
  status = LeadStatus.reserved;
  purchased_by_vendor_id = some vendor_id;
}

-- `purchase` from the payment on.
unfoldable pub pay_purchase :
    Context → PaymentProvider → ProfessionalLead → ℕ → String → LeadPurchase → Tx Db PurchaseView
pay_purchase c provider lead vendor_id key bought = do
  payment ←
      create_professional_lead_intent c provider bought.id lead.price_minor lead.currency vendor_id
        lead.id key
  modify (put_lead (reserved_for vendor_id lead))
  commit
  pure (view bought payment)

-- `purchase` from the flush of the new row on: a lead is sold once.
unfoldable pub buy_lead :
    Context → PaymentProvider → ProfessionalLead → ℕ → String → Tx Db PurchaseView
buy_lead c provider lead vendor_id key = do
  sold ← gets (λ db. any (is_purchase_of lead.id) db.lead_purchases)
  guard (not sold) lead_sold_before
  modify (add_purchase (new_purchase c lead vendor_id key))
  pay_purchase c provider lead vendor_id key (new_purchase c lead vendor_id key)

abbrev is_available : Option ProfessionalLead → Bool
is_available none = false
is_available (some lead) = lead.status == LeadStatus.available

-- `purchase` for a key that is new.
unfoldable pub purchase_new :
    Context → PaymentProvider → Vendor → ℕ → ℕ → String → Tx Db PurchaseView
purchase_new c provider vendor lead_id vendor_id key = do
  found ← gets (get_lead lead_id)
  guard (is_available found) lead_unavailable
  lead ← require found lead_unavailable
  guard (not (has_expired c.now lead.expires_at)) lead_unavailable
  guard (is_eligible vendor lead) provider_not_eligible
  buy_lead c provider lead vendor_id key

unfoldable pub purchase_or_existing :
    Context → PaymentProvider → Vendor → ℕ → ℕ → String → Option LeadPurchase → Tx Db PurchaseView
purchase_or_existing c provider vendor lead_id vendor_id key none =
    purchase_new c provider vendor lead_id vendor_id key
purchase_or_existing c provider vendor lead_id vendor_id key (some existing) =
    guard (existing.lead_id == lead_id) purchase_key_conflict >>= λ _. purchase_view existing

abbrev pub get_vendor : ℕ → Db → Option Vendor
get_vendor vendor_id db = get (λ v. v.id) vendor_id db.vendors

abbrev pub is_active : Option Vendor → Bool
is_active none = false
is_active (some vendor) = vendor.status == VendorStatus.active

abbrev pub is_keyed : ℕ → String → LeadPurchase → Bool
is_keyed vendor_id key p = p.vendor_id == vendor_id && p.idempotency_key == key

-- `purchase`.
unfoldable pub purchase : Context → Option PaymentProvider → ℕ → ℕ → String → Tx Db PurchaseView
purchase c payment_provider lead_id vendor_id key = do
  guard c.stripe_enabled purchasing_unavailable
  found ← gets (get_vendor vendor_id)
  guard (is_active found) provider_not_eligible
  vendor ← require found provider_not_eligible
  provider ← require payment_provider purchasing_unavailable
  existing ← gets (λ db. find (is_keyed vendor_id key) db.lead_purchases)
  purchase_or_existing c provider vendor lead_id vendor_id key existing
