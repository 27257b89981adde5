-- ===== src/Leads/Atomic.antt =====
-- apps/api/app/domains/professional_leads/service.py: the requests where they raise.
use breero_com.Prelude.{Option, String, none, some, ℕ, ◌≡◌}
use breero_com.Models.{Db, LeadPurchase, Vendor}
use breero_com.Errors.{Error}
use breero_com.Context.{Context}
use breero_com.Session.{answer, request}
use breero_com.Session.Keeps.{Keeps}
use breero_com.Session.Atomic.{IsAtomic, IsUncommitted, atomic_rules, request-IsAtomic}
use breero_com.Payments.{PaymentProvider}
use breero_com.Payments.Intents.{create_professional_lead_intent, open_lead_intent}
use breero_com.Leads.Sales.{
  buy_lead, pay_purchase, purchase, purchase_new, purchase_or_existing, purchase_view,
}
use breero_com.Leads.Disputes.{dispute_lead, dispute_purchase, open_dispute}

module _ {db : Db} where
  intent-IsUncommitted :
      (c : Context) (provider : PaymentProvider) (purchase_id amount : ℕ) (currency : String)
      (vendor_id lead_id : ℕ) (key : String)
      → Keeps (IsUncommitted db) (
          create_professional_lead_intent c provider purchase_id amount currency vendor_id lead_id
            key)
  unfolding create_professional_lead_intent open_lead_intent
  intent-IsUncommitted c provider purchase_id amount currency vendor_id lead_id key =
      search atomic_rules depth 16

  purchase_or_existing-IsAtomic :
      (c : Context) (provider : PaymentProvider) (v : Vendor) (lead_id vendor_id : ℕ) (key : String)
      (o : Option LeadPurchase)
      → IsAtomic db (purchase_or_existing c provider v lead_id vendor_id key o)
  unfolding purchase_or_existing purchase_new buy_lead pay_purchase purchase_view
  purchase_or_existing-IsAtomic c provider v lead_id vendor_id key none =
      search (atomic_rules, intent-IsUncommitted) depth 32
  purchase_or_existing-IsAtomic c provider v lead_id vendor_id key (some existing) =
      search atomic_rules depth 16

  purchase-IsAtomic :
      (c : Context) (provider : Option PaymentProvider) (lead_id vendor_id : ℕ) (key : String)
      → IsAtomic db (purchase c provider lead_id vendor_id key)
  unfolding purchase
  purchase-IsAtomic c provider lead_id vendor_id key =
      search (atomic_rules, purchase_or_existing-IsAtomic) depth 24

  dispute-IsAtomic :
      (c : Context) (lead_id vendor_id : ℕ) (reason details : String)
      → IsAtomic db (dispute_lead c lead_id vendor_id reason details)
  unfolding dispute_lead dispute_purchase open_dispute
  dispute-IsAtomic c lead_id vendor_id reason details = search atomic_rules depth 24

-- The two requests that change something.
pub data Command : Type 0 where
  buy : Option PaymentProvider → ℕ → ℕ → String → Command
  complain : ℕ → ℕ → String → String → Command

unfoldable pub run : Context → Command → Db → Option Error × Db
run c (buy provider lead_id vendor_id key) db =
    answer (request (purchase c provider lead_id vendor_id key) db)
run c (complain lead_id vendor_id reason details) db =
    answer (request (dispute_lead c lead_id vendor_id reason details) db)

-- A purchase or a dispute of a lead that raises an exception, be it the provider's or that of a
-- broken unique index, leaves the whole database as it was: no purchase without its payment, no lead
-- reserved without its purchase, no dispute without its event.
pub lead_request-atomic :
    (c : Context) (command : Command) (db : Db) (e : Error)
    → (run c command db).0 ≡ some e
    → (run c command db).1 ≡ db
unfolding run
lead_request-atomic c (buy provider lead_id vendor_id key) db e =
    request-IsAtomic db _ e (purchase-IsAtomic c provider lead_id vendor_id key)
lead_request-atomic c (complain lead_id vendor_id reason details) db e =
    request-IsAtomic db _ e (dispute-IsAtomic c lead_id vendor_id reason details)
