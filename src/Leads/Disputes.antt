-- ===== src/Leads/Disputes.antt =====
-- apps/api/app/domains/professional_leads/service.py: `dispute` and `get_dispute` of
-- `ProfessionalLeadService`.
use breero_com.Prelude.{
  Bool, String, [], add, false, find, get, if◌then◌else◌, ltb, nat_eq, none, not, some, string_eq,
  ℕ, ◌&&◌, ◌+◌, ◌==◌, ◌∷◌,
}
use breero_com.Models.{
  Db, DisputeStatus, EventStatus, IntegrationEvent, LeadDispute, LeadPurchase, event_status_eq,
}
use breero_com.Errors.{dispute_not_found, dispute_window_expired, purchase_not_found}
use breero_com.Context.{Context, new_event, publish}
use breero_com.Session.{◌>>=◌, Tx, commit, found_or, gets, guard, modify, pure, require, ◌>>◌}
use breero_com.Payments.{purchase_id_of}

-- Seventy-two hours.
abbrev dispute_window : ℕ
dispute_window = 259200

unfoldable pub new_dispute : Context → LeadPurchase → ℕ → String → String → LeadDispute
new_dispute c bought vendor_id reason details = record {
  id = c.uuid 8;
  purchase_id = bought.id;
  vendor_id = vendor_id;
  reason = reason;
  details = details;
  status = DisputeStatus.opened;
  deadline_at = bought.created_at + dispute_window;
}

-- The numbers of the payload, of which the event has more.
unfoldable pub dispute_event : Context → LeadPurchase → LeadDispute → ℕ → ℕ → IntegrationEvent
dispute_event c bought opened_dispute lead_id vendor_id =
    record (new_event c (c.uuid 9) "lead_dispute" opened_dispute.id "breero.lead_dispute.created" (
      ("dispute_id", opened_dispute.id)
      ∷ ("lead_id", lead_id)
      ∷ ("provider_id", vendor_id)
      ∷ ("purchase_id", bought.id)
      ∷ ("submitted_at", c.now)
      ∷ ("deadline_at", opened_dispute.deadline_at)
      ∷ ("amount_minor", bought.price_minor)
      ∷ [])) {
        status = if c.odoo_enabled then EventStatus.pending else EventStatus.pending_configuration;
      }

abbrev add_dispute : LeadDispute → Db → Db
add_dispute opened_dispute db = record db { lead_disputes = add opened_dispute db.lead_disputes }

abbrev is_dispute_of : ℕ → String → LeadDispute → Bool
is_dispute_of purchase_id reason d = d.purchase_id == purchase_id && d.reason == reason

unfoldable pub open_dispute : Context → LeadPurchase → ℕ → ℕ → String → String → Tx Db LeadDispute
open_dispute c bought lead_id vendor_id reason details = do
  let opened_dispute = new_dispute c bought vendor_id reason details
  modify (add_dispute opened_dispute)
  modify (publish (dispute_event c bought opened_dispute lead_id vendor_id))
  commit
  pure opened_dispute

unfoldable pub dispute_purchase :
    Context → ℕ → ℕ → String → String → LeadPurchase → Tx Db LeadDispute
dispute_purchase c lead_id vendor_id reason details bought = do
  guard (not (ltb (bought.created_at + dispute_window) c.now)) dispute_window_expired
  existing ← gets (λ db. find (is_dispute_of bought.id reason) db.lead_disputes)
  found_or existing (open_dispute c bought lead_id vendor_id reason details)

abbrev is_bought_by : ℕ → ℕ → LeadPurchase → Bool
is_bought_by lead_id vendor_id p = p.lead_id == lead_id && p.vendor_id == vendor_id

-- `dispute`.
unfoldable pub dispute_lead : Context → ℕ → ℕ → String → String → Tx Db LeadDispute
dispute_lead c lead_id vendor_id reason details = do
  found ← gets (λ db. find (is_bought_by lead_id vendor_id) db.lead_purchases)
  bought ← require found purchase_not_found
  dispute_purchase c lead_id vendor_id reason details bought

-- The join of `get_dispute`.
abbrev is_of_lead : ℕ → Db → LeadDispute → Bool
is_of_lead lead_id db d = elim (get purchase_id_of d.purchase_id db.lead_purchases) [
  | none ↦ false
  | some p ↦ p.lead_id == lead_id
]

unfoldable pub get_dispute : ℕ → ℕ → ℕ → Tx Db LeadDispute
get_dispute lead_id dispute_id vendor_id = do
  found ← gets (λ db.
      find (λ d. is_of_lead lead_id db d && d.id == dispute_id && d.vendor_id == vendor_id)
        db.lead_disputes)
  require found dispute_not_found
