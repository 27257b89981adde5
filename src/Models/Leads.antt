-- ===== src/Models/Leads.antt =====
-- apps/api/app/domains/professional_leads/models.py
use breero_com.Prelude.{ℕ, ◌≡◌, arith, Comparable, Option, String}
use breero_com.Models.Enum.{by_position}

pub data LeadStatus : Type 0 where
  available reserved purchased closed : LeadStatus

abbrev pub lead_status_position : LeadStatus → ℕ
lead_status_position LeadStatus.available = 0
lead_status_position LeadStatus.reserved = 1
lead_status_position LeadStatus.purchased = 2
lead_status_position LeadStatus.closed = 3

pub lead_status_position_injective :
    (a b : LeadStatus) → lead_status_position a ≡ lead_status_position b → a ≡ b
lead_status_position_injective a b h = ground arith

instance abbrev pub lead_status_eq : Comparable LeadStatus
lead_status_eq = by_position lead_status_position lead_status_position_injective

pub data LeadPurchaseStatus : Type 0 where
  pending_payment paid failed refunded : LeadPurchaseStatus

abbrev pub lead_purchase_status_position : LeadPurchaseStatus → ℕ
lead_purchase_status_position LeadPurchaseStatus.pending_payment = 0
lead_purchase_status_position LeadPurchaseStatus.paid = 1
lead_purchase_status_position LeadPurchaseStatus.failed = 2
lead_purchase_status_position LeadPurchaseStatus.refunded = 3

pub lead_purchase_status_position_injective :
    (a b : LeadPurchaseStatus)
    → lead_purchase_status_position a ≡ lead_purchase_status_position b
    → a ≡ b
lead_purchase_status_position_injective a b h = ground arith

instance abbrev pub lead_purchase_status_eq : Comparable LeadPurchaseStatus
lead_purchase_status_eq =
    by_position lead_purchase_status_position lead_purchase_status_position_injective

pub record ProfessionalLead : Type 0 where
  pub id : ℕ
  pub service_category : String
  pub price_minor : ℕ
  pub currency : String
  pub status : LeadStatus
  pub purchased_by_vendor_id : Option ℕ
  pub expires_at : Option ℕ

pub record LeadPurchase : Type 0 where
  pub id : ℕ
  pub lead_id : ℕ
  pub vendor_id : ℕ
  pub idempotency_key : String
  pub price_minor : ℕ
  pub currency : String
  pub status : LeadPurchaseStatus
  pub created_at : ℕ

pub data DisputeStatus : Type 0 where
  opened approved denied : DisputeStatus

abbrev pub dispute_status_position : DisputeStatus → ℕ
dispute_status_position DisputeStatus.opened = 0
dispute_status_position DisputeStatus.approved = 1
dispute_status_position DisputeStatus.denied = 2

pub dispute_status_position_injective :
    (a b : DisputeStatus) → dispute_status_position a ≡ dispute_status_position b → a ≡ b
dispute_status_position_injective a b h = ground arith

instance abbrev pub dispute_status_eq : Comparable DisputeStatus
dispute_status_eq = by_position dispute_status_position dispute_status_position_injective

pub record LeadDispute : Type 0 where
  pub id : ℕ
  pub purchase_id : ℕ
  pub vendor_id : ℕ
  pub reason : String
  pub details : String
  pub status : DisputeStatus
  pub deadline_at : ℕ
