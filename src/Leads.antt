-- ===== src/Leads.antt =====
-- apps/api/app/domains/professional_leads/service.py: `ProfessionalLeadService`, by which vendors buy
-- leads and dispute what they bought. The unique indexes of professional_leads/models.py are tested
-- where a row is flushed.
pub mod Sales
pub mod Disputes
pub mod Atomic
pub mod Purchases
pub mod Resale
