-- ===== src/Payments/Settle/Release.antt =====
-- apps/api/app/domains/payments/service.py: `_release_failed_lead_purchase` on the purchase of a lead
-- that is reserved.
use breero_com.Prelude.{get, none, refl, some, ◌≡◌}
use breero_com.Models.{
  Db, LeadPurchase, LeadPurchaseStatus, LeadStatus, Payment, PaymentPurpose, ProfessionalLead,
  lead_status_eq, payment_purpose_eq,
}
use breero_com.Session.{Session, ok, ◌>>=◌}
use breero_com.Payments.{lead_id_of, purchase_of, put_lead, put_purchase}
use breero_com.Payments.Settle.{
  fail_purchase, release_failed_lead_purchase, release_lead, released_lead,
}

-- The lead is on sale again, and its purchase is failed.
pub release_runs :
    (p : Payment) (q : LeadPurchase) (l : ProfessionalLead) (s : Session Db)
    → p.payment_purpose ≡ PaymentPurpose.professional_lead
    → purchase_of p s.live ≡ some q
    → get lead_id_of q.lead_id s.live.leads ≡ some l
    → l.status ≡ LeadStatus.reserved
    → release_failed_lead_purchase p s ≡ (
      ok tt,
      record s {
        live =
            put_lead
              (record l { status = LeadStatus.available; purchased_by_vendor_id = none })
              (put_purchase (record q { status = LeadPurchaseStatus.failed }) s.live);
      },
    )
unfolding release_failed_lead_purchase fail_purchase release_lead released_lead ◌>>=◌
release_runs p q l s purpose bought found at =
    let purpose' =
      (payment_purpose_eq.equal_iff p.payment_purpose PaymentPurpose.professional_lead).1 purpose in
    let at' = (lead_status_eq.equal_iff l.status LeadStatus.reserved).1 at in
    rw (purpose', bought, found, at') refl
