-- ===== src/Payments/Webhooks/Frame.antt =====
-- What the handling of an event keeps of the session: what its writes keep.
use breero_com.Prelude.{Bool, Option, none, some}
use breero_com.Models.{Db, Payment, Refund, RefundStatus}
use breero_com.Context.{Context}
use breero_com.Session.{Session, modify}
use breero_com.Session.Keeps.{Keeps, keeps_rules}
use breero_com.Payments.{WebhookEvent, WebhookObject, put_payment}
use breero_com.Payments.Settle.Keeps.{SettleKeeps, mark-Keeps, release-Keeps, settle-Keeps}
use breero_com.Payments.Webhooks.{
  apply_failure, apply_refund_status, apply_update, handle, handle_payment, handle_refund,
  known_payment, known_refund, put_refund, record_refunded, refund_succeeded, update_refund,
}

module _ {P : Session Db → Type 0} (w : SettleKeeps P)
    (kept_payment : (p : Payment) → Keeps P (modify (put_payment p)))
    (kept_refund : (r : Refund) → Keeps P (modify (put_refund r))) where
  handle_payment-Keeps :
      (c : Context) (event : WebhookEvent) (p : Payment) → Keeps P (handle_payment c event p)
  unfolding handle_payment apply_failure apply_update
  handle_payment-Keeps c event p =
      search (keeps_rules, kept_payment, settle-Keeps w, release-Keeps w) depth 16

  refund_succeeded-Keeps : (done : Bool) (o : Option Payment) → Keeps P (refund_succeeded done o)
  unfolding refund_succeeded record_refunded
  refund_succeeded-Keeps done none = search keeps_rules
  refund_succeeded-Keeps done (some p) = search (keeps_rules, kept_payment, mark-Keeps w) depth 16

  known_refund-Keeps :
      (status : Option RefundStatus) (o : Option Refund) → Keeps P (known_refund status o)
  unfolding known_refund apply_refund_status
  known_refund-Keeps none o = search keeps_rules
  known_refund-Keeps (some status) none = search keeps_rules
  known_refund-Keeps (some status) (some r) =
      search (keeps_rules, kept_refund, refund_succeeded-Keeps) depth 16

  handle_refund-Keeps : (o : WebhookObject) → Keeps P (handle_refund o)
  unfolding handle_refund update_refund
  handle_refund-Keeps o = search (keeps_rules, known_refund-Keeps) depth 16

  known_payment-Keeps :
      (c : Context) (event : WebhookEvent) (o : Option Payment) → Keeps P (known_payment c event o)
  unfolding known_payment
  known_payment-Keeps c event none = handle_refund-Keeps event.object
  known_payment-Keeps c event (some p) = search (keeps_rules, handle_payment-Keeps) depth 16

  pub handle-Keeps : (c : Context) (event : WebhookEvent) → Keeps P (handle c event)
  unfolding handle
  handle-Keeps c event = search (keeps_rules, known_payment-Keeps) depth 16
