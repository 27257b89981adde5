-- ===== src/Payments/Webhooks/Late.antt =====
-- apps/api/app/domains/payments/service.py, `process_webhook`: a failure that is notified late. Stripe
-- does not promise the order of its notifications.
use breero_com.Prelude.{String, arith, false, get-put, nat_eq, option_eq, refl, some, ◌==◌, ◌≡◌}
use breero_com.Models.{
  Db, Payment, PaymentPurpose, PaymentStatus, payment_purpose_eq, payment_status_eq,
}
use breero_com.Context.{Context}
use breero_com.Session.{ok, request, ◌>>=◌}
use breero_com.Payments.{PaymentProvider, WebhookEvent, get_payment, payment_id_of, put_payment}
use breero_com.Payments.Settle.{release_failed_lead_purchase}
use breero_com.Payments.Webhooks.{
  apply_failure, event_payment, failed_payment, get_event, handle, handle_payment, is_processed,
  known_payment, process_webhook, record_event, record_processed,
}
use breero_com.Payments.Webhooks.Once.{handled, start}
use breero_com.Prelude.{string_eq}

module _ (c : Context) (provider : PaymentProvider) (body signature : String) (db : Db)
    (event : WebhookEvent) (p : Payment)
    (verified : provider.verify_webhook body signature ≡ ok event)
    (new : is_processed (get_event event.id db) ≡ false)
    (about : event_payment event.object db ≡ some p) (stored : get_payment p.id db ≡ some p)
    (not_lead : (p.payment_purpose == PaymentPurpose.professional_lead) ≡ false)
    (is_failure : event.event_type ≡ "payment_intent.payment_failed") where
  failure_handled : handle c event (start c provider body signature db event verified) ≡ (
    ok (some (failed_payment event.object p)),
    record { saved = db; live = put_payment (failed_payment event.object p) db },
  )
  unfolding handle known_payment handle_payment apply_failure failed_payment
      release_failed_lead_purchase ◌>>=◌
  failure_handled =
      ground
        (arith, (string_eq.equal_iff event.event_type "payment_intent.payment_failed").1 is_failure)

  failed_found :
      get_payment p.id (put_payment (failed_payment event.object p) db)
      ≡ some (failed_payment event.object p)
  unfolding failed_payment
  failed_found =
      ground (arith, get-put payment_id_of (failed_payment event.object p) p.id db.payments)

  -- A new `payment_intent.payment_failed` event about a payment for a booking or a quote makes its
  -- status `failed` and leaves the captured amount, whatever the status was before, `captured` among
  -- them: the failure of an attempt that is notified after the capture hides the capture.
  pub late_failure_overwrites :
      (p' : Payment) × (get_payment p.id (request (process_webhook c provider body signature) db).1
        ≡ some p')
      × (p'.status ≡ PaymentStatus.failed)
      × (p'.captured_amount_minor ≡ p.captured_amount_minor)
  unfolding failed_payment record_processed record_event
  late_failure_overwrites = (
    failed_payment event.object p,
    rw (handled c provider body signature db event verified _ _ new failure_handled) failed_found,
    refl,
    refl,
  )
