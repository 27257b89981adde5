-- ===== src/Tests/Payments.antt =====
-- The theorems on payments at concrete inputs.
use breero_com.Prelude.{
  List, Option, String, [], arith, false, nat_eq, none, option_eq, refl, some, string_eq, true, ℕ,
  ◌==◌, ◌∷◌, ◌≡◌, ◌≢◌,
}
use breero_com.Models.{
  Booking, BookingStatus, Db, Payment, PaymentPurpose, PaymentStatus, booking_status_eq,
  payment_purpose_eq, payment_status_eq,
}
use breero_com.Errors.{Error, key_reused, payment_error, payment_missing, unknown_booking}
use breero_com.Context.{Context}
use breero_com.Session.{Session, answer, err, ok, request, ◌>>=◌}
use breero_com.Tests.{empty, surroundings}
use breero_com.Payments.{
  PaymentProvider, ProviderIntent, WebhookEvent, get_payment, stripe_status, stripe_statuses,
}
use breero_com.Payments.Settle.{release_failed_lead_purchase, settle, settle_booking}
use breero_com.Payments.Settle.OneJob.{IsOneJob, IsOneJobSession}
use breero_com.Payments.Intents.{
  PaymentIntentCreate, capture, check_booking, check_reference, create_intent, new_payment,
  open_intent, replay_or_open, set_entry, with_reference, create_professional_lead_intent,
  open_lead_intent, new_lead_payment, lead_metadata,
}
use breero_com.Payments.Intents.Replay.{create_intent_replays}
use breero_com.Payments.Refunds.{RefundRequest}
use breero_com.Payments.Refunds.Balance.{IsCovered, refunds-IsCovered, serve}
use breero_com.Payments.Webhooks.{
  after_handling, apply_failure, apply_update, failed_payment, handle, handle_payment, is_processed,
  known_payment, process_event, process_webhook, raised_again, updated_payment,
}
use breero_com.Payments.Webhooks.Once.{failed_webhook_isolated, webhook_once, FailedOnly, start}
use breero_com.Payments.Webhooks.Late.{late_failure_overwrites}
use breero_com.Payments.Atomic
use breero_com.Payments.OneJob

abbrev a_payment : Payment
a_payment = record {
  id = 20;
  booking_id = some 2;
  quote_id = none;
  lead_purchase_id = none;
  payment_purpose = PaymentPurpose.booking_diagnostic;
  provider = "stripe";
  provider_payment_id = some "pi_1";
  status = PaymentStatus.captured;
  amount_minor = 10000;
  currency = "usd";
  captured_amount_minor = 10000;
  provider_client_secret = none;
  failure_code = none;
  metadata = [];
}

abbrev a_booking : Booking
a_booking = record {
  id = 2;
  customer_id = 3;
  address_id = 5;
  service_id = 4;
  provider_worker_id = none;
  window_start = 2000;
  window_end = 5600;
  status = BookingStatus.pending_payment;
  total_amount = 10000;
  currency = "USD";
  expires_at = 1500;
}

abbrev an_intent : ProviderIntent
an_intent = record {
  id = "pi_2";
  status = "requires_capture";
  client_secret = none;
  amount_received = 0;
}

abbrev notification : String → String → WebhookEvent
notification id event_type = record {
  id = id;
  event_type = event_type;
  object = record {
    object = some "payment_intent";
    id = some "pi_1";
    status = some "succeeded";
    amount_received = some 10000;
    error_code = some "card_declined";
  };
}

abbrev a_provider : WebhookEvent → PaymentProvider
a_provider event = record {
  create_intent = λ amount currency method metadata key. ok an_intent;
  capture_intent =
      λ id amount key. ok (record an_intent { status = "succeeded"; amount_received = 10000 });
  create_refund = λ id amount key. ok (record { id = "re_1"; status = "succeeded" });
  verify_webhook = λ body signature. ok event;
}

abbrev failure : WebhookEvent
failure = notification "evt_1" "payment_intent.payment_failed"

abbrev success : WebhookEvent
success = notification "evt_2" "payment_intent.succeeded"

abbrev paid : Db
paid = record empty { payments = a_payment ∷ [] }

paid-IsCovered : IsCovered paid
paid-IsCovered = record { within_captured = λ k p found. ground arith }

abbrev a_refund : Option ℕ → String → RefundRequest
a_refund amount key = record {
  payment_id = 20;
  amount_minor = amount;
  key = key;
  actor_id = 8;
  reason = none;
}

abbrev refund_requests : List (Context × PaymentProvider × RefundRequest)
refund_requests =
    (surroundings, a_provider success, a_refund (some 4000) "a")
    ∷ (surroundings, a_provider success, a_refund (some 8000) "b")
    ∷ (surroundings, a_provider success, a_refund none "c")
    ∷ []

refunds-IsCovered_example : IsCovered (serve refund_requests paid)
refunds-IsCovered_example = refunds-IsCovered refund_requests paid paid-IsCovered

webhook_once_example :
    let db' =
      (request (process_webhook surroundings (a_provider failure) "body" "signature") paid).1 in
    request (process_webhook surroundings (a_provider failure) "body" "signature") db'
    ≡ (ok ("evt_1", true), db')
unfolding process_webhook process_event after_handling handle known_payment handle_payment
    apply_failure failed_payment release_failed_lead_purchase is_processed request ◌>>=◌
webhook_once_example =
    webhook_once surroundings (a_provider failure) "body" "signature" paid failure refl surroundings
      ("evt_1", false) refl

failed_webhook_isolated_example :
    (cause : Error) × ((handle surroundings success
        (start surroundings (a_provider success) "body" "signature" paid success refl)).0
      ≡ err cause)
    × FailedOnly "evt_2"
        (surroundings.text_of cause)
        paid
        (answer
          (request (process_webhook surroundings (a_provider success) "body" "signature") paid)).1
unfolding process_webhook process_event after_handling handle known_payment handle_payment
    apply_update updated_payment stripe_status stripe_statuses settle settle_booking raised_again
    is_processed request ◌>>=◌
failed_webhook_isolated_example =
    failed_webhook_isolated surroundings (a_provider success) "body" "signature" paid success refl
      (payment_error unknown_booking) refl

late_failure_overwrites_example :
    (p' : Payment) × (get_payment 20
        (request (process_webhook surroundings (a_provider failure) "body" "signature") paid).1
      ≡ some p')
    × (p'.status ≡ PaymentStatus.failed)
    × (p'.captured_amount_minor ≡ 10000)
unfolding is_processed
late_failure_overwrites_example =
    late_failure_overwrites surroundings (a_provider failure) "body" "signature" paid failure
      a_payment refl refl refl refl refl refl

abbrev payload : PaymentIntentCreate
payload = record {
  booking_id = some 2;
  quote_id = none;
  payment_purpose = PaymentPurpose.booking_diagnostic;
  amount_minor = 10000;
  currency = "usd";
  capture_method = "manual";
  metadata = [];
}

abbrev booked : Db
booked = record empty { bookings = a_booking ∷ [] }

abbrev opened : Payment
opened = record a_payment {
  id = 101;
  provider_payment_id = some "pi_2";
  status = PaymentStatus.authorized;
  captured_amount_minor = 0;
  metadata = ("booking_id", "id") ∷ [];
}

create_intent_replays_example :
    let db' =
      (request
        (create_intent surroundings (a_provider success) (λ p. p.amount_minor) payload "k")
        booked).1 in
    (request (create_intent surroundings (a_provider failure) (λ p. p.amount_minor) payload "k") db'
      ≡ (ok opened, db'))
    × ((other : PaymentIntentCreate)
        → (other.payment_purpose == PaymentPurpose.professional_lead) ≡ false
        → 10000 ≢ other.amount_minor
        → request
            (create_intent surroundings (a_provider failure) (λ p. p.amount_minor) other "k")
            db'
          ≡ (err (payment_error key_reused), db'))
unfolding create_intent replay_or_open open_intent check_reference check_booking new_payment
    with_reference set_entry stripe_status stripe_statuses request ◌>>=◌
create_intent_replays_example =
    create_intent_replays surroundings (a_provider success) (λ p. p.amount_minor) payload "k" booked
      opened refl refl surroundings (a_provider failure)

abbrev authorized_db : Db
authorized_db = record booked {
  payments = record a_payment { status = PaymentStatus.authorized; captured_amount_minor = 0 } ∷ [];
}

abbrev authorized_session : Session Db
authorized_session = record { saved = authorized_db; live = authorized_db }

authorized-IsOneJobSession : IsOneJobSession authorized_session
authorized-IsOneJobSession =
    let h : IsOneJob authorized_db = record { at_most_one = λ k. omega arith } in
    record { saved = h; live = h }

one_job_per_booking_example :
    IsOneJobSession
      (OneJob.run surroundings (OneJob.take (a_provider success) 20 none "k") authorized_session).1
one_job_per_booking_example =
    OneJob.one_job_per_booking surroundings (OneJob.take (a_provider success) 20 none "k")
      authorized_session authorized-IsOneJobSession

payment_atomic_example :
    (Atomic.run surroundings (Atomic.take (a_provider success) 21 none "k") paid).1 ≡ paid
unfolding Atomic.run capture request ◌>>=◌
payment_atomic_example =
    Atomic.payment_atomic surroundings (Atomic.take (a_provider success) 21 none "k") paid
      (payment_error payment_missing) refl

abbrev lead_payment : Payment
lead_payment = record {
  id = 101;
  booking_id = none;
  quote_id = none;
  lead_purchase_id = some 60;
  payment_purpose = PaymentPurpose.professional_lead;
  provider = "stripe";
  provider_payment_id = some "pi_2";
  status = PaymentStatus.authorized;
  amount_minor = 500;
  currency = "USD";
  captured_amount_minor = 0;
  provider_client_secret = none;
  failure_code = none;
  metadata = ("lead_purchase_id", "id") ∷ ("lead_id", "id") ∷ ("provider_id", "id") ∷ [];
}

-- The run of `create_professional_lead_intent` for a new purchase, and for one that has its payment.
lead_intent_opened :
    let run =
      create_professional_lead_intent surroundings (a_provider success) 60 500 "usd" 6 61 "k" in
    let paid_lead = record empty { payments = lead_payment ∷ [] } in
    (run (record { saved = empty; live = empty })
      ≡ (ok lead_payment, record { saved = empty; live = paid_lead }))
    × (run (record { saved = empty; live = paid_lead })
        ≡ (ok lead_payment, record { saved = empty; live = paid_lead }))
unfolding create_professional_lead_intent open_lead_intent new_lead_payment lead_metadata
    stripe_status stripe_statuses ◌>>=◌
lead_intent_opened = (refl, refl)
