-- ===== src/Payments/Webhooks.antt =====
-- apps/api/app/domains/payments/service.py: `process_webhook`.
pub mod Frame
pub mod Once
pub mod Late
use breero_com.Prelude.{
  Bool, Option, String, add, false, find, if◌then◌else◌, is_present, is_some, leb, nat_eq, none,
  option_eq, or_else, put, some, starts_with, string_eq, sum, true, update, ℕ, ◌&&◌, ◌+◌, ◌==◌,
}
use breero_com.Models.{
  Db, Payment, PaymentEvent, PaymentStatus, Refund, RefundStatus, captured, partially_refunded,
  payment_status_eq, refund_status_eq, succeeded,
}
use breero_com.Errors.{Error, payment_error, webhook_failed}
use breero_com.Context.{Context}
use breero_com.Session.{
  Outcome, Tx, attempt, commit, err, gets, lift, modify, ok, pure, raise, rollback, when, ◌>>=◌,
  ◌>>◌,
}
use breero_com.Payments.{
  PaymentProvider, WebhookEvent, WebhookObject, get_by_provider_id, get_payment, put_payment,
  stripe_status,
}
use breero_com.Payments.Settle.{mark_lead_purchase_refunded, release_failed_lead_purchase, settle}
use breero_com.Payments.Refunds.{refund_amount, refund_status_of, refunded}

abbrev pub has_event_id : String → PaymentEvent → Bool
has_event_id event_id e = e.provider == "stripe" && e.provider_event_id == event_id

-- `PaymentRepository.get_event`.
abbrev pub get_event : String → Db → Option PaymentEvent
get_event event_id db = find (has_event_id event_id) db.payment_events

-- The payment that the event is about.
abbrev pub event_payment : WebhookObject → Db → Option Payment
event_payment o db =
    if o.object == some "payment_intent" && is_present o.id
    then get_by_provider_id (or_else o.id "") db
    else none

pub with_status : PaymentStatus → Payment → Payment
with_status status p = record p { status = status }

unfoldable pub failed_payment : WebhookObject → Payment → Payment
failed_payment o p = record p { status = PaymentStatus.failed; failure_code = o.error_code }

-- `STRIPE_STATUS.get(obj.get("status", ""), payment.status)`, and the amount received.
unfoldable pub updated_payment : WebhookObject → Payment → Payment
updated_payment o p = record p {
  status = stripe_status (or_else o.status "") p.status;
  captured_amount_minor = or_else o.amount_received p.captured_amount_minor;
}

unfoldable pub apply_update : Context → Payment → Tx Db Payment
apply_update c p = do
  modify (put_payment p)
  when (p.status == PaymentStatus.captured) (settle c p)
  pure p

unfoldable pub apply_failure : Payment → Tx Db Payment
apply_failure p = do modify (put_payment p); release_failed_lead_purchase p; pure p

-- The branch for an event of a payment that is known.
unfoldable pub handle_payment : Context → WebhookEvent → Payment → Tx Db Payment
handle_payment c event p =
    if event.event_type == "payment_intent.payment_failed"
    then apply_failure (failed_payment event.object p)
    else if event.event_type == "payment_intent.canceled"
    then apply_failure (with_status PaymentStatus.canceled p)
    else if starts_with event.event_type "payment_intent."
    then apply_update c (updated_payment event.object p)
    else pure p

-- `PaymentRepository.refund_by_provider_id`.
abbrev pub refund_by_provider_id : String → Db → Option Refund
refund_by_provider_id provider_id db =
    find (λ r. r.provider_refund_id == some provider_id) db.refunds

abbrev pub refund_id_of : Refund → ℕ
refund_id_of r = r.id

abbrev pub put_refund : Refund → Db → Db
put_refund r db = record db { refunds = put refund_id_of r db.refunds }

abbrev pub is_succeeded : ℕ → Refund → Bool
is_succeeded payment_id r = r.payment_id == payment_id && r.status == RefundStatus.succeeded

-- The status of the payment, from the sum of the refunds that succeeded.
pub status_after_refunds : Payment → Db → PaymentStatus
status_after_refunds p db =
    if leb p.captured_amount_minor (sum (is_succeeded p.id) refund_amount db.refunds)
    then PaymentStatus.refunded
    else PaymentStatus.partially_refunded

record_refunded : Payment → Tx Db (Unit {0})
record_refunded p = do
  status ← gets (status_after_refunds p)
  let p' = with_status status p
  modify (put_payment p')
  mark_lead_purchase_refunded p'

refund_succeeded : Bool → Option Payment → Tx Db (Option Payment)
unfolding record_refunded
refund_succeeded done none = pure none
refund_succeeded done (some p) = do when done (record_refunded p); pure (some p)

-- The branch for a refund whose status the event gives.
pub apply_refund_status : RefundStatus → Refund → Tx Db (Option Payment)
unfolding refund_succeeded
apply_refund_status status r = do
  modify (put_refund (record r { status = status }))
  found ← gets (get_payment r.payment_id)
  refund_succeeded (status == RefundStatus.succeeded) found

-- A refund that is not known, or a status that is none of the four, changes nothing.
known_refund : Option RefundStatus → Option Refund → Tx Db (Option Payment)
known_refund (some status) (some r) = apply_refund_status status r
known_refund (some status) none = pure none
known_refund none found = pure none

update_refund : WebhookObject → Tx Db (Option Payment)
unfolding known_refund
update_refund o = do
  found ← gets (refund_by_provider_id (or_else o.id ""))
  known_refund (refund_status_of (or_else o.status "")) found

pub handle_refund : WebhookObject → Tx Db (Option Payment)
unfolding update_refund
handle_refund o =
    if o.object == some "refund" && is_present o.id then update_refund o else pure none

unfoldable pub known_payment : Context → WebhookEvent → Option Payment → Tx Db (Option Payment)
known_payment c event none = handle_refund event.object
known_payment c event (some p) = do p' ← handle_payment c event p; pure (some p')

-- What the event does: the payment that it was about, if any.
unfoldable pub handle : Context → WebhookEvent → Tx Db (Option Payment)
unfolding known_payment
handle c event = do found ← gets (event_payment event.object); known_payment c event found

-- `payment.id if payment else None`.
pub id_of : Option Payment → Option ℕ
id_of none = none
id_of (some p) = some p.id

pub processed_row : Context → WebhookEvent → Option Payment → PaymentEvent
unfolding id_of
processed_row c event p = record {
  provider = "stripe";
  provider_event_id = event.id;
  event_type = event.event_type;
  payment_id = id_of p;
  status = "processed";
  attempts = 1;
  last_error = none;
  processed_at = some c.now;
}

pub reprocessed : Context → Option Payment → PaymentEvent → PaymentEvent
unfolding id_of
reprocessed c p e = record e {
  status = "processed";
  attempts = e.attempts + 1;
  last_error = none;
  processed_at = some c.now;
  payment_id = id_of p;
}

-- The row of an event is written over, or added (`PaymentRepository.add_event`).
unfoldable pub record_event : String → (PaymentEvent → PaymentEvent) → PaymentEvent → Db → Db
record_event event_id change row db = record db {
  payment_events =
      if is_some (get_event event_id db)
      then update (has_event_id event_id) change db.payment_events
      else add row db.payment_events;
}

unfoldable pub record_processed : Context → WebhookEvent → Option Payment → Db → Db
unfolding record_event processed_row reprocessed
record_processed c event p = record_event event.id (reprocessed c p) (processed_row c event p)

pub failed_row : WebhookEvent → String → PaymentEvent
failed_row event text = record {
  provider = "stripe";
  provider_event_id = event.id;
  event_type = event.event_type;
  payment_id = none;
  status = "failed";
  attempts = 1;
  last_error = some text;
  processed_at = none;
}

pub failed_again : String → PaymentEvent → PaymentEvent
failed_again text e = record e {
  status = "failed";
  attempts = e.attempts + 1;
  last_error = some text;
}

unfoldable pub record_failed : WebhookEvent → String → Db → Db
unfolding record_event failed_row failed_again
record_failed event text = record_event event.id (failed_again text) (failed_row event text)

-- A `PaymentError` is raised again; what else went wrong is answered as one.
unfoldable pub raised_again : Error → Error
raised_again (payment_error e) = payment_error e
raised_again e = payment_error webhook_failed

-- The `try`: what it does if its block ends without an exception, and the handler.
unfoldable pub after_handling :
    Context → WebhookEvent → Outcome (Option Payment) → Tx Db (String × Bool)
unfolding raised_again
after_handling c event (ok p) = do
  modify (record_processed c event p)
  commit
  pure (event.id, false)
after_handling c event (err e) = do
  rollback
  modify (record_failed event (c.text_of e))
  commit
  raise (raised_again e)

unfoldable pub process_event : Context → WebhookEvent → Tx Db (String × Bool)
process_event c event = do outcome ← attempt (handle c event); after_handling c event outcome

unfoldable pub is_processed : Option PaymentEvent → Bool
is_processed none = false
is_processed (some e) = e.status == "processed"

-- The Boolean says that the event had been processed before.
unfoldable pub process_webhook : Context → PaymentProvider → String → String → Tx Db (String × Bool)
process_webhook c provider body signature = do
  event ← lift (provider.verify_webhook body signature)
  recorded ← gets (get_event event.id)
  if is_processed recorded then pure (event.id, true) else process_event c event
