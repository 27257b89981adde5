-- ===== src/Payments/OneJob.antt =====
-- apps/api/app/domains/payments/service.py: the jobs of a booking under the payment commands.
use breero_com.Prelude.{List, Option, String, none, refl, some, ℕ}
use breero_com.Models.{Db, IdempotencyRecord, IntegrationEvent, Payment, Refund}
use breero_com.Context.{Context, publish, record_audit}
use breero_com.Session.{Outcome, Session, Tx, err, modify, ok, pure, ◌>>=◌}
use breero_com.Session.Keeps.{Keeps, keeps_rules}
use breero_com.Payments.{PaymentProvider, WebhookEvent, add_payment, put_payment}
use breero_com.Payments.Settle.Keeps.{mark-Keeps, settle-Keeps}
use breero_com.Payments.Settle.OneJob.{
  IsOneJobSession, OneJob-commit, OneJob-modify, OneJob-rollback, one_job,
}
use breero_com.Payments.Intents.{
  PaymentIntentCreate, add_idempotency, capture, capture_authorized, capture_loaded, check_booking,
  check_quote, check_reference, complete_key, create_intent, open_intent, replay, replay_or_open,
}
use breero_com.Payments.Refunds.{
  RefundRequest, add_refund, finish_refund, mark_payment_refunded, new_refund_for, refund_loaded,
  request_refund, store_refund,
}
use breero_com.Payments.Webhooks.{
  after_handling, handle, process_event, process_webhook, record_event, record_failed,
  record_processed,
}
use breero_com.Payments.Webhooks.Frame.{handle-Keeps}
use breero_com.Payments.Refunds.{refund}

put_payment-IsOneJob : (p : Payment) → Keeps IsOneJobSession (modify (put_payment p))
put_payment-IsOneJob p = OneJob-modify _ (λ db. refl)

module _ (c : Context) (provider : PaymentProvider) (hash : PaymentIntentCreate → ℕ)
    (payload : PaymentIntentCreate) (key : String) where
  check-IsOneJob : (payload : PaymentIntentCreate) → Keeps IsOneJobSession (check_reference payload)
  unfolding check_reference check_booking check_quote
  check-IsOneJob payload = search keeps_rules depth 24

  add_key-IsOneJob : (r : IdempotencyRecord) → Keeps IsOneJobSession (modify (add_idempotency r))
  unfolding add_idempotency
  add_key-IsOneJob r = OneJob-modify _ (λ db. refl)

  add_payment-IsOneJob : (p : Payment) → Keeps IsOneJobSession (modify (add_payment p))
  add_payment-IsOneJob p = OneJob-modify _ (λ db. refl)

  complete-IsOneJob : (k : String) (id : ℕ) → Keeps IsOneJobSession (modify (complete_key k id))
  unfolding complete_key
  complete-IsOneJob k id = OneJob-modify _ (λ db. refl)

  replay_or_open-IsOneJob :
      (o : Option IdempotencyRecord)
      → Keeps IsOneJobSession (replay_or_open c provider (hash payload) payload key o)
  unfolding replay_or_open open_intent replay
  replay_or_open-IsOneJob none =
      search
        (
          keeps_rules, OneJob-commit, check-IsOneJob, add_key-IsOneJob, add_payment-IsOneJob,
          complete-IsOneJob,
        )
        depth 24
  replay_or_open-IsOneJob (some r) = search keeps_rules depth 16

  create_intent-IsOneJob : Keeps IsOneJobSession (create_intent c provider hash payload key)
  unfolding create_intent
  create_intent-IsOneJob = search (keeps_rules, replay_or_open-IsOneJob) depth 16

capture-IsOneJob :
    (c : Context) (provider : PaymentProvider) (payment_id : ℕ) (amount_minor : Option ℕ)
    (key : String)
    → Keeps IsOneJobSession (capture c provider payment_id amount_minor key)
unfolding capture capture_loaded capture_authorized
capture-IsOneJob c provider payment_id amount_minor key =
    search (keeps_rules, OneJob-commit, put_payment-IsOneJob, settle-Keeps one_job) depth 24

module _ (c : Context) where
  add_refund-IsOneJob : (r : Refund) → Keeps IsOneJobSession (modify (add_refund r))
  add_refund-IsOneJob r = OneJob-modify _ (λ db. refl)

  audit-IsOneJob :
      (actor_id : Option ℕ) (action kind : String) (id : ℕ) (metadata : List (String × String))
      → Keeps IsOneJobSession (modify (record_audit c actor_id action kind id metadata))
  audit-IsOneJob actor_id action kind id metadata = OneJob-modify _ (λ db. refl)

  publish-IsOneJob : (e : IntegrationEvent) → Keeps IsOneJobSession (modify (publish e))
  publish-IsOneJob e = OneJob-modify _ (λ db. refl)

  store-IsOneJob :
      (p : Payment) (r : Refund) (remaining : ℕ)
      → Keeps IsOneJobSession (store_refund c p r remaining)
  unfolding store_refund finish_refund mark_payment_refunded
  store-IsOneJob p r remaining =
      search
        (
          keeps_rules,
          OneJob-commit,
          add_refund-IsOneJob,
          audit-IsOneJob,
          publish-IsOneJob,
          put_payment-IsOneJob,
          mark-Keeps one_job,
        )
        depth 24

  refund-IsOneJob :
      (provider : PaymentProvider) (req : RefundRequest)
      → Keeps IsOneJobSession (refund c provider req)
  unfolding refund refund_loaded new_refund_for request_refund
  refund-IsOneJob provider req = search (keeps_rules, store-IsOneJob) depth 24

module _ (c : Context) where
  handle-IsOneJob : (event : WebhookEvent) → Keeps IsOneJobSession (handle c event)
  handle-IsOneJob event =
      handle-Keeps one_job put_payment-IsOneJob (λ r. OneJob-modify _ (λ db. refl)) c event

  processed-IsOneJob :
      (event : WebhookEvent) (p : Option Payment)
      → Keeps IsOneJobSession (modify (record_processed c event p))
  unfolding record_processed record_event
  processed-IsOneJob event p = OneJob-modify _ (λ db. refl)

  failed-IsOneJob :
      (event : WebhookEvent) (text : String)
      → Keeps IsOneJobSession (modify (record_failed event text))
  unfolding record_failed record_event
  failed-IsOneJob event text = OneJob-modify _ (λ db. refl)

  after-IsOneJob :
      (event : WebhookEvent) (r : Outcome (Option Payment))
      → Keeps IsOneJobSession (after_handling c event r)
  unfolding after_handling
  after-IsOneJob event (ok p) = search (keeps_rules, OneJob-commit, processed-IsOneJob) depth 16
  after-IsOneJob event (err e) =
      search (keeps_rules, OneJob-commit, OneJob-rollback, failed-IsOneJob) depth 16

  webhook-IsOneJob :
      (provider : PaymentProvider) (body signature : String)
      → Keeps IsOneJobSession (process_webhook c provider body signature)
  unfolding process_webhook process_event
  webhook-IsOneJob provider body signature =
      search (keeps_rules, handle-IsOneJob, after-IsOneJob) depth 16

-- The commands of the payment service, each with what the provider answers.
pub data Command : Type 0 where
  create : PaymentProvider → (PaymentIntentCreate → ℕ) → PaymentIntentCreate → String → Command
  take : PaymentProvider → ℕ → Option ℕ → String → Command
  give_back : PaymentProvider → RefundRequest → Command
  notify : PaymentProvider → String → String → Command

pub run : Context → Command → Tx Db (Unit {0})
run c (create provider hash payload key) =
    create_intent c provider hash payload key >>= λ _. pure tt
run c (take provider payment_id amount_minor key) =
    capture c provider payment_id amount_minor key >>= λ _. pure tt
run c (give_back provider req) = refund c provider req >>= λ _. pure tt
run c (notify provider body signature) = process_webhook c provider body signature >>= λ _. pure tt

run-IsOneJob : (c : Context) (command : Command) → Keeps IsOneJobSession (run c command)
unfolding run
run-IsOneJob c (create provider hash payload key) = search (keeps_rules, create_intent-IsOneJob)
run-IsOneJob c (take provider payment_id amount_minor key) = search (keeps_rules, capture-IsOneJob)
run-IsOneJob c (give_back provider req) = search (keeps_rules, refund-IsOneJob)
run-IsOneJob c (notify provider body signature) = search (keeps_rules, webhook-IsOneJob)

-- Where no booking has two jobs, in what is saved and in what the session sees, no payment command
-- gives a booking a second one, whether it returns or raises and whatever the provider answers: not a
-- capture that is repeated, nor a notification that comes again or after a capture.
pub one_job_per_booking :
    (c : Context) (command : Command) (s : Session Db)
    → IsOneJobSession s
    → IsOneJobSession (run c command s).1
one_job_per_booking c command s h = (run-IsOneJob c command).kept s h
