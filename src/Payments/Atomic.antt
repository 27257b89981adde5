-- ===== src/Payments/Atomic.antt =====
-- apps/api/app/domains/payments/service.py: `create_intent`, `capture` and `refund` where they raise.
use breero_com.Prelude.{Option, String, none, some, ℕ, ◌≡◌}
use breero_com.Models.{Db, IdempotencyRecord, Payment, Refund}
use breero_com.Errors.{Error}
use breero_com.Context.{Context}
use breero_com.Session.{answer, request}
use breero_com.Session.Keeps.{Keeps, keeps_rules}
use breero_com.Session.Atomic.{
  IsAtomic, IsUncommitted, Uncommitted-modify, atomic_rules, request-IsAtomic,
}
use breero_com.Payments.{PaymentProvider}
use breero_com.Payments.Settle.Keeps.{
  SettleKeeps, create_missing_job-Keeps, mark-Keeps, resume_paid_job-Keeps, settle-Keeps,
}
use breero_com.Payments.Intents.{
  PaymentIntentCreate, capture, capture_authorized, capture_loaded, check_booking, check_quote,
  check_reference, create_intent, open_intent, replay, replay_or_open,
}
use breero_com.Payments.Refunds.{
  RefundRequest, finish_refund, mark_payment_refunded, new_refund_for, refund_loaded,
  request_refund, store_refund,
}
use breero_com.Payments.Refunds.{refund}

module _ {db : Db} where
  uncommitted : SettleKeeps (IsUncommitted db)
  uncommitted = record {
    purchase = λ p. Uncommitted-modify _;
    lead = λ l. Uncommitted-modify _;
    request = λ r. Uncommitted-modify _;
    booking = λ b. Uncommitted-modify _;
    event = λ e. Uncommitted-modify _;
    paid_job = resume_paid_job-Keeps (λ event j. Uncommitted-modify _);
    missing_job = create_missing_job-Keeps (λ c b. Uncommitted-modify _);
  }

  check-IsUncommitted :
      (payload : PaymentIntentCreate) → Keeps (IsUncommitted db) (check_reference payload)
  unfolding check_reference check_booking check_quote
  check-IsUncommitted payload = search keeps_rules depth 24

  replay_or_open-IsAtomic :
      (c : Context) (provider : PaymentProvider) (request_hash : ℕ) (payload : PaymentIntentCreate)
      (key : String) (o : Option IdempotencyRecord)
      → IsAtomic db (replay_or_open c provider request_hash payload key o)
  unfolding replay_or_open open_intent replay
  replay_or_open-IsAtomic c provider request_hash payload key none =
      search (atomic_rules, check-IsUncommitted) depth 24
  replay_or_open-IsAtomic c provider request_hash payload key (some r) =
      search atomic_rules depth 16

  create_intent-IsAtomic :
      (c : Context) (provider : PaymentProvider) (hash : PaymentIntentCreate → ℕ)
      (payload : PaymentIntentCreate) (key : String)
      → IsAtomic db (create_intent c provider hash payload key)
  unfolding create_intent
  create_intent-IsAtomic c provider hash payload key =
      search (atomic_rules, replay_or_open-IsAtomic) depth 16

  capture-IsAtomic :
      (c : Context) (provider : PaymentProvider) (payment_id : ℕ) (amount_minor : Option ℕ)
      (key : String)
      → IsAtomic db (capture c provider payment_id amount_minor key)
  unfolding capture capture_loaded capture_authorized
  capture-IsAtomic c provider payment_id amount_minor key =
      search (atomic_rules, settle-Keeps uncommitted) depth 24

  store_refund-IsAtomic :
      (c : Context) (p : Payment) (r : Refund) (remaining : ℕ)
      → IsAtomic db (store_refund c p r remaining)
  unfolding store_refund finish_refund mark_payment_refunded
  store_refund-IsAtomic c p r remaining = search (atomic_rules, mark-Keeps uncommitted) depth 24

  refund-IsAtomic :
      (c : Context) (provider : PaymentProvider) (req : RefundRequest)
      → IsAtomic db (refund c provider req)
  unfolding refund refund_loaded new_refund_for request_refund
  refund-IsAtomic c provider req = search (atomic_rules, store_refund-IsAtomic) depth 24

-- The commands that the payment endpoints serve, each with what the provider answers.
pub data Command : Type 0 where
  create : PaymentProvider → (PaymentIntentCreate → ℕ) → PaymentIntentCreate → String → Command
  take : PaymentProvider → ℕ → Option ℕ → String → Command
  give_back : PaymentProvider → RefundRequest → Command

unfoldable pub run : Context → Command → Db → Option Error × Db
run c (create provider hash payload key) db =
    answer (request (create_intent c provider hash payload key) db)
run c (take provider payment_id amount_minor key) db =
    answer (request (capture c provider payment_id amount_minor key) db)
run c (give_back provider req) db = answer (request (refund c provider req) db)

-- A request to open, capture or refund a payment that raises an exception, an exception of the
-- provider among them, leaves the whole database as it was: no key is taken, no refund is stored, and
-- nothing of what was paid for is settled.
pub payment_atomic :
    (c : Context) (command : Command) (db : Db) (e : Error)
    → (run c command db).0 ≡ some e
    → (run c command db).1 ≡ db
unfolding run
payment_atomic c (create provider hash payload key) db e =
    request-IsAtomic db _ e (create_intent-IsAtomic c provider hash payload key)
payment_atomic c (take provider payment_id amount_minor key) db e =
    request-IsAtomic db _ e (capture-IsAtomic c provider payment_id amount_minor key)
payment_atomic c (give_back provider req) db e =
    request-IsAtomic db _ e (refund-IsAtomic c provider req)
