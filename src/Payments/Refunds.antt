-- ===== src/Payments/Refunds.antt =====
-- apps/api/app/domains/payments/service.py: `refund`.
pub mod Balance
use breero_com.Prelude.{
  Bool, List, Option, String, [], add, find, if◌then◌else◌, is_present, leb, lookup, ltb, nat_eq,
  not, one_of, option_eq, or_else, some, string_eq, sum, ℕ, ◌&&◌, ◌-◌, ◌==◌, ◌||◌, ◌∷◌,
}
use breero_com.Models.{
  Db, IntegrationEvent, Payment, PaymentStatus, Refund, RefundStatus, captured, partially_refunded,
  payment_status_eq, refund_status_eq, succeeded,
}
use breero_com.Errors.{not_refundable, payment_error, payment_missing, refund_exceeds_balance}
use breero_com.Context.{Context, new_event, publish, record_audit}
use breero_com.Session.{
  Tx, commit, found_or, gets, guard, lift, modify, pure, require, when, ◌>>=◌, ◌>>◌,
}
use breero_com.Payments.{PaymentProvider, ProviderRefund, get_payment, put_payment}
use breero_com.Payments.Settle.{mark_lead_purchase_refunded}

-- The refunds of a payment that are made or on their way.
abbrev pub active_statuses : List RefundStatus
active_statuses = RefundStatus.pending ∷ RefundStatus.succeeded ∷ []

abbrev pub is_active : ℕ → Refund → Bool
is_active payment_id r = r.payment_id == payment_id && one_of r.status active_statuses

abbrev pub refund_amount : Refund → ℕ
refund_amount r = r.amount_minor

abbrev pub refunded : ℕ → Db → ℕ
refunded payment_id db = sum (is_active payment_id) refund_amount db.refunds

-- `PaymentRepository.refund_by_key`.
abbrev pub refund_by_key : ℕ → String → Db → Option Refund
refund_by_key payment_id key db =
    find (λ r. r.payment_id == payment_id && r.idempotency_key == key) db.refunds

refund_statuses : List (String × RefundStatus)
refund_statuses =
    ("pending", RefundStatus.pending)
    ∷ ("succeeded", RefundStatus.succeeded)
    ∷ ("failed", RefundStatus.failed)
    ∷ ("canceled", RefundStatus.canceled)
    ∷ []

-- `RefundStatus(status)`, of a text that is one.
pub refund_status_of : String → Option RefundStatus
unfolding refund_statuses
refund_status_of status = lookup status refund_statuses

pub record RefundRequest : Type 0 where
  pub payment_id : ℕ
  pub amount_minor : Option ℕ
  pub key : String
  pub actor_id : ℕ
  pub reason : Option String

pub new_refund : Context → RefundRequest → ℕ → ℕ → ProviderRefund → Refund
unfolding refund_status_of
new_refund c req payment_id amount reply = record {
  id = c.uuid 4;
  payment_id = payment_id;
  amount_minor = amount;
  status = or_else (refund_status_of reply.status) RefundStatus.pending;
  provider_refund_id = some reply.id;
  idempotency_key = req.key;
  reason = req.reason;
  created_by = req.actor_id;
}

abbrev pub add_refund : Refund → Db → Db
add_refund r db = record db { refunds = add r db.refunds }

refund_event : Context → Payment → Refund → IntegrationEvent
refund_event c p r =
    new_event c (c.uuid 5) "payment" p.id "refund_created"
      (("payment_id", p.id) ∷ ("refund_id", r.id) ∷ ("amount_minor", r.amount_minor) ∷ [])

-- The payment once the refund has succeeded: `requested == remaining` tells a full refund.
pub refunded_payment : Payment → ℕ → ℕ → Payment
refunded_payment p amount remaining = record p {
  status = if amount == remaining then PaymentStatus.refunded else PaymentStatus.partially_refunded;
}

unfoldable pub mark_payment_refunded : Payment → Tx Db (Unit {0})
mark_payment_refunded p = do modify (put_payment p); mark_lead_purchase_refunded p

-- `provider_status.value`.
refund_status_text : RefundStatus → String
refund_status_text RefundStatus.pending = "pending"
refund_status_text RefundStatus.succeeded = "succeeded"
refund_status_text RefundStatus.failed = "failed"
refund_status_text RefundStatus.canceled = "canceled"

audit_entries : Context → Payment → Refund → List (String × String)
unfolding refund_status_text
audit_entries c p r =
    ("amount_minor", c.str r.amount_minor)
    ∷ ("currency", p.currency)
    ∷ ("reason", or_else r.reason "")
    ∷ ("provider_refund_id", or_else r.provider_refund_id "")
    ∷ ("provider_status", refund_status_text r.status)
    ∷ []

unfoldable pub finish_refund : Context → Payment → Refund → ℕ → Tx Db Refund
unfolding refund_event mark_payment_refunded refunded_payment audit_entries
finish_refund c p r remaining = do
  modify (record_audit c (some r.created_by) "refund.create" "payment" p.id (audit_entries c p r))
  when (r.status == RefundStatus.succeeded)
      (mark_payment_refunded (refunded_payment p r.amount_minor remaining))
  modify (publish (refund_event c p r))
  commit
  pure r

-- What `refund` writes, once the provider has answered.
unfoldable pub store_refund : Context → Payment → Refund → ℕ → Tx Db Refund
store_refund c p r remaining = do modify (add_refund r); finish_refund c p r remaining

-- `refund` once the balance that is left is known. Python's `remaining` may be negative, where the one
-- here is 0: either way no positive amount passes the guard.
unfoldable pub request_refund :
    Context → PaymentProvider → RefundRequest → String → Payment → ℕ → Tx Db Refund
unfolding new_refund
request_refund c provider req provider_payment_id p remaining = do
  let amount = or_else req.amount_minor remaining
  guard (not (leb amount 0 || ltb remaining amount)) (payment_error refund_exceeds_balance)
  reply ← lift (provider.create_refund provider_payment_id amount req.key)
  store_refund c p (new_refund c req p.id amount reply) remaining

-- `refund` behind the lookup of its key.
unfoldable pub new_refund_for :
    Context → PaymentProvider → RefundRequest → String → Payment → Tx Db Refund
new_refund_for c provider req provider_payment_id p = do
  guard (one_of p.status (PaymentStatus.captured ∷ PaymentStatus.partially_refunded ∷ []))
      (payment_error not_refundable)
  already ← gets (refunded p.id)
  request_refund c provider req provider_payment_id p (p.captured_amount_minor - already)

unfoldable pub refund_loaded : Context → PaymentProvider → RefundRequest → Payment → Tx Db Refund
refund_loaded c provider req p = do
  guard (is_present p.provider_payment_id) (payment_error payment_missing)
  existing ← gets (refund_by_key p.id req.key)
  found_or existing (new_refund_for c provider req (or_else p.provider_payment_id "") p)

unfoldable pub refund : Context → PaymentProvider → RefundRequest → Tx Db Refund
unfolding refund_loaded
refund c provider req = do
  found ← gets (get_payment req.payment_id)
  p ← require found (payment_error payment_missing)
  refund_loaded c provider req p
