-- ===== src/Payments/Intents.antt =====
-- apps/api/app/domains/payments/service.py: how a payment is opened (`create_intent`,
-- `create_professional_lead_intent`) and captured (`capture`).
pub mod Replay
use breero_com.Prelude.{
  Bool, List, Option, String, [], add, concat, find, if◌then◌else◌, is_present, is_some, leb,
  nat_eq, none, not, option_eq, or_else, some, string_eq, true, update, upper, ℕ, ◌&&◌, ◌++◌, ◌==◌,
  ◌∷◌,
}
use breero_com.Models.{
  BookingStatus, Db, IdempotencyRecord, Payment, PaymentPurpose, PaymentStatus, WorkRequestStatus,
  booking_status_eq, payment_purpose_eq, payment_status_eq, work_request_status_eq,
}
use breero_com.Errors.{
  booking_amount_mismatch, booking_not_payable, booking_reference_required,
  capture_exceeds_authorized, intent_booking_missing, intent_quote_missing, key_in_progress,
  key_reused, lead_payment_misrouted, not_capturable, payment_error, payment_missing,
  quote_amount_mismatch, quote_not_payable, quote_reference_required, stored_payment_missing,
}
use breero_com.Context.{Context}
use breero_com.Session.{
  Tx, commit, found_or, gets, guard, lift, modify, pure, require, when, ◌>>=◌, ◌>>◌,
}
use breero_com.Payments.{
  PaymentProvider, ProviderIntent, add_payment, booking_of, get_payment, put_payment, quote_of,
  stripe_status,
}
use breero_com.Payments.Settle.{settle}

pub record PaymentIntentCreate : Type 0 where
  pub booking_id : Option ℕ
  pub quote_id : Option ℕ
  pub payment_purpose : PaymentPurpose
  pub amount_minor : ℕ
  pub currency : String
  pub capture_method : String
  pub metadata : List (String × String)

abbrev pub has_key : String → String → IdempotencyRecord → Bool
has_key operation key r = r.operation == operation && r.idempotency_key == key

-- `PaymentRepository.get_idempotency`.
abbrev pub get_idempotency : String → String → Db → Option IdempotencyRecord
get_idempotency operation key db = find (has_key operation key) db.idempotency_records

-- The stored answer of a key that was used before.
unfoldable pub replay : ℕ → IdempotencyRecord → Tx Db Payment
replay request_hash existing = do
  guard (existing.request_hash == request_hash) (payment_error key_reused)
  payment_id ← require existing.response_body (payment_error key_in_progress)
  found ← gets (get_payment payment_id)
  require found (payment_error stored_payment_missing)

-- The checks of a payment for a booking: the total is in hundredths, as the amount is.
unfoldable pub check_booking : PaymentIntentCreate → Tx Db (Unit {0})
check_booking payload = do
  guard (is_some payload.booking_id && not (is_some payload.quote_id))
      (payment_error booking_reference_required)
  found ← gets (booking_of payload.booking_id)
  booking ← require found (payment_error intent_booking_missing)
  guard
      (payload.amount_minor == booking.total_amount
        && upper payload.currency == upper booking.currency)
      (payment_error booking_amount_mismatch)
  guard (booking.status == BookingStatus.pending_payment) (payment_error booking_not_payable)

unfoldable pub check_quote : PaymentIntentCreate → Tx Db (Unit {0})
check_quote payload = do
  guard (is_some payload.quote_id && not (is_some payload.booking_id))
      (payment_error quote_reference_required)
  found ← gets (quote_of payload.quote_id)
  quote ← require found (payment_error intent_quote_missing)
  guard (quote.status == WorkRequestStatus.approved_pending_payment)
      (payment_error quote_not_payable)
  guard
      (payload.amount_minor == quote.total_minor && upper payload.currency == upper quote.currency)
      (payment_error quote_amount_mismatch)

unfoldable pub check_reference : PaymentIntentCreate → Tx Db (Unit {0})
unfolding check_booking check_quote
check_reference payload =
    if payload.payment_purpose == PaymentPurpose.booking_diagnostic
    then check_booking payload
    else check_quote payload

-- The metadata with the reference that the service adds to it: a `dict`, whose later entry for a key
-- replaces the earlier one.
unfoldable pub set_entry : String → String → List (String × String) → List (String × String)
set_entry key value [] = (key, value) ∷ []
set_entry key value ((k, v) ∷ rest) =
    let others = set_entry key value rest in
    if k == key then (key, value) ∷ rest else (k, v) ∷ others

unfoldable pub with_reference : Context → PaymentIntentCreate → List (String × String)
unfolding set_entry
with_reference c payload =
    if payload.payment_purpose == PaymentPurpose.booking_diagnostic
    then set_entry "booking_id" (c.str (or_else payload.booking_id 0)) payload.metadata
    else set_entry "quote_id" (c.str (or_else payload.quote_id 0)) payload.metadata

unfoldable pub new_payment : Context → PaymentIntentCreate → ProviderIntent → Payment
unfolding with_reference
new_payment c payload intent = record {
  id = c.uuid 1;
  booking_id = payload.booking_id;
  quote_id = payload.quote_id;
  lead_purchase_id = none;
  payment_purpose = payload.payment_purpose;
  provider = "stripe";
  provider_payment_id = some intent.id;
  status = stripe_status intent.status PaymentStatus.created;
  amount_minor = payload.amount_minor;
  currency = payload.currency;
  captured_amount_minor = intent.amount_received;
  provider_client_secret = intent.client_secret;
  failure_code = none;
  metadata = with_reference c payload;
}

-- The record of a key whose request is being processed.
unfoldable pub pending_record : ℕ → String → IdempotencyRecord
pending_record request_hash key = record {
  operation = "create_intent";
  idempotency_key = key;
  request_hash = request_hash;
  response_code = none;
  response_body = none;
}

-- `PaymentRepository.add_idempotency`.
unfoldable pub add_idempotency : IdempotencyRecord → Db → Db
add_idempotency r db = record db { idempotency_records = add r db.idempotency_records }

abbrev pub completed_record : ℕ → IdempotencyRecord → IdempotencyRecord
completed_record payment_id r = record r {
  response_code = some 201;
  response_body = some payment_id;
}

unfoldable pub complete_key : String → ℕ → Db → Db
complete_key key payment_id db = record db {
  idempotency_records =
      update (has_key "create_intent" key) (completed_record payment_id) db.idempotency_records;
}

-- `create_intent` behind the lookup of its key.
unfoldable pub open_intent :
    Context → PaymentProvider → ℕ → PaymentIntentCreate → String → Tx Db Payment
open_intent c provider request_hash payload key = do
  check_reference payload
  modify (add_idempotency (pending_record request_hash key))
  intent ← lift (
      provider.create_intent payload.amount_minor payload.currency payload.capture_method
        (with_reference c payload) key)
  let p = new_payment c payload intent
  modify (add_payment p)
  modify (complete_key key p.id)
  commit
  pure p

unfoldable pub replay_or_open :
    Context
    → PaymentProvider
    → ℕ
    → PaymentIntentCreate
    → String
    → Option IdempotencyRecord
    → Tx Db Payment
replay_or_open c provider request_hash payload key none =
    open_intent c provider request_hash payload key
replay_or_open c provider request_hash payload key (some existing) = replay request_hash existing

-- `create_intent`, with the hash of the payload that `_hash` makes.
unfoldable pub create_intent :
    Context
    → PaymentProvider
    → (PaymentIntentCreate → ℕ)
    → PaymentIntentCreate
    → String
    → Tx Db Payment
create_intent c provider hash payload key = do
  guard (not (payload.payment_purpose == PaymentPurpose.professional_lead))
      (payment_error lead_payment_misrouted)
  existing ← gets (get_idempotency "create_intent" key)
  replay_or_open c provider (hash payload) payload key existing

unfoldable pub lead_metadata : Context → ℕ → ℕ → ℕ → List (String × String)
lead_metadata c lead_purchase_id lead_id provider_id =
    ("lead_purchase_id", c.str lead_purchase_id)
    ∷ ("lead_id", c.str lead_id)
    ∷ ("provider_id", c.str provider_id)
    ∷ []

unfoldable pub new_lead_payment :
    Context → ℕ → ℕ → String → List (String × String) → ProviderIntent → Payment
new_lead_payment c lead_purchase_id amount_minor currency metadata intent = record {
  id = c.uuid 1;
  booking_id = none;
  quote_id = none;
  lead_purchase_id = some lead_purchase_id;
  payment_purpose = PaymentPurpose.professional_lead;
  provider = "stripe";
  provider_payment_id = some intent.id;
  status = stripe_status intent.status PaymentStatus.created;
  amount_minor = amount_minor;
  currency = upper currency;
  captured_amount_minor = intent.amount_received;
  provider_client_secret = intent.client_secret;
  failure_code = none;
  metadata = metadata;
}

unfoldable pub open_lead_intent :
    Context → PaymentProvider → ℕ → ℕ → String → ℕ → ℕ → String → Tx Db Payment
unfolding lead_metadata new_lead_payment
open_lead_intent c provider lead_purchase_id amount_minor currency provider_id lead_id key = do
  let metadata = lead_metadata c lead_purchase_id lead_id provider_id
  intent ← lift (
      provider.create_intent amount_minor currency "automatic"
        (metadata ++ ("purpose", "PROFESSIONAL_LEAD") ∷ []) (concat "professional-lead:" key))
  let p = new_lead_payment c lead_purchase_id amount_minor currency metadata intent
  modify (add_payment p)
  pure p

-- `create_professional_lead_intent`. It does not commit: its caller does.
unfoldable pub create_professional_lead_intent :
    Context → PaymentProvider → ℕ → ℕ → String → ℕ → ℕ → String → Tx Db Payment
unfolding open_lead_intent
create_professional_lead_intent c provider lead_purchase_id amount_minor currency provider_id
      lead_id key =
    do
      existing ← gets (λ db. find (λ p. p.lead_purchase_id == some lead_purchase_id) db.payments)
      found_or existing (
          open_lead_intent c provider lead_purchase_id amount_minor currency provider_id lead_id
            key)

within : Option ℕ → ℕ → Bool
within none limit = true
within (some amount) limit = leb amount limit

pub captured_payment : Payment → ProviderIntent → Payment
captured_payment p intent = record p {
  status = stripe_status intent.status p.status;
  captured_amount_minor = intent.amount_received;
}

-- `capture` behind its guards.
unfoldable pub capture_authorized :
    Context → PaymentProvider → Option ℕ → String → String → Payment → Tx Db Payment
unfolding captured_payment
capture_authorized c provider amount_minor key provider_payment_id p = do
  intent ← lift (provider.capture_intent provider_payment_id amount_minor key)
  let p' = captured_payment p intent
  modify (put_payment p')
  when (p'.status == PaymentStatus.captured) (settle c p')
  commit
  pure p'

unfoldable pub capture_loaded :
    Context → PaymentProvider → Option ℕ → String → Payment → Tx Db Payment
unfolding within
capture_loaded c provider amount_minor key p =
    if p.status == PaymentStatus.captured then pure p else do
      guard (p.status == PaymentStatus.authorized && is_present p.provider_payment_id)
          (payment_error not_capturable)
      guard (within amount_minor p.amount_minor) (payment_error capture_exceeds_authorized)
      capture_authorized c provider amount_minor key (or_else p.provider_payment_id "") p

unfoldable pub capture : Context → PaymentProvider → ℕ → Option ℕ → String → Tx Db Payment
unfolding capture_loaded
capture c provider payment_id amount_minor key = do
  found ← gets (get_payment payment_id)
  p ← require found (payment_error payment_missing)
  capture_loaded c provider amount_minor key p
