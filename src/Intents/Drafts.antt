-- ===== src/Intents/Drafts.antt =====
-- apps/api/app/domains/booking_intents/service.py: the row of an intent, its creation, and what every
-- request on it begins and ends with.
use breero_com.Prelude.{
  Bool, List, Option, String, [], add, false, get, if◌then◌else◌, leb, nat_eq, none, not, one_of,
  put, some, ℕ, ◌&&◌, ◌+◌, ◌==◌, ◌∷◌,
}
use breero_com.Models.{
  Address, BookingIntent, BookingIntentStatus, Db, Service, booking_intent_status_eq,
}
use breero_com.Errors.{intent_expired, intent_not_found, service_not_found, version_conflict}
use breero_com.Context.{Context, record_audit}
use breero_com.Session.{Tx, commit, gets, guard, modify, pure, raise, require, ◌>>=◌, ◌>>◌}

-- Two hours.
abbrev booking_intent_ttl : ℕ
booking_intent_ttl = 7200

abbrev pub editable_statuses : List BookingIntentStatus
editable_statuses =
    BookingIntentStatus.draft ∷ BookingIntentStatus.address_validated
    ∷ BookingIntentStatus.coverage_confirmed ∷ BookingIntentStatus.availability_found ∷ []

abbrev pub intent_id_of : BookingIntent → ℕ
intent_id_of i = i.id

abbrev pub get_intent : ℕ → Db → Option BookingIntent
get_intent intent_id db = get intent_id_of intent_id db.booking_intents

abbrev put_intent : BookingIntent → Db → Db
put_intent intent db = record db { booking_intents = put intent_id_of intent db.booking_intents }

abbrev pub add_intent : BookingIntent → Db → Db
add_intent intent db = record db { booking_intents = add intent db.booking_intents }

-- `_audit`.
unfoldable pub audit_intent : Context → BookingIntent → String → Db → Db
audit_intent c intent action = record_audit c none action "booking_intent" intent.id (
    ("public_reference", intent.public_reference)
    ∷ ("anonymous_session_id", c.str intent.anonymous_session_id)
    ∷ ("version", c.str intent.version)
    ∷ [])

-- `_active_service`.
abbrev pub is_active_service : Option Service → Bool
is_active_service none = false
is_active_service (some service) = service.is_active

abbrev pub get_service : ℕ → Db → Option Service
get_service service_id db = get (λ x. x.id) service_id db.services

abbrev pub get_address : ℕ → Db → Option Address
get_address address_id db = get (λ x. x.id) address_id db.addresses

unfoldable pub new_intent : Context → ℕ → ℕ → BookingIntent
new_intent c service_id session_id = record {
  id = c.uuid 0;
  public_reference = c.token;
  anonymous_session_id = session_id;
  service_id = service_id;
  address_id = none;
  timezone_id = none;
  requested_date = none;
  selected_slot = none;
  status = BookingIntentStatus.draft;
  expires_at = c.now + booking_intent_ttl;
  version = 1;
  booking_id = none;
}

-- `create`.
unfoldable pub create_intent_row : Context → ℕ → ℕ → Tx Db BookingIntent
create_intent_row c service_id session_id = do
  service ← gets (get_service service_id)
  guard (is_active_service service) service_not_found
  let intent = new_intent c service_id session_id
  modify (add_intent intent)
  modify (audit_intent c intent "booking_intent.create")
  commit
  pure intent

-- `BookingIntentRepository.owned`: of the one row that the primary key selects.
abbrev pub owned_by : ℕ → Option BookingIntent → Option BookingIntent
owned_by session_id none = none
owned_by session_id (some i) = if i.anonymous_session_id == session_id then some i else none

abbrev pub owned : ℕ → ℕ → Db → Option BookingIntent
owned intent_id session_id db = owned_by session_id (get_intent intent_id db)

-- The end of every change of a loaded intent.
unfoldable pub store_intent : Context → BookingIntent → String → Tx Db BookingIntent
store_intent c intent action = do
  modify (put_intent intent)
  modify (audit_intent c intent action)
  commit
  pure intent

abbrev pub lapsed : BookingIntent → BookingIntent
lapsed intent = record intent {
  status = BookingIntentStatus.expired;
  selected_slot = none;
  version = intent.version + 1;
}

abbrev final_statuses : List BookingIntentStatus
final_statuses = BookingIntentStatus.expired ∷ BookingIntentStatus.submitted ∷ []

abbrev pub is_final : BookingIntent → Bool
is_final i = one_of i.status final_statuses

abbrev pub is_overdue : ℕ → BookingIntent → Bool
is_overdue now i = not (is_final i) && leb i.expires_at now

-- `_reject_expired`, in front of the rest of a request: an intent that is overdue is stored as
-- expired before the request is refused.
unfoldable pub unless_expired : {A : Type 0} → Context → BookingIntent → Tx Db A → Tx Db A
unless_expired c intent rest =
    if is_overdue c.now intent
    then (store_intent c (lapsed intent) "booking_intent.expire" >>= λ _. raise intent_expired)
    else if intent.status == BookingIntentStatus.expired
    then raise intent_expired
    else rest

abbrev pub require_version : {A : Type 0} → BookingIntent → ℕ → Tx Db A → Tx Db A
require_version intent expected rest =
    guard (intent.version == expected) (version_conflict intent.version) >>= λ _. rest

-- `get`.
unfoldable pub read_intent : Context → ℕ → ℕ → Tx Db BookingIntent
read_intent c intent_id session_id = do
  found ← gets (owned intent_id session_id)
  intent ← require found intent_not_found
  unless_expired c intent (pure intent)
