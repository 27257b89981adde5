-- ===== src/Outbox.antt =====
-- apps/api/app/domains/common/outbox_service.py: the events that the services publish, from the claim
-- by a worker to their delivery. Rows are read in the order of insertion, which is that of
-- `created_at`. A diagnostic is what `re.sub` and the cut leave of the exception's text.
pub mod Claims
pub mod Deliveries
use breero_com.Prelude.{
  Bool, List, Option, String, [], false, get, if◌then◌else◌, leb, length, min, nat_eq, none, one_of,
  option_eq, or_else, put, some, string_eq, suc, zero, ℕ, ◌&&◌, ◌*◌, ◌+◌, ◌-◌, ◌==◌, ◌^◌, ◌||◌, ◌∷◌,
}
use breero_com.Models.{Db, EventStatus, IntegrationEvent, dead_letter, event_status_eq, processing}
use breero_com.Errors.{event_not_found, event_not_retryable, delivery_aborted}
use breero_com.Context.{Context, record_audit}
use breero_com.Session.{Tx, commit, gets, guard, modify, pure, require, ◌>>=◌, ◌>>◌, raise}

abbrev pub max_attempts : ℕ
max_attempts = 5

abbrev pub default_lease_seconds : ℕ
default_lease_seconds = 300

abbrev pub waiting_statuses : List EventStatus
waiting_statuses = EventStatus.pending ∷ EventStatus.retrying ∷ EventStatus.failed_retryable ∷ []

-- `column <= now`: a column that is `NULL` is not.
abbrev pub is_past : Option ℕ → ℕ → Bool
is_past none now = false
is_past (some t) now = leb t now

-- The rows that `claim` selects.
unfoldable pub is_claimable : ℕ → IntegrationEvent → Bool
is_claimable now e =
    (one_of e.status waiting_statuses && leb e.next_attempt_at now)
    || (e.status == EventStatus.processing && is_past e.lease_expires_at now)

-- A row that is claimed, under the token that is drawn for it.
unfoldable pub claimed : ℕ → ℕ → ℕ → IntegrationEvent → IntegrationEvent
claimed now lease_seconds claim_token e = record e {
  status = EventStatus.processing;
  claimed_at = some now;
  lease_expires_at = some (now + lease_seconds);
  claim_token = some claim_token;
  attempt_count = e.attempt_count + 1;
}

module _ (free : IntegrationEvent → Bool) (token_of : IntegrationEvent → ℕ)
    (now lease_seconds : ℕ) where
  -- The rows that a claim takes: at most `limit`, of those that no other transaction has locked.
  unfoldable pub claimed_rows : ℕ → List IntegrationEvent → List IntegrationEvent
  claimed_rows zero events = []
  claimed_rows (suc limit) [] = []
  claimed_rows (suc limit) (e ∷ events) =
      let taken = claimed_rows limit events in
      let passed = claimed_rows (suc limit) events in
      if is_claimable now e && free e
      then claimed now lease_seconds (token_of e) e ∷ taken
      else passed

  -- The table that it leaves.
  unfoldable pub after_claim : ℕ → List IntegrationEvent → List IntegrationEvent
  after_claim zero events = events
  after_claim (suc limit) [] = []
  after_claim (suc limit) (e ∷ events) =
      let taken = after_claim limit events in
      let passed = after_claim (suc limit) events in
      if is_claimable now e && free e
      then claimed now lease_seconds (token_of e) e ∷ taken
      else e ∷ passed

  unfoldable pub claim_events : ℕ → Db → Db
  claim_events limit db = record db { events = after_claim limit db.events }

  -- `claim`.
  unfoldable pub claim : ℕ → Tx Db (List IntegrationEvent)
  claim limit = do
    events ← gets (λ db. claimed_rows limit db.events)
    modify (claim_events limit)
    commit
    pure events

-- What the delivery of an event ends with.
pub data Delivery : Type 0 where
  -- a result, with its model and its external identifier
  accepted : Option String → Option String → Delivery
  -- `None`
  accepted_silently : Delivery
  -- an exception: its diagnostic, its code if that is a text, and whether it is terminal or asks for
  -- configuration
  refused : String → Option String → Bool → Bool → Delivery
  -- the session, which the delivery shares, is left to be rolled back: every use of it raises
  session_broken : Delivery

-- `min(30 * 2 ** (attempt_count - 1), 3600)`. A claimed event has an attempt, so that Python's exponent
-- is not negative.
unfoldable pub backoff : ℕ → ℕ
backoff attempt_count = min (30 * 2 ^ (attempt_count - 1)) 3600

unfoldable pub delivered_event : ℕ → IntegrationEvent → IntegrationEvent
delivered_event now e = record e {
  status = EventStatus.delivered;
  processed_at = some now;
  last_error = none;
  last_error_code = none;
}

unfoldable pub diagnosed : ℕ → String → String → IntegrationEvent → IntegrationEvent
diagnosed now message code e = record e {
  last_error = some message;
  last_error_code = some code;
  last_error_at = some now;
}

-- Where a failed event goes, by the exception and the attempts that were made.
unfoldable pub failed_event : ℕ → ℕ → Bool → Bool → IntegrationEvent → IntegrationEvent
failed_event now jitter terminal pending_configuration e =
    if pending_configuration
    then record e { status = EventStatus.pending_configuration; processed_at = none }
    else if terminal || leb max_attempts e.attempt_count
    then record e { status = EventStatus.failed_terminal; processed_at = some now }
    else record e {
      status = EventStatus.retrying;
      next_attempt_at = now + (backoff e.attempt_count + jitter);
    }

-- The row before its claim is taken off, if the body of the loop does not raise itself: `.upper()`
-- of a code that is no text does, within the handler.
unfoldable pub delivery_result : ℕ → ℕ → Delivery → IntegrationEvent → Option IntegrationEvent
delivery_result now jitter (accepted model external_id) e =
    some
      (record (delivered_event now e) { external_model = model; external_record_id = external_id })
delivery_result now jitter accepted_silently e = some (delivered_event now e)
delivery_result now jitter (refused message (some code) terminal pending_configuration) e =
    some (failed_event now jitter terminal pending_configuration (diagnosed now message code e))
delivery_result now jitter (refused message none terminal pending_configuration) e = none
delivery_result now jitter session_broken e = none

unfoldable pub without_claim : IntegrationEvent → IntegrationEvent
without_claim e = record e { lease_expires_at = none; claim_token = none }

abbrev pub event_id_of : IntegrationEvent → ℕ
event_id_of e = e.id

abbrev pub put_event : IntegrationEvent → Db → Db
put_event e db = record db { events = put event_id_of e db.events }

-- The end of the body of the loop: every event is committed for itself.
unfoldable pub settle_event : Option IntegrationEvent → Tx Db (Unit {0})
settle_event none = raise delivery_aborted
settle_event (some e) = do modify (put_event (without_claim e)); commit

-- The loop of `process`, which an exception of its body ends.
unfoldable pub deliver_all :
    ℕ
    → (IntegrationEvent → ℕ)
    → (IntegrationEvent → Delivery)
    → List IntegrationEvent
    → Tx Db (Unit {0})
deliver_all now jitter deliver [] = pure tt
deliver_all now jitter deliver (e ∷ events) = do
  settle_event (delivery_result now (jitter e) (deliver e) e)
  deliver_all now jitter deliver events

unfoldable pub process :
    Context
    → (IntegrationEvent → Bool)
    → (IntegrationEvent → ℕ)
    → (IntegrationEvent → ℕ)
    → (IntegrationEvent → Delivery)
    → ℕ
    → Tx Db ℕ
process c free token_of jitter deliver limit = do
  events ← claim free token_of c.now default_lease_seconds limit
  deliver_all c.now jitter deliver events
  pure (length events)

abbrev pub retryable_statuses : List EventStatus
retryable_statuses =
    EventStatus.dead_letter ∷ EventStatus.failed ∷ EventStatus.failed_terminal
    ∷ EventStatus.pending_configuration ∷ []

unfoldable pub retried : ℕ → IntegrationEvent → IntegrationEvent
retried now e = record e {
  status = EventStatus.pending;
  attempt_count = 0;
  next_attempt_at = now;
  processed_at = none;
  claimed_at = none;
  lease_expires_at = none;
  claim_token = none;
}

-- `retry`.
unfoldable pub retry : Context → ℕ → ℕ → Tx Db IntegrationEvent
retry c event_id actor_id = do
  found ← gets (λ db. get event_id_of event_id db.events)
  e ← require found event_not_found
  guard (one_of e.status retryable_statuses) event_not_retryable
  let e' = retried c.now e
  modify (put_event e')
  modify (
      record_audit c (some actor_id) "integration.retry" "integration_event" e.id
        (("previous_error", or_else e.last_error "") ∷ []))
  commit
  pure e'
