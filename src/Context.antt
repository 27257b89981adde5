-- ===== src/Context.antt =====
-- What a command takes from its surroundings: the clock, the identifiers that `uuid.uuid4` draws,
-- random texts, how an identifier or an exception is written out, and the settings.
use breero_com.Prelude.{ℕ, String, Bool, List}
use breero_com.Errors.{Error}
use breero_com.Models.{Db, IntegrationEvent, EventStatus}
use breero_com.Prelude.{Option, none, add}

pub record Context : Type 0 where
  pub now : ℕ
  pub uuid : ℕ → ℕ
  pub token : String
  pub str : ℕ → String
  -- `str(exc)[:2000]`
  pub text_of : Error → String
  pub payments_enabled : Bool
  pub payout_enabled : Bool
  pub stripe_enabled : Bool
  pub odoo_enabled : Bool

-- An `IntegrationEvent(…)` as the services build it: pending, and available at once.
abbrev pub new_event : Context → ℕ → String → ℕ → String → List (String × ℕ) → IntegrationEvent
new_event c id aggregate_type aggregate_id event_type payload = record {
  id = id;
  aggregate_type = aggregate_type;
  aggregate_id = aggregate_id;
  event_type = event_type;
  payload = payload;
  status = EventStatus.pending;
  attempt_count = 0;
  next_attempt_at = c.now;
  claimed_at = none;
  lease_expires_at = none;
  claim_token = none;
  processed_at = none;
  last_error = none;
  last_error_code = none;
  last_error_at = none;
  external_model = none;
  external_record_id = none;
}

-- `session.add(IntegrationEvent(…))`.
abbrev pub publish : IntegrationEvent → Db → Db
publish e db = record db { events = add e db.events }

-- `session.add(AuditLog(…))`.
abbrev pub record_audit :
    Context → Option ℕ → String → String → ℕ → List (String × String) → Db → Db
record_audit c actor_id action resource_type resource_id metadata db = record db {
  audits =
      add
        (record {
          actor_id = actor_id;
          action = action;
          resource_type = resource_type;
          resource_id = resource_id;
          metadata = metadata;
          created_at = c.now;
        })
        db.audits;
}
