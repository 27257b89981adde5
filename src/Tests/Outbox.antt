-- ===== src/Tests/Outbox.antt =====
-- The theorems on the outbox at concrete inputs.
use breero_com.Prelude.{[], false, get, nat_eq, none, one_of, refl, some, true, ◌∷◌, ◌≡◌, ◌⊎◌}
use breero_com.Models.{Db, EventStatus, IntegrationEvent, event_status_eq}
use breero_com.Errors.{event_not_retryable, delivery_aborted}
use breero_com.Context.{new_event}
use breero_com.Session.{err, request, returned, ◌>>=◌, Session, ok}
use breero_com.Tests.{empty, surroundings}
use breero_com.Outbox.{
  after_claim, claim, claim_events, claimed, claimed_rows, delivery_result, event_id_of,
  is_claimable, process, refused, retry, retryable_statuses, settle_event, deliver_all,
}
use breero_com.Outbox.Deliveries.{delivery_settles, retry_reopens, IsSettled, breaks_pass}

abbrev an_event : IntegrationEvent
an_event = new_event surroundings 50 "job" 1 "job.completed" []

abbrev published : Db
published = record empty {
  events =
      an_event
      ∷ record an_event { id = 51; next_attempt_at = 1001 }
      ∷ record an_event { id = 52; status = EventStatus.failed_terminal; attempt_count = 5 }
      ∷ [];
}

abbrev claimed_event : IntegrationEvent
claimed_event = record an_event {
  status = EventStatus.processing;
  claimed_at = some 1000;
  lease_expires_at = some 1300;
  claim_token = some 7;
  attempt_count = 1;
}

abbrev processed_once : Session Db
processed_once =
    let db = record empty { events = claimed_event ∷ [] } in record { saved = db; live = db }

delivery_settles_example :
    let delivery = refused "timeout" (some "TIMEOUT") false false in
    let t = settle_event (delivery_result 1000 3 delivery claimed_event) processed_once in
    ((breaks_pass delivery ≡ false)
      × (e' : IntegrationEvent) × (t.0 ≡ ok tt)
      × (get event_id_of 50 t.1.saved.events ≡ some e')
      × IsSettled 1000 3 claimed_event e')
    ⊎ ((breaks_pass delivery ≡ true)
        × (t.0 ≡ err delivery_aborted)
        × (t.1.saved ≡ processed_once.saved))
delivery_settles_example =
    delivery_settles 1000 3 (refused "timeout" (some "TIMEOUT") false false) claimed_event
      processed_once refl

-- A pass on which a delivery raises an exception with a code that is no text: the event stays claimed.
broken_pass :
    request
      (process surroundings (λ _. true) (λ _. 7) (λ _. 0) (λ _. refused "gone" none false false) 50)
      (record empty { events = an_event ∷ [] })
    ≡ (err delivery_aborted, record empty { events = claimed_event ∷ [] })
unfolding process claim claim_events claimed_rows after_claim claimed is_claimable deliver_all
    settle_event delivery_result request ◌>>=◌
broken_pass = refl

abbrev given_up : IntegrationEvent
given_up = record an_event { id = 52; status = EventStatus.failed_terminal; attempt_count = 5 }

retry_reopens_example :
    let r = request (retry surroundings 52 8) published in
    (one_of EventStatus.failed_terminal retryable_statuses ≡ true
      → (e' : IntegrationEvent) × (returned r ≡ some e')
        × (get event_id_of 52 r.1.events ≡ some e')
        × (is_claimable 1000 e' ≡ true)
        × (e'.attempt_count ≡ 0))
    × (one_of EventStatus.failed_terminal retryable_statuses ≡ false
        → r ≡ (err event_not_retryable, published))
retry_reopens_example = retry_reopens surroundings 52 8 published given_up refl
