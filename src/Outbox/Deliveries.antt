-- ===== src/Outbox/Deliveries.antt =====
-- apps/api/app/domains/common/outbox_service.py: `process` and `retry`.
use breero_com.Prelude.{
  Bool, List, [], arith, false, get, get-put, get_key, nat_eq, none, one_of, refl, some, suc, true,
  zero, ℕ, ◌+◌, ◌-◌, ◌<◌, ◌^◌, ◌∷◌, ◌≡◌, ◌≤◌, Option, inl, inr, ◌⊎◌,
}
use breero_com.Models.{Db, EventStatus, IntegrationEvent, event_status_eq}
use breero_com.Errors.{event_not_retryable, delivery_aborted}
use breero_com.Context.{Context}
use breero_com.Session.{Session, err, ok, request, returned, ◌>>=◌}
use breero_com.Outbox.{
  Delivery, accepted, accepted_silently, backoff, delivered_event, delivery_result, diagnosed,
  event_id_of, failed_event, is_claimable, refused, retried, retry, retryable_statuses,
  without_claim, session_broken, settle_event,
}

one_le_power : (k : ℕ) → 1 ≤ 2 ^ k
one_le_power zero = omega arith
one_le_power (suc k) = omega (arith, one_le_power k)

backoff_bounds : (attempts : ℕ) → (30 ≤ backoff attempts) × (backoff attempts ≤ 3600)
unfolding backoff
backoff_bounds attempts = (omega (arith, one_le_power (attempts - 1)), omega arith)

abbrev pub settled_statuses : List EventStatus
settled_statuses =
    EventStatus.delivered ∷ EventStatus.pending_configuration ∷ EventStatus.failed_terminal
    ∷ EventStatus.retrying ∷ []

-- The deliveries on which the body of the loop itself raises.
abbrev pub breaks_pass : Delivery → Bool
breaks_pass (accepted model external_id) = false
breaks_pass accepted_silently = false
breaks_pass (refused message (some code) terminal pending_configuration) = false
breaks_pass (refused message none terminal pending_configuration) = true
breaks_pass session_broken = true

-- The event is settled: by a delivery, or by a failure that says whether it is tried again, and when.
pub record IsSettled (now jitter : ℕ) (e e' : IntegrationEvent) : Type 0 where
  settled : one_of e'.status settled_statuses ≡ true
  no_lease : e'.lease_expires_at ≡ none
  no_claim : e'.claim_token ≡ none
  again :
      e'.status ≡ EventStatus.retrying
      → (e.attempt_count < 5)
        × (now + 30 + jitter ≤ e'.next_attempt_at)
        × (e'.next_attempt_at ≤ now + 3600 + jitter)

result-IsSettled :
    (now jitter : ℕ) (delivery : Delivery) (e e' : IntegrationEvent)
    → delivery_result now jitter delivery e ≡ some e'
    → IsSettled now jitter e (without_claim e') × (e'.id ≡ e.id)
unfolding without_claim delivery_result delivered_event failed_event diagnosed
result-IsSettled now jitter (accepted model external_id) e e' h = (
  record {
    settled = ground arith;
    no_lease = refl;
    no_claim = refl;
    again = λ r. absurd (ground arith);
  },
  ground arith,
)
result-IsSettled now jitter accepted_silently e e' h = (
  record {
    settled = ground arith;
    no_lease = refl;
    no_claim = refl;
    again = λ r. absurd (ground arith);
  },
  ground arith,
)
result-IsSettled now jitter (refused message (some code) terminal pending_configuration) e e' h = (
  record {
    settled = ground arith;
    no_lease = refl;
    no_claim = refl;
    again = λ r. ground (arith, backoff_bounds e.attempt_count);
  },
  ground arith,
)
result-IsSettled now jitter (refused message none terminal pending_configuration) e e' h =
    absurd (ground arith)
result-IsSettled now jitter session_broken e e' h = absurd (ground arith)

-- A delivery breaks the pass where there is no row to store.
abbrev Breaks : Bool → Option IntegrationEvent → Type 0
Breaks b none = b ≡ true
Breaks b (some e) = b ≡ false

result_exists :
    (now jitter : ℕ) (delivery : Delivery) (e : IntegrationEvent)
    → Breaks (breaks_pass delivery) (delivery_result now jitter delivery e)
unfolding delivery_result
result_exists now jitter (accepted model external_id) e = refl
result_exists now jitter accepted_silently e = refl
result_exists now jitter (refused message (some code) terminal pending_configuration) e = refl
result_exists now jitter (refused message none terminal pending_configuration) e = refl
result_exists now jitter session_broken e = refl

without_claim_id : (e : IntegrationEvent) → (without_claim e).id ≡ e.id
unfolding without_claim
without_claim_id e = refl

-- The end of a delivery of an event that is stored. A delivery that succeeds or that raises an
-- exception with a code that is a text settles the event in the database: it leaves the state of
-- being processed, and its lease and its claim with it; it is tried again only if fewer than five
-- attempts were made, and then not before half a minute and not later than an hour from now, up to
-- the jitter. An exception whose code is no text, or a session that is left to be rolled back, ends
-- the pass by an exception, and nothing of the delivery is stored.
pub delivery_settles :
    (now jitter : ℕ) (delivery : Delivery) (e : IntegrationEvent) (s : Session Db)
    → get event_id_of e.id s.live.events ≡ some e
    → let t = settle_event (delivery_result now jitter delivery e) s in
      ((breaks_pass delivery ≡ false)
        × (e' : IntegrationEvent) × (t.0 ≡ ok tt)
        × (get event_id_of e.id t.1.saved.events ≡ some e')
        × IsSettled now jitter e e')
      ⊎ ((breaks_pass delivery ≡ true) × (t.0 ≡ err delivery_aborted) × (t.1.saved ≡ s.saved))
unfolding settle_event ◌>>=◌
delivery_settles now jitter delivery e s found =
    by_result (delivery_result now jitter delivery e) refl (result_exists now jitter delivery e)
  where
    by_result :
        (o : Option IntegrationEvent)
        → delivery_result now jitter delivery e ≡ o
        → Breaks (breaks_pass delivery) o
        → let t = settle_event o s in
          ((breaks_pass delivery ≡ false)
            × (e' : IntegrationEvent) × (t.0 ≡ ok tt)
            × (get event_id_of e.id t.1.saved.events ≡ some e')
            × IsSettled now jitter e e')
          ⊎ ((breaks_pass delivery ≡ true) × (t.0 ≡ err delivery_aborted) × (t.1.saved ≡ s.saved))
    by_result none h broken = inr (broken, refl, refl)
    by_result (some e') h passes =
        let (settled, same) = result-IsSettled now jitter delivery e e' h in
        inl (
          passes,
          without_claim e',
          refl,
          ground (
            arith,
            without_claim_id e',
            get-put event_id_of (without_claim e') e.id s.live.events,
          ),
          settled,
        )

-- The retry of an event that is stored: one that failed, was given up or waits for configuration is
-- open at once, with no attempt counted, and is what is stored; any other is refused and nothing
-- changes.
pub retry_reopens :
    (c : Context) (event_id actor_id : ℕ) (db : Db) (e : IntegrationEvent)
    → get event_id_of event_id db.events ≡ some e
    → let r = request (retry c event_id actor_id) db in
      (one_of e.status retryable_statuses ≡ true
        → (e' : IntegrationEvent) × (returned r ≡ some e')
          × (get event_id_of event_id r.1.events ≡ some e')
          × (is_claimable c.now e' ≡ true)
          × (e'.attempt_count ≡ 0))
      × (one_of e.status retryable_statuses ≡ false → r ≡ (err event_not_retryable, db))
unfolding retry retried is_claimable request ◌>>=◌
retry_reopens c event_id actor_id db e found = (
  (λ again. (
    retried c.now e,
    ground arith,
    ground (
      arith,
      get_key event_id_of event_id db.events e found,
      get-put event_id_of (retried c.now e) event_id db.events,
    ),
    ground arith,
    refl,
  )),
  (λ shut. ground arith),
)
