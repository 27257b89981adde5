-- ===== src/Payments/Webhooks/Once.antt =====
-- apps/api/app/domains/payments/service.py, `process_webhook`: an event that is notified again, and one
-- whose handling fails.
use breero_com.Prelude.{
  Bool, Bool-cases, Option, String, [], arith, false, find-append, find-update, inl, inr, none,
  refl, some, true, ◌∙◌, ◌∷◌, ◌≡◌, List, ap, find, update, Option-cases, ◌==◌,
}
use breero_com.Models.{Db, Payment, PaymentEvent}
use breero_com.Errors.{Error}
use breero_com.Context.{Context}
use breero_com.Session.{Outcome, Session, answer, err, modify, ok, request, returned, ◌>>=◌}
use breero_com.Session.Keeps.{Keeps, Keeps-modify}
use breero_com.Jobs.{log_transition}
use breero_com.Payments.{PaymentProvider, WebhookEvent}
use breero_com.Payments.Settle.{create_job}
use breero_com.Payments.Settle.Keeps.{SettleKeeps, create_missing_job-Keeps, resume_paid_job-Keeps}
use breero_com.Payments.Webhooks.{
  after_handling, get_event, handle, has_event_id, is_processed, process_event, process_webhook,
  processed_row, raised_again, record_event, record_failed, record_processed, reprocessed,
  failed_row, failed_again,
}
use breero_com.Payments.Webhooks.Frame.{handle-Keeps}
use breero_com.Prelude.{string_eq}

-- Nothing is committed since `base` was read, and the table of the events is as it was.
record IsUntouched (base : Db) (s : Session Db) : Type 0 where
  saved : s.saved ≡ base
  events : s.live.payment_events ≡ base.payment_events

module _ {base : Db} where
  Untouched-modify :
      (f : Db → Db)
      → ((db : Db) → (f db).payment_events ≡ db.payment_events)
      → Keeps (IsUntouched base) (modify f)
  Untouched-modify f same =
      Keeps-modify f λ s h. record { saved = h.saved; events = same s.live ∙ h.events }

  untouched : SettleKeeps (IsUntouched base)
  unfolding log_transition create_job
  untouched = record {
    purchase = λ p. Untouched-modify _ (λ db. refl);
    lead = λ l. Untouched-modify _ (λ db. refl);
    request = λ r. Untouched-modify _ (λ db. refl);
    booking = λ b. Untouched-modify _ (λ db. refl);
    event = λ e. Untouched-modify _ (λ db. refl);
    paid_job = resume_paid_job-Keeps (λ event j. Untouched-modify _ (λ db. refl));
    missing_job = create_missing_job-Keeps (λ c b. Untouched-modify _ (λ db. refl));
  }

  handle-IsUntouched :
      (c : Context) (event : WebhookEvent) → Keeps (IsUntouched base) (handle c event)
  handle-IsUntouched c event =
      handle-Keeps untouched (λ p. Untouched-modify _ (λ db. refl))
        (λ r. Untouched-modify _ (λ db. refl)) c event

-- A row that was processed is found so, whether it was there or is added.
record_processed-processed :
    (c : Context) (event : WebhookEvent) (p : Option Payment) (db : Db)
    → is_processed (get_event event.id (record_processed c event p db)) ≡ true
unfolding record_processed record_event processed_row reprocessed is_processed
record_processed-processed c event p db = ground (
  arith,
  string_eq.equal_iff event.id event.id,
  find-append (has_event_id event.id) db.payment_events (processed_row c event p ∷ []),
  find-update (has_event_id event.id) (reprocessed c p) db.payment_events (λ e. refl),
)

-- The database is as it was, but for the row of one event, which failed with a text.
pub record FailedOnly (event_id text : String) (db db' : Db) : Type 0 where
  failed_with :
      (row : PaymentEvent) × (get_event event_id db' ≡ some row)
      × (row.status ≡ "failed")
      × (row.last_error ≡ some text)
  other_events : (id : String) → (event_id == id) ≡ false → get_event id db' ≡ get_event id db
  rest : record db' { payment_events = db.payment_events } ≡ db

other_rows :
    (event_id id text : String) (rows : List PaymentEvent)
    → (event_id == id) ≡ false
    → find (has_event_id id) (update (has_event_id event_id) (failed_again text) rows)
      ≡ find (has_event_id id) rows
unfolding failed_again
other_rows event_id id text [] other = refl
other_rows event_id id text (r ∷ rows) other = ground (
  arith,
  other_rows event_id id text rows other,
  string_eq.equal_iff r.provider_event_id event_id,
  string_eq.equal_iff r.provider_event_id id,
  string_eq.equal_iff event_id id,
)

record_failed-FailedOnly :
    (event : WebhookEvent) (text : String) (db : Db)
    → FailedOnly event.id text db (record_failed event text db)
unfolding record_failed record_event failed_row failed_again
record_failed-FailedOnly event text db = record {
  failed_with = elim (Option-cases (get_event event.id db)) [
    | inl missing ↦ (
      failed_row event text,
      ground (
        arith,
        string_eq.equal_iff event.id event.id,
        find-append (has_event_id event.id) db.payment_events (failed_row event text ∷ []),
      ),
      refl,
      refl,
    )
    | inr (r, found) ↦ (
      failed_again text r,
      ground (
        arith,
        find-update (has_event_id event.id) (failed_again text) db.payment_events (λ e. refl),
      ),
      refl,
      refl,
    )
  ];
  other_events = λ id other. elim (Option-cases (get_event event.id db)) [
    | inl missing ↦
        ground (arith, find-append (has_event_id id) db.payment_events (failed_row event text ∷ []))
    | inr (r, found) ↦ ground (arith, other_rows event.id id text db.payment_events other)
  ];
  rest = ground arith;
}

module _ (provider : PaymentProvider) (body signature : String) (event : WebhookEvent)
    (verified : provider.verify_webhook body signature ≡ ok event) (c : Context) (db : Db) where
  abbrev webhook : Outcome (String × Bool) × Db
  webhook = request (process_webhook c provider body signature) db

  duplicate : is_processed (get_event event.id db) ≡ true → webhook ≡ (ok (event.id, true), db)
  unfolding process_webhook request ◌>>=◌
  duplicate h = ground arith

module _ (c : Context) (provider : PaymentProvider) (body signature : String) (db : Db)
    (event : WebhookEvent) (verified : provider.verify_webhook body signature ≡ ok event) where
  abbrev pub start : Session Db
  start = record { saved = db; live = db }

  abbrev pub outcome : Outcome (String × Bool) × Db
  outcome = request (process_webhook c provider body signature) db

  -- How the request goes, by what the handling of the event ended with.
  pub handled :
      (p : Option Payment) (s : Session Db)
      → is_processed (get_event event.id db) ≡ false
      → handle c event start ≡ (ok p, s)
      → outcome ≡ (ok (event.id, false), record_processed c event p s.live)
  unfolding process_webhook process_event after_handling request ◌>>=◌
  handled p s new ran = ground arith

  failed :
      (e : Error) (s : Session Db)
      → is_processed (get_event event.id db) ≡ false
      → handle c event start ≡ (err e, s)
      → outcome ≡ (err (raised_again e), record_failed event (c.text_of e) s.saved)
  unfolding process_webhook process_event after_handling request ◌>>=◌
  failed e s new ran = ground arith

  processed_after :
      (r : Outcome (Option Payment)) (s : Session Db) (first : String × Bool)
      → is_processed (get_event event.id db) ≡ false
      → handle c event start ≡ (r, s)
      → returned outcome ≡ some first
      → is_processed (get_event event.id outcome.1) ≡ true
  processed_after (ok p) s first new ran h =
      rw (handled p s new ran) (record_processed-processed c event p s.live)
  processed_after (err e) s first new ran h =
      let none_returned : returned outcome ≡ none = rw (failed e s new ran) refl in cc

  -- An event that a request ended well with, by any of its branches, is not handled again: the same
  -- notification, delivered once more, is answered as a duplicate and changes nothing.
  pub webhook_once :
      (c' : Context) (first : String × Bool)
      → returned outcome ≡ some first
      → request (process_webhook c' provider body signature) outcome.1
        ≡ (ok (event.id, true), outcome.1)
  webhook_once c' first h =
      duplicate provider body signature event verified c' outcome.1
        (elim (Bool-cases (is_processed (get_event event.id db))) [
          | inl before ↦ rw (duplicate provider body signature event verified c db before) before
          | inr new ↦
              processed_after (handle c event start).0 (handle c event start).1 first new refl h
        ])

  isolated :
      (r : Outcome (Option Payment)) (s : Session Db) (e : Error)
      → is_processed (get_event event.id db) ≡ false
      → handle c event start ≡ (r, s)
      → s.saved ≡ db
      → (answer outcome).0 ≡ some e
      → (cause : Error) × ((handle c event start).0 ≡ err cause)
        × FailedOnly event.id (c.text_of cause) db (answer outcome).1
  isolated (ok p) s e new ran saved h =
      let no_answer : (answer outcome).0 ≡ none = rw (handled p s new ran) refl in cc
  isolated (err cause) s e new ran saved h = (
    cause,
    ap (λ t. t.0) ran,
    rw (failed cause s new ran, saved) (record_failed-FailedOnly event (c.text_of cause) db),
  )

  -- A verified event whose handling fails leaves the database as it was, except for the row of the
  -- event, which holds that it failed and what the exception that its handling raised said.
  pub failed_webhook_isolated :
      (e : Error)
      → (answer outcome).0 ≡ some e
      → (cause : Error) × ((handle c event start).0 ≡ err cause)
        × FailedOnly event.id (c.text_of cause) db (answer outcome).1
  failed_webhook_isolated e h = elim (Bool-cases (is_processed (get_event event.id db))) [
    | inl before ↦
        let no_answer : (answer outcome).0 ≡ none =
          rw (duplicate provider body signature event verified c db before) refl in
        cc
    | inr new ↦
        isolated (handle c event start).0 (handle c event start).1 e new refl
          ((handle-IsUntouched c event).kept start (record { saved = refl; events = refl })).saved h
  ]
