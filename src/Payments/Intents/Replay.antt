-- ===== src/Payments/Intents/Replay.antt =====
-- apps/api/app/domains/payments/service.py, `create_intent`: a key that is used again.
use breero_com.Prelude.{
  Option-cases, String, add, ap, arith, eqb, eqb_iff, false, find-add, find-update, inl, inr, none,
  option_eq, refl, some, ℕ, ◌==◌, ◌∙◌, ◌≡◌, ◌≢◌,
}
use breero_com.Models.{Db, IdempotencyRecord, Payment, PaymentPurpose, payment_purpose_eq}
use breero_com.Errors.{Error, key_reused, payment_error}
use breero_com.Context.{Context}
use breero_com.Session.{Outcome, Session, err, ok, request, returned, ◌>>=◌}
use breero_com.Session.Keeps.{Keeps, keeps_rules}
use breero_com.Payments.{PaymentProvider, ProviderIntent, add_payment, get_payment, payment_id_of}
use breero_com.Payments.Intents.{
  PaymentIntentCreate, add_idempotency, check_booking, check_quote, check_reference, complete_key,
  completed_record, create_intent, get_idempotency, has_key, new_payment, open_intent,
  pending_record, replay, replay_or_open, with_reference,
}
use breero_com.Prelude.{string_eq, nat_eq}

-- The record of a key, and the payment that was opened under it.
record IsAnswered (request_hash : ℕ) (key : String) (p : Payment) (db : Db) : Type 0 where
  entry : IdempotencyRecord
  payment_id : ℕ
  found : get_idempotency "create_intent" key db ≡ some entry
  same_request : entry.request_hash ≡ request_hash
  stored : entry.response_body ≡ some payment_id
  opened : get_payment payment_id db ≡ some p

module _ (c : Context) (provider : PaymentProvider) (hash : PaymentIntentCreate → ℕ)
    (payload : PaymentIntentCreate) (key : String) (db : Db) where
  abbrev outcome : Outcome Payment × Db
  outcome = request (create_intent c provider hash payload key) db

  answered_again :
      (p : Payment)
      → IsAnswered (hash payload) key p db
      → (payload.payment_purpose == PaymentPurpose.professional_lead) ≡ false
      → outcome ≡ (ok p, db)
  unfolding create_intent replay_or_open replay request ◌>>=◌
  answered_again p a not_lead = ground (arith, a.found, a.same_request, a.stored, a.opened)

  refused_again :
      (p : Payment) (other : ℕ)
      → IsAnswered other key p db
      → other ≢ hash payload
      → (payload.payment_purpose == PaymentPurpose.professional_lead) ≡ false
      → outcome ≡ (err (payment_error key_reused), db)
  unfolding create_intent replay_or_open replay request ◌>>=◌
  refused_again p other a differs not_lead = ground (arith, a.found, a.same_request)

check-Keeps :
    (payload : PaymentIntentCreate) (s : Session Db) → Keeps (λ t. t ≡ s) (check_reference payload)
unfolding check_reference check_booking check_quote
check-Keeps payload s = search keeps_rules depth 24

module _ (c : Context) (request_hash : ℕ) (payload : PaymentIntentCreate) (key : String)
    (intent : ProviderIntent) (db : Db) where
  -- The database that a payment that is opened leaves.
  abbrev opened_db : Db
  opened_db = complete_key key (c.uuid 1) (
      add_payment (new_payment c payload intent)
        (add_idempotency (pending_record request_hash key) db))

  opened-IsAnswered :
      get_payment (c.uuid 1) db ≡ none
      → get_idempotency "create_intent" key db ≡ none
      → IsAnswered request_hash key (new_payment c payload intent) opened_db
  unfolding complete_key add_idempotency pending_record new_payment
  opened-IsAnswered fresh new = record {
    entry = completed_record (c.uuid 1) (pending_record request_hash key);
    payment_id = c.uuid 1;
    found = ground (
      arith,
      find-update (has_key "create_intent" key) (completed_record (c.uuid 1))
          (add (pending_record request_hash key) db.idempotency_records) (λ r. refl),
      find-add (has_key "create_intent" key) (pending_record request_hash key)
          db.idempotency_records new ((string_eq.equal_iff key key).1 refl),
    );
    same_request = refl;
    stored = refl;
    opened =
        find-add (λ p. eqb (payment_id_of p) (c.uuid 1)) (new_payment c payload intent) db.payments
          fresh ((eqb_iff (c.uuid 1) (c.uuid 1)).1 refl);
  }

module _ (c : Context) (provider : PaymentProvider) (request_hash : ℕ)
    (payload : PaymentIntentCreate) (key : String) (db : Db) where
  abbrev start : Session Db
  start = record { saved = db; live = db }

  -- What `open_intent` returns and leaves, once its checks have passed and the provider has answered.
  opened :
      (intent : ProviderIntent)
      → check_reference payload start ≡ (ok tt, start)
      → provider.create_intent payload.amount_minor payload.currency payload.capture_method
          (with_reference c payload)
          key
        ≡ ok intent
      → request (open_intent c provider request_hash payload key) db
        ≡ (ok (new_payment c payload intent), opened_db c request_hash payload key intent db)
  unfolding open_intent new_payment request ◌>>=◌
  opened intent checked answered = ground arith

  unchecked :
      (e : Error)
      → check_reference payload start ≡ (err e, start)
      → returned (request (open_intent c provider request_hash payload key) db) ≡ none
  unfolding open_intent request ◌>>=◌
  unchecked e checked = ground arith

  unanswered :
      (e : Error)
      → check_reference payload start ≡ (ok tt, start)
      → provider.create_intent payload.amount_minor payload.currency payload.capture_method
          (with_reference c payload)
          key
        ≡ err e
      → returned (request (open_intent c provider request_hash payload key) db) ≡ none
  unfolding open_intent request ◌>>=◌
  unanswered e checked failed = ground arith

  abbrev opening : Outcome Payment × Db
  opening = request (open_intent c provider request_hash payload key) db

  by_reply :
      (p : Payment) (reply : Outcome ProviderIntent)
      → get_payment (c.uuid 1) db ≡ none
      → get_idempotency "create_intent" key db ≡ none
      → check_reference payload start ≡ (ok tt, start)
      → provider.create_intent payload.amount_minor payload.currency payload.capture_method
          (with_reference c payload)
          key
        ≡ reply
      → returned opening ≡ some p
      → IsAnswered request_hash key p opening.1
  by_reply p (ok intent) fresh new checked answered h =
      let run : opening
          ≡ (ok (new_payment c payload intent), opened_db c request_hash payload key intent db) =
        opened intent checked answered in
      let same : new_payment c payload intent ≡ p = by_returned p intent run h in
      rw (run, ← same) (opened-IsAnswered c request_hash payload key intent db fresh new)
    where
      by_returned :
          (p : Payment) (intent : ProviderIntent)
          → opening
            ≡ (ok (new_payment c payload intent), opened_db c request_hash payload key intent db)
          → returned opening ≡ some p
          → new_payment c payload intent ≡ p
      by_returned p intent run h =
          let r : returned opening ≡ some (new_payment c payload intent) = rw run refl in cc
  by_reply p (err e) fresh new checked failed h =
      let r : returned opening ≡ none = unanswered e checked failed in cc

  by_check :
      (p : Payment) (r : Outcome (Unit {0})) (s : Session Db)
      → get_payment (c.uuid 1) db ≡ none
      → get_idempotency "create_intent" key db ≡ none
      → check_reference payload start ≡ (r, s)
      → s ≡ start
      → returned opening ≡ some p
      → IsAnswered request_hash key p opening.1
  by_check p (ok done) s fresh new checked same h =
      by_reply p _ fresh new (checked ∙ ap (λ t. (ok tt, t)) same) refl h
  by_check p (err e) s fresh new checked same h =
      let r : returned opening ≡ none = unchecked e (checked ∙ ap (λ t. (err e, t)) same) in cc

  opening-IsAnswered :
      (p : Payment)
      → get_payment (c.uuid 1) db ≡ none
      → get_idempotency "create_intent" key db ≡ none
      → returned opening ≡ some p
      → IsAnswered request_hash key p opening.1
  opening-IsAnswered p fresh new h =
      by_check p (check_reference payload start).0 (check_reference payload start).1 fresh new refl
        ((check-Keeps payload start).kept start refl) h

module _ (c : Context) (provider : PaymentProvider) (hash : PaymentIntentCreate → ℕ)
    (payload : PaymentIntentCreate) (key : String) (db : Db) where
  -- The branches of `create_intent`.
  as_opening :
      (payload.payment_purpose == PaymentPurpose.professional_lead) ≡ false
      → get_idempotency "create_intent" key db ≡ none
      → outcome c provider hash payload key db ≡ opening c provider (hash payload) payload key db
  unfolding create_intent replay_or_open request ◌>>=◌
  as_opening not_lead new = ground arith

  not_lead_of :
      (p : Payment)
      → returned (outcome c provider hash payload key db) ≡ some p
      → (payload.payment_purpose == PaymentPurpose.professional_lead) ≡ false
  unfolding create_intent request ◌>>=◌
  not_lead_of p h = ground arith

  as_replay :
      (p : Payment) (entry : IdempotencyRecord)
      → get_idempotency "create_intent" key db ≡ some entry
      → returned (outcome c provider hash payload key db) ≡ some p
      → ((outcome c provider hash payload key db).1 ≡ db) × IsAnswered (hash payload) key p db
  unfolding create_intent replay_or_open replay request ◌>>=◌
  as_replay p entry found h = elim (Option-cases entry.response_body) [
    | inl pending ↦ ground arith
    | inr (payment_id, stored) ↦ elim (Option-cases (get_payment payment_id db)) [
      | inl gone ↦ ground arith
      | inr (q, there) ↦ (
        ground arith,
        record {
          entry = entry;
          payment_id = payment_id;
          found = found;
          same_request = ground (arith, nat_eq.equal_iff entry.request_hash (hash payload));
          stored = stored;
          opened = ground arith;
        },
      )
    ]
  ]

  first-IsAnswered :
      (p : Payment)
      → get_payment (c.uuid 1) db ≡ none
      → returned (outcome c provider hash payload key db) ≡ some p
      → IsAnswered (hash payload) key p (outcome c provider hash payload key db).1
  first-IsAnswered p fresh h = elim (Option-cases (get_idempotency "create_intent" key db)) [
    | inl new ↦
        let run : outcome c provider hash payload key db
            ≡ opening c provider (hash payload) payload key db =
          as_opening (not_lead_of p h) new in
        rw run
          (opening-IsAnswered c provider (hash payload) payload key db p fresh new (rw (← run) h))
    | inr (entry, found) ↦ let (same, a) = as_replay p entry found h in rw same a
  ]

  -- A request that opened a payment, under an identifier that no payment had, or that was answered with
  -- an earlier one, is answered with the same payment when it is sent again with its key: nothing is
  -- written, and the answer does not depend on the provider, which is not called. Another request under
  -- the same key, whose hash differs, is refused and writes nothing.
  pub create_intent_replays :
      (p : Payment)
      → get_payment (c.uuid 1) db ≡ none
      → returned (request (create_intent c provider hash payload key) db) ≡ some p
      → (c' : Context) (provider' : PaymentProvider)
      → let db' = (request (create_intent c provider hash payload key) db).1 in
        (request (create_intent c' provider' hash payload key) db' ≡ (ok p, db'))
        × ((other : PaymentIntentCreate)
            → (other.payment_purpose == PaymentPurpose.professional_lead) ≡ false
            → hash payload ≢ hash other
            → request (create_intent c' provider' hash other key) db'
              ≡ (err (payment_error key_reused), db'))
  create_intent_replays p fresh h c' provider' =
      let a : IsAnswered (hash payload) key p (outcome c provider hash payload key db).1 =
        first-IsAnswered p fresh h in
      (
        answered_again c' provider' hash payload key _ p a (not_lead_of p h),
        λ other not_lead differs.
            refused_again c' provider' hash other key _ p (hash payload) a differs not_lead,
      )
