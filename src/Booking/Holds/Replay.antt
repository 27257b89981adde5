-- ===== src/Booking/Holds/Replay.antt =====
-- apps/api/app/domains/booking/hold_service.py: `create` on a key that has been used.
use breero_com.Prelude.{
  Option, String, any, ap, arith, count, find, find-add, get, is_empty, leb, none, not, refl, some,
  string_eq, true, ◌==◌, ◌∙◌, ◌≡◌,
}
use breero_com.Models.{Address, BookingCapacityHold, Db, Service}
use breero_com.Errors.{
  Error, hold_key_conflict, no_provider_free, outside_service_area, quote_required,
  service_not_bookable, slot_gone, timezone_mismatch, too_many_holds,
}
use breero_com.Context.{Context}
use breero_com.Session.{
  Outcome, Session, Tx, err, gets, guard, lift, modify, ok, pure, request, require, returned, ◌>>=◌,
}
use breero_com.Session.Rules.{after_guard, after_lift, after_require}
use breero_com.Booking.Timezones.{LocalizedInterval, enforce_breero_hours, local_interval}
use breero_com.Booking.Holds.{
  HoldRequest, ProviderCandidate, Surroundings, add_hold, audit_hold, create, create_new,
  create_or_existing, end_of_visit, existing_hold, first, has_hold_key, hold_for, hold_slot,
  insert_hold, is_active_hold, is_bookable, is_served, max_active_holds_per_owner, new_hold,
  owner_fingerprint, record_hold, store_hold,
}

-- If a hold was returned, it is what is stored under the key, for the owner.
abbrev Stored : String → String → Outcome BookingCapacityHold × Session Db → Type 0
Stored key owner (err e, s) = Unit
Stored key owner (ok h, s) =
    (find (has_hold_key key) s.saved.holds ≡ some h) × (h.owner_fingerprint_hash ≡ owner)

audit_beside :
    (c : Context) (hold : BookingCapacityHold) (action : String) (db : Db)
    → (audit_hold c hold action db).holds ≡ db.holds
unfolding audit_hold
audit_beside c hold action db = refl

insert_hold-Stored :
    (c : Context) (hold : BookingCapacityHold) (s : Session Db)
    → find (has_hold_key hold.idempotency_key) s.live.holds ≡ none
    → Stored hold.idempotency_key hold.owner_fingerprint_hash (insert_hold c hold s)
unfolding insert_hold record_hold ◌>>=◌
insert_hold-Stored c hold s fresh =
    after_guard (Stored hold.idempotency_key hold.owner_fingerprint_hash)
      (not (any (has_hold_key hold.idempotency_key) s.live.holds)) slot_gone
      (λ _. modify (add_hold hold) >>= λ _. record_hold c hold) s (λ refused. tt)
      (λ passed. (
        rw (audit_beside c hold "capacity_hold.created" (add_hold hold s.live)) (
            find-add (has_hold_key hold.idempotency_key) hold s.live.holds fresh
              ((string_eq.equal_iff hold.idempotency_key hold.idempotency_key).1 refl)),
        refl,
      ))

store_hold-Stored :
    (c : Context) (hold : BookingCapacityHold) (s : Session Db)
    → find (has_hold_key hold.idempotency_key) s.live.holds ≡ none
    → Stored hold.idempotency_key hold.owner_fingerprint_hash (store_hold c hold s)
unfolding store_hold ◌>>=◌
store_hold-Stored c hold s fresh =
    after_guard (Stored hold.idempotency_key hold.owner_fingerprint_hash)
      (not (
        leb max_active_holds_per_owner
          (count (is_active_hold hold.owner_fingerprint_hash c.now) s.live.holds)))
      too_many_holds (λ _. insert_hold c hold) s (λ refused. tt)
      (λ passed. insert_hold-Stored c hold s fresh)

module _ (w : Surroundings) (c : Context) (r : HoldRequest) (owner : String) (s : Session Db)
    (fresh : find (has_hold_key r.idempotency_key) s.live.holds ≡ none) where
  new_hold-Stored :
      (service : Service) (address : Address) (interval : LocalizedInterval)
      (chosen : ProviderCandidate)
      → Stored r.idempotency_key owner
          (store_hold c (new_hold c r owner service address interval chosen) s)
  unfolding new_hold
  new_hold-Stored service address interval chosen =
      store_hold-Stored c (new_hold c r owner service address interval chosen) s fresh

  hold_slot-Stored :
      (service : Service) (address : Address) (interval : LocalizedInterval)
      → Stored r.idempotency_key owner (hold_slot w c r owner service address interval s)
  unfolding hold_slot ◌>>=◌
  hold_slot-Stored service address interval =
      let found =
        w.candidates service address interval.start_utc interval.end_utc r.emergency none s.live in
      after_require (Stored r.idempotency_key owner) (first found) no_provider_free
        (λ chosen.
          gets (
            w.candidates service address interval.start_utc interval.end_utc r.emergency
              (some chosen.professional_id))
          >>= λ refreshed. guard (not (is_empty refreshed)) slot_gone >>= λ _.
              store_hold c (new_hold c r owner service address interval chosen))
        s tt
        (λ chosen e.
          after_guard (Stored r.idempotency_key owner)
            (not (
              is_empty (
                w.candidates service address interval.start_utc interval.end_utc r.emergency
                  (some chosen.professional_id) s.live)))
            slot_gone (λ _. store_hold c (new_hold c r owner service address interval chosen)) s
            (λ refused. tt) (λ passed. new_hold-Stored service address interval chosen))

  hold_for-Stored :
      (service : Service) (address : Address)
      → Stored r.idempotency_key owner (hold_for w c r owner service address s)
  unfolding hold_for ◌>>=◌
  hold_for-Stored service address =
      let end_local = end_of_visit service r.start_local in
      let interval = local_interval w.zones r.start_local end_local r.timezone_id none none in
      after_guard (Stored r.idempotency_key owner) (r.timezone_id == address.timezone_name)
        timezone_mismatch
        (λ _.
          lift (
            enforce_breero_hours r.start_local.clock end_local.clock service.emergency_eligible
              true)
          >>= λ _. lift interval >>= hold_slot w c r owner service address)
        s (λ refused. tt)
        (λ passed.
          after_lift (Stored r.idempotency_key owner)
            (enforce_breero_hours r.start_local.clock end_local.clock service.emergency_eligible
              true)
            (λ _. lift interval >>= hold_slot w c r owner service address) s (λ e closed. tt)
            (λ _ opened.
              after_lift (Stored r.idempotency_key owner) interval
                (hold_slot w c r owner service address) s (λ e closed. tt)
                (λ i at. hold_slot-Stored service address i)))

  create_new-Stored : Stored r.idempotency_key owner (create_new w c r owner s)
  unfolding create_new ◌>>=◌
  create_new-Stored =
      let P = Stored r.idempotency_key owner in
      let service' = get (λ x. x.id) r.service_id s.live.services in
      let address' = get (λ x. x.id) r.address_id s.live.addresses in
      let for_address : Service → Address → Tx Db BookingCapacityHold = hold_for w c r owner in
      let served : Service → Tx Db BookingCapacityHold = λ service.
        guard (is_served address') outside_service_area >>= λ _.
        require address' outside_service_area >>= for_address service in
      let priced : Service → Tx Db BookingCapacityHold =
        λ service. guard (not service.quote_required) quote_required >>= λ _. served service in
      after_guard P (is_bookable service') service_not_bookable
        (λ _. require service' service_not_bookable >>= priced) s (λ refused. tt)
        (λ _. after_require P service' service_not_bookable priced s tt (λ service e.
          after_guard P (not service.quote_required) quote_required (λ _. served service) s
            (λ refused. tt)
            (λ _.
              after_guard P (is_served address') outside_service_area
                (λ _. require address' outside_service_area >>= for_address service) s
                (λ refused. tt)
                (λ _.
                  after_require P address' outside_service_area (for_address service) s tt
                    (λ address e'. hold_for-Stored service address)))))

-- What `create` returns, for the owner that the session names.
or_existing-Stored :
    (w : Surroundings) (c : Context) (r : HoldRequest) (owner : String) (db : Db)
    (o : Option BookingCapacityHold)
    → find (has_hold_key r.idempotency_key) db.holds ≡ o
    → Stored r.idempotency_key owner
        (create_or_existing w c r owner o (record { saved = db; live = db }))
unfolding create_or_existing existing_hold ◌>>=◌
or_existing-Stored w c r owner db none e =
    create_new-Stored w c r owner (record { saved = db; live = db }) e
or_existing-Stored w c r owner db (some hold) e =
    after_guard (Stored r.idempotency_key owner) (hold.owner_fingerprint_hash == owner)
      hold_key_conflict (λ _. pure hold) (record { saved = db; live = db }) (λ refused. tt)
      (λ own. (e, (string_eq.equal_iff hold.owner_fingerprint_hash owner).0 own))

Stored-result :
    (key owner : String) (t : Outcome BookingCapacityHold × Session Db) (h : BookingCapacityHold)
    → Stored key owner t
    → returned (t.0, t.1.saved) ≡ some h
    → (find (has_hold_key key) t.1.saved.holds ≡ some h) × (h.owner_fingerprint_hash ≡ owner)
Stored-result key owner (err e, s) h stored returns = absurd (cc)
Stored-result key owner (ok a, s) h stored returns =
    let same : a ≡ h = ground arith in (stored.0 ∙ ap some same, rw (← same) stored.1)

create_runs :
    (w : Surroundings) (c : Context) (r : HoldRequest) (db : Db) (owner : String)
    → owner_fingerprint w.sha256 r.booking_session ≡ ok owner
    → let t =
        create_or_existing w c r owner
          (find (has_hold_key r.idempotency_key) db.holds)
          (record { saved = db; live = db }) in
      request (create w c r) db ≡ (t.0, t.1.saved)
unfolding create request ◌>>=◌
create_runs w c r db owner names = rw names refl

create_unnamed :
    (w : Surroundings) (c : Context) (r : HoldRequest) (db : Db) (e : Error)
    → owner_fingerprint w.sha256 r.booking_session ≡ err e
    → request (create w c r) db ≡ (err e, db)
unfolding create request ◌>>=◌
create_unnamed w c r db e names = rw names refl

-- A run that returned a hold has read the session, and stored or found the hold.
create-returned :
    (w : Surroundings) (c : Context) (r : HoldRequest) (db : Db) (h : BookingCapacityHold)
    (fingerprint : Outcome String)
    → owner_fingerprint w.sha256 r.booking_session ≡ fingerprint
    → returned (request (create w c r) db) ≡ some h
    → (owner : String) × (fingerprint ≡ ok owner)
      × (find (has_hold_key r.idempotency_key) (request (create w c r) db).1.holds ≡ some h)
      × (h.owner_fingerprint_hash ≡ owner)
create-returned w c r db h (err e) names returns =
    let returns' = rw (create_unnamed w c r db e names) at returns in absurd (cc)
create-returned w c r db h (ok owner) names returns =
    let run = create_runs w c r db owner names in
    let o = find (has_hold_key r.idempotency_key) db.holds in
    let stored =
      Stored-result r.idempotency_key owner
        (create_or_existing w c r owner o (record { saved = db; live = db })) h
        (or_existing-Stored w c r owner db o refl) (rw run at returns) in
    (owner, refl, rw run stored.0, stored.1)

-- The second request, on a key that has the hold.
create_again :
    (w : Surroundings) (c : Context) (r : HoldRequest) (db : Db) (h : BookingCapacityHold)
    (owner : String)
    → owner_fingerprint w.sha256 r.booking_session ≡ ok owner
    → find (has_hold_key r.idempotency_key) db.holds ≡ some h
    → h.owner_fingerprint_hash ≡ owner
    → request (create w c r) db ≡ (ok h, db)
unfolding create create_or_existing existing_hold request ◌>>=◌
create_again w c r db h owner names found own =
    let own' = (string_eq.equal_iff h.owner_fingerprint_hash owner).1 own in
    rw (names, found, own') refl

-- A request for a hold is idempotent: when one has returned a hold, any later request with the same
-- key, from the same booking session, returns that hold and changes nothing, whatever slot it asks
-- for and whenever it comes, as long as nothing else has changed the database.
pub create-replays :
    (w : Surroundings) (c c' : Context) (r r' : HoldRequest) (db : Db) (h : BookingCapacityHold)
    → returned (request (create w c r) db) ≡ some h
    → r'.idempotency_key ≡ r.idempotency_key
    → r'.booking_session ≡ r.booking_session
    → request (create w c' r') (request (create w c r) db).1 ≡ (ok h, (request (create w c r) db).1)
create-replays w c c' r r' db h returns key session =
    let (owner, names, found, own) =
      create-returned w c r db h (owner_fingerprint w.sha256 r.booking_session) refl returns in
    create_again w c' r' (request (create w c r) db).1 h owner
      (ap (owner_fingerprint w.sha256) session ∙ names)
      (ap (λ k. find (has_hold_key k) (request (create w c r) db).1.holds) key ∙ found) own
