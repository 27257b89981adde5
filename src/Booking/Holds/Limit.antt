-- ===== src/Booking/Holds/Limit.antt =====
-- apps/api/app/domains/booking/hold_service.py: the requests of the service in the order of time.
use breero_com.Prelude.{
  List, Option, String, [], any, arith, false, leb, none, not, some, ℕ, ◌∷◌, ◌≡◌, ◌≤◌,
}
use breero_com.Models.{Address, BookingCapacityHold, Db, Service}
use breero_com.Errors.{slot_gone, too_many_holds}
use breero_com.Context.{Context}
use breero_com.Session.{Session, Tx, modify, request, ◌>>=◌}
use breero_com.Session.Keeps.{Keeps, keeps_rules}
use breero_com.Session.Rules.{after_guard}
use breero_com.Booking.Timezones.{LocalizedInterval}
use breero_com.Booking.Holds.{
  HoldRequest, Surroundings, add_hold, create, create_new, create_or_existing, existing_hold,
  has_hold_key, hold_for, hold_slot, insert_hold, record_hold, store_hold,
}
use breero_com.Booking.Holds.Release.{expire_stale, get_owned, read_hold, release, release_held}
use breero_com.Booking.Holds.Bounds.{
  IsWithin, KeepsLimit, active_holds, added-IsWithin, audit-Keeps, commit-Keeps, count-later,
  expire-Keeps, expired-over, le_via, put-Keeps, released-over,
}

module _ (w : Surroundings) (c : Context) where
  record_hold-Keeps : (hold : BookingCapacityHold) → Keeps (KeepsLimit c.now) (record_hold c hold)
  unfolding record_hold
  record_hold-Keeps hold = search (keeps_rules, commit-Keeps, audit-Keeps) depth 16

  insert_keeps :
      (hold : BookingCapacityHold) (s : Session Db)
      → KeepsLimit c.now s
      → leb 3 (active_holds hold.owner_fingerprint_hash c.now s.live.holds) ≡ false
      → KeepsLimit c.now (insert_hold c hold s).1
  unfolding insert_hold ◌>>=◌
  insert_keeps hold s h room =
      after_guard (λ r. KeepsLimit c.now r.1)
        (not (any (has_hold_key hold.idempotency_key) s.live.holds)) slot_gone
        (λ _. modify (add_hold hold) >>= λ _. record_hold c hold) s (λ refused. h)
        (λ passed.
          (record_hold-Keeps hold).kept (record { saved = s.saved; live = add_hold hold s.live })
            (record { saved = h.saved; live = added-IsWithin c.now hold s.live.holds h.live room }))

  store_hold-Keeps : (hold : BookingCapacityHold) → Keeps (KeepsLimit c.now) (store_hold c hold)
  unfolding store_hold ◌>>=◌
  store_hold-Keeps hold = record {
    kept = λ s h.
        let full = leb 3 (active_holds hold.owner_fingerprint_hash c.now s.live.holds) in
        after_guard (λ r. KeepsLimit c.now r.1) (not full) too_many_holds (λ _. insert_hold c hold)
          s (λ refused. h) (λ passed. insert_keeps hold s h (ground arith));
  }

  hold_slot-Keeps :
      (r : HoldRequest) (fingerprint : String) (service : Service) (address : Address)
      (interval : LocalizedInterval)
      → Keeps (KeepsLimit c.now) (hold_slot w c r fingerprint service address interval)
  unfolding hold_slot
  hold_slot-Keeps r fingerprint service address interval =
      search (keeps_rules, store_hold-Keeps) depth 16

  create_new-Keeps :
      (r : HoldRequest) (fingerprint : String)
      → Keeps (KeepsLimit c.now) (create_new w c r fingerprint)
  unfolding create_new hold_for
  create_new-Keeps r fingerprint = search (keeps_rules, hold_slot-Keeps) depth 24

  or_existing-Keeps :
      (r : HoldRequest) (fingerprint : String) (o : Option BookingCapacityHold)
      → Keeps (KeepsLimit c.now) (create_or_existing w c r fingerprint o)
  unfolding create_or_existing existing_hold
  or_existing-Keeps r fingerprint none = create_new-Keeps r fingerprint
  or_existing-Keeps r fingerprint (some hold) = search keeps_rules depth 16

  create-Keeps : (r : HoldRequest) → Keeps (KeepsLimit c.now) (create w c r)
  unfolding create
  create-Keeps r = search (keeps_rules, or_existing-Keeps) depth 16

  get_owned-Keeps :
      (hold_id : ℕ) (booking_session : String)
      → Keeps (KeepsLimit c.now) (get_owned w c hold_id booking_session)
  unfolding get_owned read_hold
  get_owned-Keeps hold_id booking_session =
      search (keeps_rules, commit-Keeps, put-Keeps, expired-over) depth 24

  release-Keeps :
      (hold_id : ℕ) (booking_session : String)
      → Keeps (KeepsLimit c.now) (release w c hold_id booking_session)
  unfolding release release_held
  release-Keeps hold_id booking_session =
      search (keeps_rules, commit-Keeps, put-Keeps, audit-Keeps, released-over) depth 24

  expire_stale-Keeps : Keeps (KeepsLimit c.now) (expire_stale c)
  unfolding expire_stale
  expire_stale-Keeps = search (keeps_rules, commit-Keeps, expire-Keeps) depth 16

-- A request of the service, in the surroundings in which it is served.
pub data Command : Type 0 where
  hold : Context → HoldRequest → Command
  read : Context → ℕ → String → Command
  give_back : Context → ℕ → String → Command
  clear_stale : Context → Command

abbrev time_of_command : Command → ℕ
time_of_command (hold c r) = c.now
time_of_command (read c hold_id booking_session) = c.now
time_of_command (give_back c hold_id booking_session) = c.now
time_of_command (clear_stale c) = c.now

module _ (w : Surroundings) where
  unfoldable pub serve : Command → Db → Db
  serve (hold c r) db = (request (create w c r) db).1
  serve (read c hold_id booking_session) db = (request (get_owned w c hold_id booking_session) db).1
  serve (give_back c hold_id booking_session) db =
      (request (release w c hold_id booking_session) db).1
  serve (clear_stale c) db = (request (expire_stale c) db).1

  unfoldable pub run : List Command → Db → Db
  run [] db = db
  run (command ∷ commands) db = run commands (serve command db)

  -- The requests come one after the other, the first not before `now`.
  abbrev InOrder : ℕ → List Command → Type 0
  InOrder now [] = Unit
  InOrder now (command ∷ commands) =
      (now ≤ time_of_command command) × InOrder (time_of_command command) commands

  abbrev time_after : ℕ → List Command → ℕ
  time_after now [] = now
  time_after now (command ∷ commands) = time_after (time_of_command command) commands

  after_request :
      {A : Type 0} (now : ℕ) (m : Tx Db A) (db : Db)
      → Keeps (KeepsLimit now) m
      → IsWithin now db.holds
      → IsWithin now (request m db).1.holds
  unfolding request
  after_request now m db km h =
      (km.kept (record { saved = db; live = db }) (record { saved = h; live = h })).saved

  serve-IsWithin :
      (command : Command) (db : Db)
      → IsWithin (time_of_command command) db.holds
      → IsWithin (time_of_command command) (serve command db).holds
  unfolding serve
  serve-IsWithin (hold c r) db = after_request c.now _ db (create-Keeps w c r)
  serve-IsWithin (read c hold_id booking_session) db =
      after_request c.now _ db (get_owned-Keeps w c hold_id booking_session)
  serve-IsWithin (give_back c hold_id booking_session) db =
      after_request c.now _ db (release-Keeps w c hold_id booking_session)
  serve-IsWithin (clear_stale c) db = after_request c.now _ db (expire_stale-Keeps w c)

  -- No booking session ever has more than three active holds: if none has at the start, then none has
  -- after any requests for holds, reads, releases and clearances of stale holds that come in the order
  -- of time, at the time of the last of them.
  pub run-IsWithin :
      (commands : List Command) (now : ℕ) (db : Db)
      → InOrder now commands
      → IsWithin now db.holds
      → IsWithin (time_after now commands) (run commands db).holds
  unfolding run
  run-IsWithin [] now db order h = h
  run-IsWithin (command ∷ commands) now db order h =
      run-IsWithin commands (time_of_command command) (serve command db) order.1 (
        serve-IsWithin command db λ owner.
          le_via (count-later owner now (time_of_command command) db.holds order.0) (h owner))
