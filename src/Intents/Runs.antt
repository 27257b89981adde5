-- ===== src/Intents/Runs.antt =====
-- apps/api/app/domains/booking_intents/service.py: the requests of the service in any order.
use breero_com.Prelude.{
  List, String, [], ap, arith, eqb, find-append, inl, inr, refl, some, ℕ, ◌∙◌, ◌∷◌, ◌≡◌,
}
use breero_com.Models.{BookingIntent, Db}
use breero_com.Context.{Context}
use breero_com.Session.{Tx, commit, modify, pure, request, ◌>>=◌}
use breero_com.Session.Keeps.{Keeps, Keeps-modify, Keeps-pure, keeps_rules}
use breero_com.Intents.Drafts.{
  add_intent, audit_intent, create_intent_row, get_intent, intent_id_of, read_intent,
  unless_expired,
}
use breero_com.Intents.Fields.{BookingIntentUpdate, IntentWorld}
use breero_com.Intents.Commands.{
  Submission, abandon_intent, abandon_owned, submit_intent, submit_owned, update_intent,
  update_owned,
}
use breero_com.Intents.Advances.{Advances, Advances-keeps, Follows, IsRow}
use breero_com.Intents.Versions.{
  KeepsIntents, abandon-Advances, owned-Advances, submit-Advances, unless_expired-Advances,
  update-Advances,
}
use mathlib.Core.Path.{subst}

pub data Command : Type 0 where
  start : Context → ℕ → ℕ → Command
  read : Context → ℕ → ℕ → Command
  change : Context → ℕ → ℕ → BookingIntentUpdate → ℕ → Command
  abandon : Context → ℕ → ℕ → ℕ → Command
  submit : Context → ℕ → ℕ → Submission → ℕ → Command

module _ (w : IntentWorld) where
  unfoldable pub serve : Command → Db → Db
  serve (start c service_id session_id) db =
      (request (create_intent_row c service_id session_id) db).1
  serve (read c intent_id session_id) db = (request (read_intent c intent_id session_id) db).1
  serve (change c intent_id session_id command expected) db =
      (request (update_intent w c intent_id session_id command expected) db).1
  serve (abandon c intent_id session_id expected) db =
      (request (abandon_intent c intent_id session_id expected) db).1
  serve (submit c intent_id session_id s expected) db =
      (request (submit_intent w c intent_id session_id s expected) db).1

  unfoldable pub run : List Command → Db → Db
  run [] db = db
  run (command ∷ commands) db = run commands (serve command db)

module _ (k : ℕ) (i : BookingIntent) where
  commit-Keeps : Keeps (IsRow k i) commit
  unfolding ◌>>=◌
  commit-Keeps = record { kept = λ s h. record { saved = h.live; live = h.live } }

  audit-Keeps :
      (c : Context) (x : BookingIntent) (action : String)
      → Keeps (IsRow k i) (modify (audit_intent c x action))
  unfolding audit_intent
  audit-Keeps c x action =
      Keeps-modify (audit_intent c x action) λ s h. record { saved = h.saved; live = h.live }

  add-Keeps : (x : BookingIntent) → Keeps (IsRow k i) (modify (add_intent x))
  add-Keeps x = Keeps-modify (add_intent x) λ s h. record {
    saved = h.saved;
    live =
        find-append (λ r. eqb (intent_id_of r) k) s.live.booking_intents (x ∷ []) ∙ rw h.live refl;
  }

  start-Keeps :
      (c : Context) (service_id session_id : ℕ)
      → Keeps (IsRow k i) (create_intent_row c service_id session_id)
  unfolding create_intent_row
  start-Keeps c service_id session_id =
      search (keeps_rules, commit-Keeps, audit-Keeps, add-Keeps) depth 16

  after_request :
      {A : Type 0} (m : Tx Db A) (db : Db)
      → Advances k i m
      → get_intent k db ≡ some i
      → (x : BookingIntent) × (get_intent k (request m db).1 ≡ some x) × Follows i x
  unfolding request
  after_request m db am h =
      am.kept (record { saved = db; live = db }) (record { saved = h; live = h })

  serve-Follows :
      (w : IntentWorld)
      → KeepsIntents w
      → (command : Command) (db : Db) → get_intent k db ≡ some i
      → (x : BookingIntent) × (get_intent k (serve w command db) ≡ some x) × Follows i x
  unfolding serve read_intent update_intent abandon_intent submit_intent
  serve-Follows w law (start c service_id session_id) db =
      after_request _ db (Advances-keeps k i _ (start-Keeps c service_id session_id))
  serve-Follows w law (read c intent_id session_id) db = after_request _ db (
      owned-Advances k i intent_id session_id (λ j. unless_expired c j (pure j))
        λ j loaded.
          unless_expired-Advances k i c j loaded (pure j) (Advances-keeps k i _ (Keeps-pure j)))
  serve-Follows w law (change c intent_id session_id command expected) db = after_request _ db (
      owned-Advances k i intent_id session_id (update_owned w c command expected)
        λ j loaded. update-Advances k i c j loaded w command expected)
  serve-Follows w law (abandon c intent_id session_id expected) db = after_request _ db (
      owned-Advances k i intent_id session_id (abandon_owned c expected)
        λ j loaded. abandon-Advances k i c j loaded expected)
  serve-Follows w law (submit c intent_id session_id s expected) db = after_request _ db (
      owned-Advances k i intent_id session_id (submit_owned w c s expected)
        λ j loaded. submit-Advances k i c j loaded w law s expected)

Follows-on : (i x y : BookingIntent) → Follows i x → Follows x y → Follows i y
Follows-on i x y (inl same) h = subst (λ t. Follows t y) same h
Follows-on i x y (inr later) (inl same) =
    inr (omega (arith, ap (λ (t : BookingIntent). t.version) same, later.0), later.1)
Follows-on i x y (inr later) (inr more) = inr (omega (arith, later.0, more.0), later.1)

-- A booking intent is versioned: after any requests of the service, in any order and at any times,
-- the intent is still stored, and it is the row that it was, or a row of a later version; and a row
-- that was expired or submitted is never changed. So two rows of an intent with one version are the
-- same. The creation of bookings, which is outside the service, leaves the intents as they are.
pub run-Follows :
    (w : IntentWorld)
    → KeepsIntents w
    → (commands : List Command) (k : ℕ) (i : BookingIntent) (db : Db) → get_intent k db ≡ some i
    → (x : BookingIntent) × (get_intent k (run w commands db) ≡ some x) × Follows i x
unfolding run
run-Follows w law [] k i db h = (i, h, inl refl)
run-Follows w law (command ∷ commands) k i db h =
    let (x, found, f) = serve-Follows k i w law command db h in
    let (y, found', g) = run-Follows w law commands k x (serve w command db) found in
    (y, found', Follows-on i x y f g)
