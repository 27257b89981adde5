-- ===== src/Intents/Versions.antt =====
-- apps/api/app/domains/booking_intents/service.py: the requests of the service on one intent.
use breero_com.Prelude.{
  Bool-cases, Option, String, ap, arith, eqb_iff, false, get_key, if◌then◌else◌, inl, inr, nat_eq,
  none, not, one_of, option_eq, refl, some, string_eq, sym, true, ℕ, ◌+◌, ◌==◌, ◌∙◌, ◌≡◌,
}
use breero_com.Models.{
  BookingIntent, BookingIntentStatus, Db, SlotSelection, booking_intent_status_eq,
}
use breero_com.Errors.{
  Error, already_submitted, assertion_failed, intent_expired, intent_not_editable, intent_not_found,
  intent_not_ready, version_conflict,
}
use breero_com.Context.{Context}
use breero_com.Session.{Session, Tx, gets, pure, raise, require, ◌>>=◌}
use breero_com.Session.Keeps.{Keeps, Keeps-gets, Keeps-raise, Keeps-require}
use breero_com.Session.Rules.{after_require}
use breero_com.Intents.Drafts.{
  editable_statuses, get_intent, intent_id_of, is_final, is_overdue, lapsed, owned, owned_by,
  store_intent, unless_expired,
}
use breero_com.Intents.Fields.{
  BookingIntentUpdate, BookingRequest, IntentWorld, without_slot, zone_of,
}
use breero_com.Intents.Commands.{
  Submission, abandon_owned, book_intent, change_intent, next_version, submit_owned, submitted_with,
  update_owned,
}
use breero_com.Intents.Changes.{
  cleared-SameKey, set_address-SameKey, set_date-SameKey, set_service-SameKey, set_slot-SameKey,
  set_timezone-SameKey, trans_key,
}
use breero_com.Intents.Advances.{
  Advances, Advances-bind, Advances-guard, Advances-if, Advances-keeps, Advances-lift,
  Advances-then, Advances-when, IsRow, Leaves, Loaded, Leaves-row, store-Advances,
}

-- What is relied on of `BookingService.create`: it leaves every intent as it is.
pub record KeepsIntents (w : IntentWorld) : Type 0 where
  pub kept :
      (k : ℕ) (i : BookingIntent) (r : BookingRequest) (key : String)
      → Keeps (IsRow k i) (w.create_booking r key)

editable_going : (j : BookingIntent) → one_of j.status editable_statuses ≡ true → is_final j ≡ false
editable_going j h = ground arith

ready_going :
    (j : BookingIntent)
    → (j.status == BookingIntentStatus.availability_found) ≡ true
    → is_final j ≡ false
ready_going j h = ground arith

owner_is : (x j : BookingIntent) (session_id : ℕ) → owned_by session_id (some x) ≡ some j → x ≡ j
owner_is x j session_id h = ground arith

standing_going :
    (j : BookingIntent)
    → not (j.status == BookingIntentStatus.submitted) ≡ true
    → not (j.status == BookingIntentStatus.expired) ≡ true
    → is_final j ≡ false
standing_going j h g = ground arith

module _ (k : ℕ) (i : BookingIntent) where
  quiet : {A : Type 0} (a : A) (s : Session Db) → (pure a s).1 ≡ s
  unfolding ◌>>=◌
  quiet a s = refl

  quiet_error :
      {A : Type 0} (B : Type 0) (e : Error) (a : A) (s : Session Db) → (raise {A = B} e s).1 ≡ s
  unfolding ◌>>=◌
  quiet_error B e a s = refl

  module _ (c : Context) (j : BookingIntent) (loaded : Loaded k i j) where
    lapse-Advances :
        (action : String) → is_final j ≡ false → Advances k i (store_intent c (lapsed j) action)
    lapse-Advances action going = store-Advances k i c j (lapsed j) action loaded refl refl going

    pub unless_expired-Advances :
        {A : Type 0} (rest : Tx Db A) → Advances k i rest → Advances k i (unless_expired c j rest)
    unfolding unless_expired
    unless_expired-Advances {A} rest ar = elim (Bool-cases (is_overdue c.now j)) [
      | inl overdue ↦ rw overdue (
          Advances-then k i (store_intent c (lapsed j) "booking_intent.expire")
            (λ _. raise intent_expired) (lapse-Advances "booking_intent.expire" (ground arith))
            (quiet_error A intent_expired))
      | inr current ↦ rw current (
          Advances-if k i (j.status == BookingIntentStatus.expired) (raise intent_expired) rest
            (Advances-keeps k i (raise intent_expired) (Keeps-raise intent_expired)) ar)
    ]

    -- Behind the guard of the states, the changes make one version more.
    change-Advances :
        (w : IntentWorld) (command : BookingIntentUpdate) (db : Db)
        → is_final j ≡ false
        → Advances k i (change_intent w c command j db)
    unfolding change_intent
    change-Advances w command db going = Advances-lift k i _ _ λ a ea. Advances-lift k i _ _ λ b eb.
        Advances-lift k i _ _ λ d ed. Advances-lift k i _ _ λ f ef. Advances-lift k i _ _ λ g eg.
          let clear = if command.clear_selected_slot then without_slot db f else f in
          let ja = set_service-SameKey command.service_id db j a ea in
          let jb = trans_key j a b ja (set_address-SameKey command.address_id db a b eb) in
          let jd = trans_key j b d jb (set_timezone-SameKey w command.timezone_id b d ed) in
          let jf = trans_key j d f jd (set_date-SameKey w c.now command.requested_date d f ef) in
          let jc = trans_key j f clear jf (cleared-SameKey command.clear_selected_slot db f) in
          let jg =
            trans_key j clear g jc (set_slot-SameKey w command.selected_slot db clear g eg) in
          store-Advances k i c j (next_version g) "booking_intent.update" loaded jg.0
            (ap (λ n. n + 1) jg.1) going

    pub update-Advances :
        (w : IntentWorld) (command : BookingIntentUpdate) (expected : ℕ)
        → Advances k i (update_owned w c command expected j)
    unfolding update_owned
    update-Advances w command expected = unless_expired-Advances _ (
        Advances-guard k i (j.version == expected) (version_conflict j.version) _ λ _.
          Advances-guard k i (one_of j.status editable_statuses) intent_not_editable _ λ editable.
            Advances-bind k i (gets (λ db. db)) (change_intent w c command j)
              (Keeps-gets (λ db. db))
              (λ db. change-Advances w command db (editable_going j editable)))

    pub abandon-Advances : (expected : ℕ) → Advances k i (abandon_owned c expected j)
    unfolding abandon_owned
    abandon-Advances expected =
        Advances-guard k i (j.version == expected) (version_conflict j.version) _ λ _.
          Advances-guard k i (not (j.status == BookingIntentStatus.submitted)) already_submitted _
            λ open_to.
              Advances-when k i (not (j.status == BookingIntentStatus.expired)) _ λ standing.
                Advances-then k i (store_intent c (lapsed j) "booking_intent.abandon")
                  (λ _. pure tt)
                  (lapse-Advances "booking_intent.abandon" (standing_going j open_to standing))
                  (λ a. quiet tt)

    -- The booking is made in between, and leaves the intents as they are.
    book-Advances :
        (w : IntentWorld)
        → KeepsIntents w
        → (s : Submission) (slot : SlotSelection) → is_final j ≡ false
        → Advances k i (book_intent w c s j slot)
    unfolding book_intent
    book-Advances w law s slot going = Advances-lift k i (zone_of w j.timezone_id) _ λ zone _.
        Advances-bind k i _ _ (law.kept k i _ _) λ booking.
          Advances-then k i _ (λ _. pure booking)
            (store-Advances k i c j (submitted_with booking.id j) "booking_intent.submit" loaded
              refl refl going)
            (λ a. quiet booking)

    pub submit-Advances :
        (w : IntentWorld)
        → KeepsIntents w
        → (s : Submission) (expected : ℕ) → Advances k i (submit_owned w c s expected j)
    unfolding submit_owned
    submit-Advances w law s expected = unless_expired-Advances _ (
        Advances-guard k i (j.version == expected) (version_conflict j.version) _ λ _.
          Advances-guard k i (j.status == BookingIntentStatus.availability_found) intent_not_ready _
            λ ready. Advances-guard k i _ assertion_failed _ λ _.
              Advances-bind k i (require j.selected_slot assertion_failed) (book_intent w c s j)
                (Keeps-require j.selected_slot assertion_failed)
                (λ slot. book-Advances w law s slot (ready_going j ready)))

  owned-Loaded :
      (o : Option BookingIntent) (id session_id : ℕ) (db : Db) (j : BookingIntent)
      → get_intent id db ≡ o
      → owned_by session_id o ≡ some j
      → get_intent k db ≡ some i
      → Loaded k i j
  owned-Loaded none id session_id db j e own row same = absurd (cc)
  owned-Loaded (some x) id session_id db j e own row same =
      let is_x : x ≡ j = owner_is x j session_id own in
      let key : x.id ≡ id = get_key intent_id_of id db.booking_intents x e in
      let here : j.id ≡ k = (eqb_iff j.id k).0 same in
      let at : id ≡ k = sym key ∙ ap intent_id_of is_x ∙ here in
      let found : get_intent k db ≡ some x = ap (λ n. get_intent n db) (sym at) ∙ e in
      ground (arith, found)

  -- A request on an intent of the session.
  pub owned-Advances :
      {A : Type 0} (intent_id session_id : ℕ) (f : BookingIntent → Tx Db A)
      → ((j : BookingIntent) → Loaded k i j → Advances k i (f j))
      → Advances k i
          (gets (owned intent_id session_id) >>= λ found. require found intent_not_found >>= f)
  unfolding ◌>>=◌
  owned-Advances intent_id session_id f af = record {
    kept = λ s h.
        after_require (λ r. Leaves k i r.1) (owned intent_id session_id s.live) intent_not_found f s
          (Leaves-row k i s h)
          (λ j own.
            (af j (
                owned-Loaded (get_intent intent_id s.live) intent_id session_id s.live j refl own
                  h.live)).kept
              s h);
  }
