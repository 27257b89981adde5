-- ===== src/Intents/Advances.antt =====
-- apps/api/app/domains/booking_intents/service.py: how the requests of the service change one intent.
use breero_com.Prelude.{
  Bool, Bool-cases, String, ap, arith, eqb, false, get-put, if◌then◌else◌, inl, inr, refl, some,
  sym, true, ℕ, ◌+◌, ◌<◌, ◌∙◌, ◌≡◌, ◌⊎◌,
}
use breero_com.Models.{BookingIntent, Db}
use breero_com.Errors.{Error}
use breero_com.Context.{Context}
use breero_com.Session.{Outcome, Session, Tx, continue, err, guard, lift, ok, when, ◌>>=◌}
use breero_com.Session.Keeps.{Keeps}
use breero_com.Intents.Drafts.{audit_intent, get_intent, intent_id_of, is_final, store_intent}

-- The same row; or a later version of a row that was not final.
abbrev pub Follows : BookingIntent → BookingIntent → Type 0
Follows i x = (x ≡ i) ⊎ ((i.version < x.version) × (is_final i ≡ false))

pub record IsRow (k : ℕ) (i : BookingIntent) (s : Session Db) : Type 0 where
  pub saved : get_intent k s.saved ≡ some i
  pub live : get_intent k s.live ≡ some i

abbrev pub Leaves : ℕ → BookingIntent → Session Db → Type 0
Leaves k i s = (x : BookingIntent) × (get_intent k s.saved ≡ some x) × Follows i x

pub record Advances {A : Type 0} (k : ℕ) (i : BookingIntent) (m : Tx Db A) : Type 0 where
  pub kept : (s : Session Db) → IsRow k i s → Leaves k i (m s).1

-- If the row that was loaded is the one in question, it is that row.
abbrev pub Loaded : ℕ → BookingIntent → BookingIntent → Type 0
Loaded k i j = eqb j.id k ≡ true → j ≡ i

module _ (k : ℕ) (i : BookingIntent) where
  pub Leaves-row : (s : Session Db) → IsRow k i s → Leaves k i s
  Leaves-row s h = (i, h.saved, inl refl)

  pub Advances-keeps : {A : Type 0} (m : Tx Db A) → Keeps (IsRow k i) m → Advances k i m
  Advances-keeps m km = record { kept = λ s h. Leaves-row (m s).1 (km.kept s h) }

  Advances-continue :
      {A B : Type 0} (r : Outcome A) (f : A → Tx Db B) (s : Session Db)
      → IsRow k i s
      → ((a : A) → Advances k i (f a))
      → Leaves k i (continue r f s).1
  Advances-continue (ok a) f s h af = (af a).kept s h
  Advances-continue (err e) f s h af = Leaves-row s h

  pub Advances-bind :
      {A B : Type 0} (m : Tx Db A) (f : A → Tx Db B)
      → Keeps (IsRow k i) m
      → ((a : A) → Advances k i (f a))
      → Advances k i (m >>= f)
  unfolding ◌>>=◌
  Advances-bind m f km af = record {
    kept = λ s h. Advances-continue (m s).0 f (m s).1 (km.kept s h) af;
  }

  pub Advances-if :
      {A : Type 0} (b : Bool) (m n : Tx Db A)
      → Advances k i m
      → Advances k i n
      → Advances k i (if b then m else n)
  Advances-if true m n am an = am
  Advances-if false m n am an = an

  -- A service call that gives a value that is known to be good.
  pub Advances-lift :
      {A B : Type 0} (r : Outcome A) (f : A → Tx Db B)
      → ((a : A) → r ≡ ok a → Advances k i (f a))
      → Advances k i (lift r >>= f)
  unfolding ◌>>=◌
  Advances-lift (ok a) f af = record { kept = λ s h. (af a refl).kept s h }
  Advances-lift (err e) f af = record { kept = λ s h. Leaves-row s h }

  pub Advances-guard :
      {B : Type 0} (b : Bool) (e : Error) (f : Unit {0} → Tx Db B)
      → (b ≡ true → Advances k i (f tt))
      → Advances k i (guard b e >>= f)
  unfolding ◌>>=◌
  Advances-guard true e f af = record { kept = λ s h. (af refl).kept s h }
  Advances-guard false e f af = record { kept = λ s h. Leaves-row s h }

  pub Advances-when :
      (b : Bool) (m : Tx Db (Unit {0})) → (b ≡ true → Advances k i m) → Advances k i (when b m)
  unfolding ◌>>=◌
  Advances-when true m am = record { kept = λ s h. (am refl).kept s h }
  Advances-when false m am = record { kept = λ s h. Leaves-row s h }

  -- What stores a row, and then does nothing to the database.
  pub Advances-then :
      {A B : Type 0} (m : Tx Db A) (f : A → Tx Db B)
      → Advances k i m
      → ((a : A) (s : Session Db) → (f a s).1 ≡ s)
      → Advances k i (m >>= f)
  unfolding ◌>>=◌
  Advances-then {A} m f am quiet = record { kept = λ s h. by_result (m s).0 (m s).1 (am.kept s h) }
    where
      by_result : (r : Outcome A) (s : Session Db) → Leaves k i s → Leaves k i (continue r f s).1
      by_result (ok a) s h = rw (quiet a s) h
      by_result (err e) s h = h

  -- The new version of a loaded row that is not final.
  pub store-Advances :
      (c : Context) (j x : BookingIntent) (action : String)
      → Loaded k i j
      → x.id ≡ j.id
      → x.version ≡ j.version + 1
      → is_final j ≡ false
      → Advances k i (store_intent c x action)
  unfolding store_intent audit_intent ◌>>=◌
  store-Advances c j x action loaded id version going = record {
    kept = λ s h.
        let e = get-put intent_id_of x k s.live.booking_intents in
        elim (Bool-cases (eqb x.id k)) [
          | inl same ↦
              let j_is : j ≡ i = loaded (ap (λ n. eqb n k) (sym id) ∙ same) in
              let later : i.version < x.version = ground arith in
              let was : is_final i ≡ false = ap is_final (sym j_is) ∙ going in
              (x, e ∙ rw (same, h.live) refl, inr (later, was))
          | inr other ↦ (i, e ∙ rw (other, h.live) refl, inl refl)
        ];
  }
