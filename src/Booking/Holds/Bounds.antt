-- ===== src/Booking/Holds/Bounds.antt =====
-- apps/api/app/domains/booking/hold_service.py: how the writes of the service change the number of an
-- owner's active holds.
use breero_com.Prelude.{
  Bool, Bool-cases, List, String, [], add, ap, arith, count, count-append, false, inl, inr, leb,
  put, string_eq, sym, update, ℕ, ◌==◌, ◌∙◌, ◌∷◌, ◌≡◌, ◌≤◌,
}
use breero_com.Models.{BookingCapacityHold, Db}
use breero_com.Context.{Context}
use breero_com.Session.{Session, commit, modify, ◌>>=◌}
use breero_com.Session.Keeps.{Keeps, Keeps-modify}
use breero_com.Booking.Holds.{audit_hold, hold_id_of, is_active_hold, put_hold}
use breero_com.Booking.Holds.Release.{expire_holds, expired_hold, is_stale, released_hold}

abbrev pub active_holds : String → ℕ → List BookingCapacityHold → ℕ
active_holds owner now rows = count (is_active_hold owner now) rows

abbrev pub IsWithin : ℕ → List BookingCapacityHold → Type 0
IsWithin now rows = (owner : String) → active_holds owner now rows ≤ 3

-- No owner has more than three active holds, in what is committed and in what queries see.
pub record KeepsLimit (now : ℕ) (s : Session Db) : Type 0 where
  pub saved : IsWithin now s.saved.holds
  pub live : IsWithin now s.live.holds

count-put_le :
    (p : BookingCapacityHold → Bool) (row : BookingCapacityHold) (rows : List BookingCapacityHold)
    → p row ≡ false
    → count p (put hold_id_of row rows) ≤ count p rows
count-put_le p row [] h = omega arith
count-put_le p row (r ∷ rows) h = ground (arith, count-put_le p row rows h)

count-update_le :
    (p q : BookingCapacityHold → Bool) (f : BookingCapacityHold → BookingCapacityHold)
    (rows : List BookingCapacityHold)
    → ((r : BookingCapacityHold) → p (f r) ≡ false)
    → count p (update q f rows) ≤ count p rows
count-update_le p q f [] h = omega arith
count-update_le p q f (r ∷ rows) h = ground (arith, count-update_le p q f rows h, h r)

-- As time goes by, active holds only become fewer.
pub count-later :
    (owner : String) (now later : ℕ) (rows : List BookingCapacityHold)
    → now ≤ later
    → active_holds owner later rows ≤ active_holds owner now rows
count-later owner now later [] h = omega arith
count-later owner now later (r ∷ rows) h = ground (arith, count-later owner now later rows h)

pub le_via : {a b : ℕ} → a ≤ b → b ≤ 3 → a ≤ 3
le_via h k = omega arith

module _ (now : ℕ) where
  pub commit-Keeps : Keeps (KeepsLimit now) commit
  unfolding ◌>>=◌
  commit-Keeps = record { kept = λ s h. record { saved = h.live; live = h.live } }

  pub put-Keeps :
      (hold : BookingCapacityHold)
      → ((owner : String) → is_active_hold owner now hold ≡ false)
      → Keeps (KeepsLimit now) (modify (put_hold hold))
  put-Keeps hold over = Keeps-modify (put_hold hold) λ s h. record {
    saved = h.saved;
    live = λ owner.
        le_via (count-put_le (is_active_hold owner now) hold s.live.holds (over owner))
          (h.live owner);
  }

  pub expired-over :
      (hold : BookingCapacityHold) (owner : String)
      → is_active_hold owner now (expired_hold hold) ≡ false
  expired-over hold owner = ground arith

  pub released-over :
      (hold : BookingCapacityHold) (t : ℕ) (owner : String)
      → is_active_hold owner now (released_hold t hold) ≡ false
  released-over hold t owner = ground arith

  pub expire-Keeps : (t : ℕ) → Keeps (KeepsLimit now) (modify (expire_holds t))
  unfolding expire_holds
  expire-Keeps t = Keeps-modify (expire_holds t) λ s h. record {
    saved = h.saved;
    live = λ owner.
        le_via
          (count-update_le (is_active_hold owner now) (is_stale t) expired_hold s.live.holds
            (λ r. expired-over r owner))
          (h.live owner);
  }

  pub audit-Keeps :
      (c : Context) (hold : BookingCapacityHold) (action : String)
      → Keeps (KeepsLimit now) (modify (audit_hold c hold action))
  unfolding audit_hold
  audit-Keeps c hold action =
      Keeps-modify (audit_hold c hold action) λ s h. record { saved = h.saved; live = h.live }

  -- A new hold of an owner who has fewer than three.
  pub added-IsWithin :
      (hold : BookingCapacityHold) (rows : List BookingCapacityHold)
      → IsWithin now rows
      → leb 3 (active_holds hold.owner_fingerprint_hash now rows) ≡ false
      → IsWithin now (add hold rows)
  added-IsWithin hold rows h room owner =
      let e = count-append (is_active_hold owner now) rows (hold ∷ []) in
      elim (Bool-cases (hold.owner_fingerprint_hash == owner)) [
        | inl own ↦
            let same = (string_eq.equal_iff hold.owner_fingerprint_hash owner).0 own in
            let fewer : leb 3 (active_holds owner now rows) ≡ false =
              ap (λ o. leb 3 (active_holds o now rows)) (sym same) ∙ room in
            ground (arith, e)
        | inr other ↦ ground (arith, e, h owner)
      ]
