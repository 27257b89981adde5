-- ===== src/Payments/Refunds/Balance.antt =====
-- apps/api/app/domains/payments/service.py, `refund`: the balance of a payment.
use breero_com.Prelude.{
  List, Option, Option-cases, String, [], arith, get, get-put, get_key, inl, inr, is_present, leb,
  ltb, nat_eq, none, not, one_of, or_else, put, refl, some, sum-append, sym, true, ℕ, ◌+◌, ◌-◌,
  ◌||◌, ◌∙◌, ◌∷◌, ◌≡◌, ◌≤◌,
}
use breero_com.Models.{Db, IntegrationEvent, Payment, PaymentStatus, Refund, payment_status_eq}
use breero_com.Errors.{not_refundable, payment_error, payment_missing, refund_exceeds_balance}
use breero_com.Context.{Context, publish, record_audit}
use breero_com.Session.{Session, commit, found_or, gets, lift, modify, request, ◌>>=◌}
use breero_com.Session.Keeps.{Keeps, Keeps-modify, keeps_rules}
use breero_com.Session.Rules.{after_guard, after_lift, after_require}
use breero_com.Jobs.{log_transition}
use breero_com.Payments.{PaymentProvider, ProviderRefund, get_payment, payment_id_of, put_payment}
use breero_com.Payments.Settle.{create_job}
use breero_com.Payments.Settle.Keeps.{
  SettleKeeps, create_missing_job-Keeps, mark-Keeps, resume_paid_job-Keeps,
}
use breero_com.Payments.Refunds.{
  RefundRequest, add_refund, finish_refund, is_active, mark_payment_refunded, new_refund,
  new_refund_for, refund_amount, refund_by_key, refund_loaded, refunded, refunded_payment,
  request_refund, store_refund,
}
use breero_com.Payments.Refunds.{refund}

-- The refunds of a payment that are made or on their way are within what was captured of it.
pub record IsCovered (db : Db) : Type 0 where
  pub within_captured :
      (payment_id : ℕ) (p : Payment)
      → get_payment payment_id db ≡ some p
      → refunded payment_id db ≤ p.captured_amount_minor

-- A session in which a payment may be written back as long as this much stays captured of it.
record IsReady (payment_id captured : ℕ) (s : Session Db) : Type 0 where
  saved : IsCovered s.saved
  live : IsCovered s.live
  owner :
      (p : Payment) → get_payment payment_id s.live ≡ some p → p.captured_amount_minor ≡ captured

-- What is found after a payment was written back: what was captured of it is what it was.
put_captured :
    (p q : Payment) (k : ℕ) (rows : List Payment)
    → ((x : Payment)
        → get payment_id_of p.id rows ≡ some x
        → x.captured_amount_minor ≡ p.captured_amount_minor)
    → get payment_id_of k (put payment_id_of p rows) ≡ some q
    → (old : Payment) × (get payment_id_of k rows ≡ some old)
      × (old.captured_amount_minor ≡ q.captured_amount_minor)
put_captured p q k rows owner found = elim (Option-cases (get payment_id_of k rows)) [
  | inl missing ↦ ground (arith, get-put payment_id_of p k rows)
  | inr (old, there) ↦ (old, there, ground (arith, get-put payment_id_of p k rows, owner old))
]

module _ {payment_id captured : ℕ} where
  Ready-modify :
      (f : Db → Db)
      → ((db : Db) → ((f db).payments ≡ db.payments) × ((f db).refunds ≡ db.refunds))
      → Keeps (IsReady payment_id captured) (modify f)
  Ready-modify f same = Keeps-modify f λ s h.
      let (payments, refunds) = same s.live in
      record {
        saved = h.saved;
        live = record {
          within_captured = λ k p. simp (payments, refunds) (h.live.within_captured k p);
        };
        owner = λ p. simp payments (h.owner p);
      }

  put_payment-IsReady :
      (p : Payment)
      → p.id ≡ payment_id
      → p.captured_amount_minor ≡ captured
      → Keeps (IsReady payment_id captured) (modify (put_payment p))
  put_payment-IsReady p same_id same_captured =
      let owner_of : (s : Session Db)
          → IsReady payment_id captured s
          → (x : Payment) → get payment_id_of p.id s.live.payments ≡ some x
          → x.captured_amount_minor ≡ p.captured_amount_minor =
        λ s h x there. h.owner x (rw (← same_id) there) ∙ sym same_captured in
      Keeps-modify _ λ s h. record {
        saved = h.saved;
        live = record {
          within_captured = λ k q found.
              let (old, there, same) = put_captured p q k s.live.payments (owner_of s h) found in
              rw (← same) (h.live.within_captured k old there);
        };
        owner = λ q found.
            let (old, there, same) =
              put_captured p q payment_id s.live.payments (owner_of s h) found in
            sym same ∙ h.owner old there;
      }

  Ready-commit : Keeps (IsReady payment_id captured) commit
  unfolding ◌>>=◌
  Ready-commit = record { kept = λ s h. record { saved = h.live; live = h.live; owner = h.owner } }

  ready : SettleKeeps (IsReady payment_id captured)
  unfolding log_transition create_job
  ready = record {
    purchase = λ p. Ready-modify _ (λ db. (refl, refl));
    lead = λ l. Ready-modify _ (λ db. (refl, refl));
    request = λ r. Ready-modify _ (λ db. (refl, refl));
    booking = λ b. Ready-modify _ (λ db. (refl, refl));
    event = λ e. Ready-modify _ (λ db. (refl, refl));
    paid_job = resume_paid_job-Keeps (λ event j. Ready-modify _ (λ db. (refl, refl)));
    missing_job = create_missing_job-Keeps (λ c b. Ready-modify _ (λ db. (refl, refl)));
  }

  audit-IsReady :
      (c : Context) (actor_id : Option ℕ) (action kind : String) (id : ℕ)
      (metadata : List (String × String))
      → Keeps
          (IsReady payment_id captured)
          (modify (record_audit c actor_id action kind id metadata))
  audit-IsReady c actor_id action kind id metadata = Ready-modify _ (λ db. (refl, refl))

  publish-IsReady :
      (e : IntegrationEvent) → Keeps (IsReady payment_id captured) (modify (publish e))
  publish-IsReady e = Ready-modify _ (λ db. (refl, refl))

module _ (c : Context) (p : Payment) where
  mark-IsReady :
      (amount remaining : ℕ)
      → Keeps
          (IsReady p.id p.captured_amount_minor)
          (mark_payment_refunded (refunded_payment p amount remaining))
  unfolding mark_payment_refunded refunded_payment
  mark-IsReady amount remaining =
      search
        (
          keeps_rules,
          put_payment-IsReady (refunded_payment p amount remaining) refl refl,
          mark-Keeps ready,
        )
        depth 16

  finish-IsReady :
      (r : Refund) (remaining : ℕ)
      → Keeps (IsReady p.id p.captured_amount_minor) (finish_refund c p r remaining)
  unfolding finish_refund
  finish-IsReady r remaining =
      search (keeps_rules, Ready-commit, audit-IsReady, publish-IsReady, mark-IsReady) depth 24

  -- A refund that is within what is left of the captured amount.
  added-IsReady :
      (r : Refund) (db : Db)
      → IsCovered db
      → get_payment p.id db ≡ some p
      → r.payment_id ≡ p.id
      → refunded p.id db + r.amount_minor ≤ p.captured_amount_minor
      → IsReady p.id p.captured_amount_minor (record { saved = db; live = add_refund r db })
  added-IsReady r db h found owner fits = record {
    saved = h;
    live = record {
      within_captured = λ k q there. ground (
        arith,
        sum-append (is_active k) refund_amount db.refunds (r ∷ []),
        h.within_captured k q,
      );
    };
    owner = λ q there. cc;
  }

  store_refund-IsCovered :
      (r : Refund) (remaining : ℕ) (db : Db)
      → IsCovered db
      → get_payment p.id db ≡ some p
      → r.payment_id ≡ p.id
      → refunded p.id db + r.amount_minor ≤ p.captured_amount_minor
      → IsCovered (store_refund c p r remaining (record { saved = db; live = db })).1.saved
  unfolding store_refund ◌>>=◌
  store_refund-IsCovered r remaining db h found owner fits =
      ((finish-IsReady r remaining).kept _ (added-IsReady r db h found owner fits)).saved

stored_owner :
    (c : Context) (req : RefundRequest) (id amount : ℕ) (reply : ProviderRefund)
    → (new_refund c req id amount reply).payment_id ≡ id
unfolding new_refund
stored_owner c req id amount reply = refl

within_balance :
    (c : Context) (req : RefundRequest) (id taken already : ℕ) (reply : ProviderRefund)
    → (let amount = or_else req.amount_minor (taken - already) in
        not (leb amount 0 || ltb (taken - already) amount) ≡ true)
    → already
        + (new_refund c req id (or_else req.amount_minor (taken - already)) reply).amount_minor
      ≤ taken
unfolding new_refund
within_balance c req id taken already reply fits = ground arith

module _ (c : Context) (provider : PaymentProvider) (req : RefundRequest) (db : Db)
    (h : IsCovered db) where
  abbrev loaded : Session Db
  loaded = record { saved = db; live = db }

  request_refund-IsCovered :
      (provider_payment_id : String) (p : Payment)
      → get_payment p.id db ≡ some p
      → let remaining = p.captured_amount_minor - refunded p.id db in
        IsCovered (request_refund c provider req provider_payment_id p remaining loaded).1.saved
  unfolding request_refund
  request_refund-IsCovered provider_payment_id p found =
      let remaining : ℕ = p.captured_amount_minor - refunded p.id db in
      let amount : ℕ = or_else req.amount_minor remaining in
      let stored : ProviderRefund → Refund = λ reply. new_refund c req p.id amount reply in
      after_guard (λ r. IsCovered r.1.saved) (not (leb amount 0 || ltb remaining amount))
        (payment_error refund_exceeds_balance)
        (λ _. lift (provider.create_refund provider_payment_id amount req.key) >>= λ reply.
          store_refund c p (stored reply) remaining)
        loaded (λ _. h)
        λ fits.
          after_lift (λ r. IsCovered r.1.saved)
            (provider.create_refund provider_payment_id amount req.key)
            (λ reply. store_refund c p (stored reply) remaining) loaded (λ _ _. h)
            λ reply _.
              store_refund-IsCovered c p (stored reply) remaining db h found
                (stored_owner c req p.id amount reply)
                (within_balance c req p.id p.captured_amount_minor (refunded p.id db) reply fits)

  new_refund-IsCovered :
      (provider_payment_id : String) (p : Payment) (o : Option Refund)
      → get_payment p.id db ≡ some p
      → IsCovered (found_or o (new_refund_for c provider req provider_payment_id p) loaded).1.saved
  unfolding new_refund_for ◌>>=◌
  new_refund-IsCovered provider_payment_id p (some r) found = h
  new_refund-IsCovered provider_payment_id p none found =
      after_guard (λ r. IsCovered r.1.saved)
        (one_of p.status (PaymentStatus.captured ∷ PaymentStatus.partially_refunded ∷ []))
        (payment_error not_refundable)
        (λ _. gets (refunded p.id) >>= λ already.
          request_refund c provider req provider_payment_id p (p.captured_amount_minor - already))
        loaded (λ _. h) (λ _. request_refund-IsCovered provider_payment_id p found)

  refund_loaded-IsCovered :
      (p : Payment)
      → get_payment p.id db ≡ some p
      → IsCovered (refund_loaded c provider req p loaded).1.saved
  unfolding refund_loaded ◌>>=◌
  refund_loaded-IsCovered p found =
      after_guard (λ r. IsCovered r.1.saved) (is_present p.provider_payment_id)
        (payment_error payment_missing)
        (λ _. gets (refund_by_key p.id req.key) >>= λ o.
          found_or o (new_refund_for c provider req (or_else p.provider_payment_id "") p))
        loaded (λ _. h)
        (λ _.
          new_refund-IsCovered (or_else p.provider_payment_id "") p (refund_by_key p.id req.key db)
            found)

  refund-IsCovered : IsCovered (request (refund c provider req) db).1
  unfolding refund request ◌>>=◌
  refund-IsCovered =
      after_require (λ r. IsCovered r.1.saved) (get_payment req.payment_id db)
        (payment_error payment_missing) (refund_loaded c provider req) loaded h
        λ p found.
          refund_loaded-IsCovered p
            (simp (get_key payment_id_of req.payment_id db.payments p found) found)

-- Requests for refunds one after another, each in its surroundings and with what the provider answers.
pub serve : List (Context × PaymentProvider × RefundRequest) → Db → Db
serve [] db = db
serve ((c, provider, req) ∷ rest) db = serve rest (request (refund c provider req) db).1

-- Where the refunds of every payment that are pending or have succeeded are within what was captured
-- of it, they are so after any sequence of refund requests: full or partial ones, repeated keys, refused
-- ones and ones that the provider fails or answers with any status.
pub refunds-IsCovered :
    (requests : List (Context × PaymentProvider × RefundRequest)) (db : Db)
    → IsCovered db
    → IsCovered (serve requests db)
unfolding serve
refunds-IsCovered [] db h = h
refunds-IsCovered ((c, provider, req) ∷ rest) db h =
    refunds-IsCovered rest (request (refund c provider req) db).1
      (refund-IsCovered c provider req db h)
