-- ===== src/Finance/Transfers/Submission.antt =====
-- apps/api/app/domains/finance/service.py, `submit_batch`: the idempotency key of an attempt.
use breero_com.Prelude.{
  List, Option, String, arith, concat, false, get, get-put, get_key, is_present, put, refl, some,
  text_or, true, ℕ, ◌≡◌, none,
}
use breero_com.Models.{Db, PayoutBatch, PayoutStatus}
use breero_com.Context.{Context}
use breero_com.Session.{Session, request, ◌>>=◌}
use breero_com.Finance.Payouts.{batch_id_of, load_batch, save_batch}
use breero_com.Finance.Transfers.{
  PayoutGateway, TransferReply, crashed, finish_submission, not_configured, processing,
  start_submission, submit_batch, transferred,
}

abbrev pub get_batch : ℕ → Db → Option PayoutBatch
get_batch id db = get batch_id_of id db.batches

-- The key that an attempt uses.
abbrev pub attempt_key : Context → PayoutBatch → String
attempt_key c b = text_or b.idempotency_key (concat "payout-batch:" (c.str b.id))

get_batch-put :
    (b b' : PayoutBatch) (rows : List PayoutBatch)
    → get batch_id_of b.id rows ≡ some b
    → b'.id ≡ b.id
    → get batch_id_of b.id (put batch_id_of b' rows) ≡ some b'
get_batch-put b b' rows found same = ground (arith, get-put batch_id_of b' b.id rows)

text_or_present : (o : Option String) (s : String) → is_present o ≡ true → o ≡ some (text_or o s)
text_or_present none s h = absurd (ground arith)
text_or_present (some String.[]) s h = absurd (ground arith)
text_or_present (some (String.◌∷◌ x t)) s h = refl

abbrev keyed : Context → PayoutBatch → PayoutBatch
keyed c b = record b { idempotency_key = some (attempt_key c b) }

-- The key is durable before the answer of the gateway is known.
finish_keeps_key :
    (c : Context) (actor_id : ℕ) (b : PayoutBatch) (reply : TransferReply) (s : Session Db)
    → get_batch b.id s.live ≡ some b
    → get_batch b.id s.saved ≡ some b
    → (b' : PayoutBatch) × (get_batch b.id (finish_submission c actor_id b reply s).1.saved
        ≡ some b')
      × (b'.idempotency_key ≡ b.idempotency_key)
unfolding finish_submission save_batch processing ◌>>=◌
finish_keeps_key c actor_id b (transferred result) s live saved =
    (processing c b result, get_batch-put b (processing c b result) s.live.batches live refl, refl)
finish_keeps_key c actor_id b (not_configured code) s live saved = (
  record b { failure_reason = some code },
  get_batch-put b (record b { failure_reason = some code }) s.live.batches live refl,
  refl,
)
finish_keeps_key c actor_id b (crashed e) s live saved = (b, saved, refl)

module _ (c : Context) (actor_id : ℕ) (gateway : PayoutGateway) (batch_id : ℕ) (db : Db)
    (b : PayoutBatch) (enabled : c.payout_enabled ≡ true) (found : get_batch batch_id db ≡ some b)
    (approved : b.status ≡ PayoutStatus.approved)
    (untransferred : is_present b.provider_transfer_id ≡ false) where
  abbrev reply : TransferReply
  reply =
      gateway.create_transfer b.total_minor b.currency (concat "batch:" (c.str b.id))
        (attempt_key c b)

  -- What is durable when the gateway is called.
  abbrev called : Session Db
  called =
      let db₁ : Db = record db { batches = put batch_id_of (keyed c b) db.batches } in
      record { saved = db₁; live = db₁ }

  attempt_runs :
      request (submit_batch c actor_id gateway batch_id) db
      ≡ (let (r, s) = finish_submission c actor_id (keyed c b) reply called in (r, s.saved))
  unfolding submit_batch start_submission load_batch save_batch request ◌>>=◌
  attempt_runs = ground arith

  same_reply :
      (gateway' : PayoutGateway)
      → ((destination : String)
          → gateway'.create_transfer b.total_minor b.currency destination (attempt_key c b)
            ≡ gateway.create_transfer b.total_minor b.currency destination (attempt_key c b))
      → request (submit_batch c actor_id gateway' batch_id) db
        ≡ request (submit_batch c actor_id gateway batch_id) db
  unfolding submit_batch start_submission load_batch save_batch request ◌>>=◌
  same_reply gateway' same =
      rw (enabled, found, untransferred, approved, same (concat "batch:" (c.str b.id))) refl

  -- An attempt to transfer an approved batch leaves the key that it used in the database, whether the
  -- gateway accepts the transfer, is not configured, or fails in any other way: what the attempt does
  -- depends on the gateway only by its replies to a transfer of the total of the batch under the
  -- stored key. A batch that has a key already is transferred under that key.
  pub submit_batch_keeps_key :
      let r = request (submit_batch c actor_id gateway batch_id) db in
      (key : String) × (b' : PayoutBatch) × (get_batch batch_id r.1 ≡ some b')
      × (b'.idempotency_key ≡ some key)
      × (is_present b.idempotency_key ≡ true → b.idempotency_key ≡ some key)
      × ((gateway' : PayoutGateway)
          → ((destination : String)
              → gateway'.create_transfer b.total_minor b.currency destination key
                ≡ gateway.create_transfer b.total_minor b.currency destination key)
          → request (submit_batch c actor_id gateway' batch_id) db ≡ r)
  submit_batch_keeps_key =
      let key : b.id ≡ batch_id = get_key batch_id_of batch_id db.batches b found in
      let stored : get_batch b.id called.live ≡ some (keyed c b) =
        get_batch-put b (keyed c b) db.batches (simp key found) refl in
      let (b', kept, same) = finish_keeps_key c actor_id (keyed c b) reply called stored stored in
      (
        attempt_key c b,
        b',
        rw attempt_runs (simp (← key) kept),
        same,
        text_or_present b.idempotency_key (concat "payout-batch:" (c.str b.id)),
        same_reply,
      )
