-- ===== src/Finance/Transfers.antt =====
-- apps/api/app/domains/finance/service.py: `submit_batch`. The payout gateway
-- (app/integrations/contracts.py) is a parameter.
pub mod Submission
use breero_com.Prelude.{
  Option, String, [], concat, if◌then◌else◌, is_present, nat_eq, option_eq, some, string_eq,
  text_or, ℕ, ◌==◌, ◌∷◌,
}
use breero_com.Prelude.Int.{ℤ}
use breero_com.Models.{Db, IntegrationEvent, PayoutBatch, PayoutStatus, payout_status_eq}
use breero_com.Errors.{Error, batch_not_approved, payout_not_configured, payouts_disabled}
use breero_com.Context.{Context, new_event, publish}
use breero_com.Session.{Tx, commit, guard, modify, pure, raise, ◌>>=◌, ◌>>◌}
use breero_com.Finance.Payouts.{audit, load_batch, save_batch}

pub record TransferResult : Type 0 where
  pub transfer_id : String
  pub status : String
  pub provider_reference : Option String

-- What `create_transfer` does: a result, `IntegrationNotConfigured` with its code, or any other
-- exception.
pub data TransferReply : Type 0 where
  transferred : TransferResult → TransferReply
  not_configured : String → TransferReply
  crashed : Error → TransferReply

pub record PayoutGateway : Type 0 where
  -- the amount, the currency, the destination and the idempotency key
  pub create_transfer : ℤ → String → String → String → TransferReply

submitted_event : Context → PayoutBatch → IntegrationEvent
submitted_event c batch =
    new_event c (c.uuid 1) "payout" batch.id "payout.submitted" (("id", batch.id) ∷ [])

processing : Context → PayoutBatch → TransferResult → PayoutBatch
processing c batch result = record batch {
  provider_transfer_id = some result.transfer_id;
  provider_reference = result.provider_reference;
  provider_status = some result.status;
  submitted_at = some c.now;
  status = PayoutStatus.processing;
}

module _ (c : Context) (actor_id : ℕ) where
  finish_submission : PayoutBatch → TransferReply → Tx Db PayoutBatch
  unfolding submitted_event processing save_batch
  finish_submission batch (transferred result) = do
    let batch' = processing c batch result
    save_batch batch'
    modify (publish (submitted_event c batch'))
    audit c (some actor_id) "payout.submit" "payout_batch" batch.id
    commit
    pure batch'
  finish_submission batch (not_configured code) = do
    save_batch (record batch { failure_reason = some code })
    commit
    raise payout_not_configured
  finish_submission batch (crashed e) = raise e

  start_submission : PayoutGateway → PayoutBatch → Tx Db PayoutBatch
  start_submission gateway batch = do
    guard (batch.status == PayoutStatus.approved) batch_not_approved
    let key = text_or batch.idempotency_key (concat "payout-batch:" (c.str batch.id))
    let keyed = record batch { idempotency_key = some key }
    save_batch keyed
    -- The key is durable before the gateway is called, and a retry uses it again.
    commit
    finish_submission keyed (
        gateway.create_transfer batch.total_minor batch.currency (concat "batch:" (c.str batch.id))
          key)

  pub submit_batch : PayoutGateway → ℕ → Tx Db PayoutBatch
  unfolding start_submission load_batch
  submit_batch gateway batch_id = do
    guard c.payout_enabled payouts_disabled
    batch ← load_batch batch_id
    if is_present batch.provider_transfer_id then pure batch else start_submission gateway batch
