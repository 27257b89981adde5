-- ===== src/Finance/Payouts.antt =====
-- apps/api/app/domains/finance/service.py: the earnings' life after recognition, and the batches.
-- A query `with_for_update(skip_locked=True)` passes over the rows that another transaction has
-- locked: `locked` says which.
pub mod Batches
pub mod Adjustments
pub mod Ledger
use breero_com.Prelude.{
  Bool, List, Option, String, [], add, count, find, get, if◌then◌else◌, is_empty, is_some, leb,
  length, nat_eq, none, not, option_eq, put, select, some, string_eq, update, ℕ, ◌&&◌, ◌==◌, ◌||◌,
  ◌∷◌,
}
use breero_com.Prelude.Int.{leb_ℤ, pos, ℤ, ◌+ℤ◌}
use breero_com.Models.{
  AdjustmentType, Db, EarningAdjustment, EarningStatus, PayoutBatch, PayoutStatus, VendorEarning,
  adjustment_type_eq, batched, dispute, earning_status_eq, held, payable_minor, payout_status_eq,
  pending_approval, reversed,
}
use breero_com.Errors.{
  batch_not_found, batch_not_pending, earning_not_found, no_available_earnings, payouts_disabled,
}
use breero_com.Context.{Context, record_audit}
use breero_com.Session.{Tx, commit, found_or, gets, guard, modify, pure, require, ◌>>=◌, ◌>>◌}

-- `FinanceService.audit`, with the metadata left out.
abbrev pub audit : Context → Option ℕ → String → String → ℕ → Tx Db (Unit {0})
audit c actor_id action resource_type resource_id =
    modify (record_audit c actor_id action resource_type resource_id [])

-- `release_eligible`.
pub is_due : (ℕ → Bool) → ℕ → VendorEarning → Bool
is_due locked now e =
    e.status == EarningStatus.pending && leb e.available_at now && not (locked e.id)

make_available : VendorEarning → VendorEarning
make_available e = record e { status = EarningStatus.available }

pub release_due : (ℕ → Bool) → ℕ → Db → Db
release_due locked now db = record db {
  earnings = update (is_due locked now) make_available db.earnings;
}

pub release_eligible : Context → (ℕ → Bool) → Tx Db ℕ
release_eligible c locked = do
  guard c.payout_enabled payouts_disabled
  n ← gets (λ db. count (is_due locked c.now) db.earnings)
  modify (release_due locked c.now)
  commit
  pure n

-- `adjust_earning`.
adjusted_status : EarningStatus → ℤ → AdjustmentType → EarningStatus
adjusted_status status payable adjustment_type =
    if leb_ℤ payable (pos 0)
    then EarningStatus.reversed
    else if adjustment_type == AdjustmentType.dispute
    then EarningStatus.held
    else status

adjusted : VendorEarning → ℤ → AdjustmentType → VendorEarning
unfolding adjusted_status
adjusted e amount_minor adjustment_type =
    let total = e.adjustment_total_minor +ℤ amount_minor in
    record e {
      adjustment_total_minor = total;
      status = adjusted_status e.status (e.net_minor +ℤ total) adjustment_type;
    }

unfoldable pub find_adjustment : ℕ → String → Db → Option EarningAdjustment
find_adjustment earning_id key db =
    find (λ a. a.earning_id == earning_id && a.idempotency_key == key) db.adjustments

abbrev pub earning_id_of : VendorEarning → ℕ
earning_id_of e = e.id

adjust_row : VendorEarning → EarningAdjustment → Db → Db
adjust_row earning adjustment db = record db {
  adjustments = add adjustment db.adjustments;
  earnings =
      put earning_id_of (adjusted earning adjustment.amount_minor adjustment.adjustment_type)
        db.earnings;
}

apply_adjustment : Context → EarningAdjustment → VendorEarning → Tx Db EarningAdjustment
apply_adjustment c adjustment earning = do
  modify (adjust_row earning adjustment)
  audit c adjustment.actor_id "earning.adjustment" "vendor_earning" earning.id
  commit
  pure adjustment

adjust_loaded : Context → EarningAdjustment → VendorEarning → Tx Db EarningAdjustment
adjust_loaded c adjustment earning = do
  existing ← gets (find_adjustment adjustment.earning_id adjustment.idempotency_key)
  found_or existing (apply_adjustment c adjustment earning)

-- The arguments are those of the row that the command asks for.
pub adjust_earning : Context → EarningAdjustment → Tx Db EarningAdjustment
unfolding apply_adjustment adjust_loaded
adjust_earning c adjustment = do
  found ← gets (λ db. get earning_id_of adjustment.earning_id db.earnings)
  earning ← require found earning_not_found
  adjust_loaded c adjustment earning

-- `FinanceRepository.available_earnings`; the order of the rows does not matter to `create_batch`.
unfoldable pub is_payable : Context → (ℕ → Bool) → String → Option ℕ → VendorEarning → Bool
is_payable c locked currency vendor_id e =
    e.status == EarningStatus.available
    && leb e.available_at c.now
    && e.currency == currency
    && (not (is_some vendor_id) || vendor_id == some e.vendor_id)
    && not (locked e.id)

unfoldable pub total_payable : List VendorEarning → ℤ
total_payable [] = pos 0
total_payable (e ∷ earnings) = payable_minor e +ℤ total_payable earnings

unfoldable pub in_batch : ℕ → VendorEarning → VendorEarning
in_batch batch_id e = record e { status = EarningStatus.batched; payout_batch_id = some batch_id }

unfoldable pub new_batch : Context → String → Option ℕ → List VendorEarning → PayoutBatch
unfolding total_payable
new_batch c currency actor_id earnings = record {
  id = c.uuid 1;
  reference = c.token;
  status = PayoutStatus.pending_approval;
  currency = currency;
  total_minor = total_payable earnings;
  earning_count = length earnings;
  reviewed_by = actor_id;
  reviewed_at = if is_some actor_id then some c.now else none;
  approved_by = none;
  approved_at = none;
  idempotency_key = none;
  submitted_at = none;
  provider_transfer_id = none;
  provider_status = none;
  provider_reference = none;
  failure_reason = none;
}

unfoldable pub batch_up : Context → (ℕ → Bool) → String → Option ℕ → PayoutBatch → Db → Db
batch_up c locked currency vendor_id batch db = record db {
  batches = add batch db.batches;
  earnings = update (is_payable c locked currency vendor_id) (in_batch batch.id) db.earnings;
}

unfoldable pub create_batch :
    Context → (ℕ → Bool) → String → Option ℕ → Option ℕ → Tx Db PayoutBatch
create_batch c locked currency vendor_id actor_id = do
  guard c.payout_enabled payouts_disabled
  earnings ← gets (λ db. select (is_payable c locked currency vendor_id) db.earnings)
  guard (not (is_empty earnings)) no_available_earnings
  let batch = new_batch c currency actor_id earnings
  modify (batch_up c locked currency vendor_id batch)
  audit c actor_id "payout.review" "payout_batch" batch.id
  commit
  pure batch

abbrev pub batch_id_of : PayoutBatch → ℕ
batch_id_of b = b.id

unfoldable pub save_batch : PayoutBatch → Tx Db (Unit {0})
save_batch batch = modify (λ db. record db { batches = put batch_id_of batch db.batches })

unfoldable pub load_batch : ℕ → Tx Db PayoutBatch
load_batch batch_id = do
  found ← gets (λ db. get batch_id_of batch_id db.batches)
  require found batch_not_found

unfoldable pub approve_batch : Context → ℕ → ℕ → Tx Db PayoutBatch
unfolding load_batch save_batch
approve_batch c batch_id approver_id = do
  guard c.payout_enabled payouts_disabled
  batch ← load_batch batch_id
  guard (batch.status == PayoutStatus.pending_approval) batch_not_pending
  let approved = record batch {
    status = PayoutStatus.approved;
    approved_by = some approver_id;
    approved_at = some c.now;
  }
  save_batch approved
  audit c (some approver_id) "payout.approve" "payout_batch" batch.id
  commit
  pure approved
