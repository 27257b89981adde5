-- ===== src/Tests/Finance.antt =====
-- The theorems on earnings and payouts at concrete inputs.
use breero_com.Finance.Plans.{create_compensation_plan}
use breero_com.Prelude.{
  [], arith, false, length, none, refl, select, some, true, ◌∷◌, ◌≡◌, is_present, String,
}
use breero_com.Prelude.Int.{negsuc, pos, ◌+ℤ◌}
use breero_com.Models.{
  AdjustmentType, CompensationMethod, CompensationPlan, Db, EarningAdjustment, EarningStatus, Job,
  JobStatus, PayoutBatch, PayoutStatus, VendorEarning,
}
use breero_com.Errors.{payout_not_configured, batch_not_pending, percentage_bps_required}
use breero_com.Session.{Session, ok, request, returned, ◌>>=◌, err}
use breero_com.Tests.{a_job, empty, surroundings}
use breero_com.Finance.Compensation.{CalculatedCompensation, calculate_compensation}
use breero_com.Finance.Compensation.Bounds.{IsExact, IsNonneg, calculate_compensation-IsExact}
use breero_com.Finance.Payouts.{
  adjust_earning, batch_up, create_batch, find_adjustment, in_batch, is_payable, new_batch,
  total_payable, approve_batch, load_batch, save_batch,
}
use breero_com.Finance.Payouts.Ledger.{
  IsUnique, IsUniqueSession, one_earning_per_job, recognize, run,
}
use breero_com.Finance.Payouts.Batches.{batch_total, create_batch_pays, of_batch}
use breero_com.Finance.Payouts.Adjustments.{adjust_batched_stale}
use breero_com.Finance.Transfers.{PayoutGateway, crashed, submit_batch}
use breero_com.Finance.Transfers.Submission.{get_batch, submit_batch_keeps_key}

abbrev a_plan : CompensationPlan
a_plan = record {
  id = 30;
  vendor_id = 6;
  method = CompensationMethod.percentage;
  fixed_minor = none;
  percentage_bps = some (pos 7000);
  currency = "usd";
  hold_days = 3;
  active = true;
  effective_from = 0;
  effective_to = none;
}

calculate_compensation-IsExact_example :
    (k : CalculatedCompensation) × (calculate_compensation a_plan (pos 9999) none ≡ ok k)
    × IsNonneg k.amount_minor
    × IsExact CompensationMethod.percentage a_plan (pos 9999) none k.amount_minor
calculate_compensation-IsExact_example =
    calculate_compensation-IsExact a_plan (pos 9999) none (omega arith)
      (pos 7000, refl, omega arith, omega arith)

abbrev planned : Db
planned = record empty { plans = a_plan ∷ [] }

abbrev start : Session Db
start = record { saved = planned; live = planned }

start-IsUniqueSession : IsUniqueSession start
start-IsUniqueSession =
    let h : IsUnique planned = record { at_most_one = λ k. omega arith } in
    record { saved = h; live = h }

abbrev done_job : Job
done_job = record a_job { status = JobStatus.completed }

one_earning_per_job_example :
    IsUniqueSession (run surroundings (recognize done_job (pos 9999) (pos 0) "usd") start).1
one_earning_per_job_example =
    one_earning_per_job surroundings (recognize done_job (pos 9999) (pos 0) "usd") start
      start-IsUniqueSession

abbrev an_earning : VendorEarning
an_earning = record {
  id = 40;
  vendor_id = 6;
  job_id = 1;
  compensation_snapshot_id = 41;
  gross_minor = pos 9999;
  fee_minor = pos 3000;
  net_minor = pos 6999;
  adjustment_total_minor = pos 0;
  currency = "usd";
  status = EarningStatus.available;
  available_at = 500;
  payout_batch_id = none;
}

abbrev earned : Db
earned = record empty {
  earnings = an_earning ∷ record an_earning { id = 42; job_id = 9; net_minor = pos 1 } ∷ [];
}

abbrev a_batch : PayoutBatch
a_batch = record {
  id = 101;
  reference = "PO-1";
  status = PayoutStatus.pending_approval;
  currency = "usd";
  total_minor = pos 7000;
  earning_count = 2;
  reviewed_by = some 8;
  reviewed_at = some 1000;
  approved_by = none;
  approved_at = none;
  idempotency_key = none;
  submitted_at = none;
  provider_transfer_id = none;
  provider_status = none;
  provider_reference = none;
  failure_reason = none;
}

create_batch_pays_example :
    let db' = (request (create_batch surroundings (λ _. false) "usd" none (some 8)) earned).1 in
    (a_batch.status ≡ PayoutStatus.pending_approval)
    × (batch_total 101 db'.earnings ≡ pos 7000)
    × (length (select (of_batch 101) db'.earnings) ≡ 2)
    × (select (is_payable surroundings (λ _. false) "usd" none) db'.earnings ≡ [])
unfolding create_batch is_payable new_batch batch_up total_payable in_batch request ◌>>=◌ ◌+ℤ◌
create_batch_pays_example =
    create_batch_pays surroundings (λ _. false) "usd" none (some 8) earned a_batch refl refl

abbrev batched_earning : VendorEarning
batched_earning = record an_earning { status = EarningStatus.batched; payout_batch_id = some 101 }

abbrev batched : Db
batched = record empty { earnings = batched_earning ∷ []; batches = a_batch ∷ [] }

abbrev a_dispute : EarningAdjustment
a_dispute = record {
  earning_id = 40;
  adjustment_type = AdjustmentType.dispute;
  amount_minor = negsuc 6998;
  reason = "disputed";
  idempotency_key = "d";
  actor_id = some 8;
}

adjust_batched_stale_example :
    let db' = (request (adjust_earning surroundings a_dispute) batched).1 in
    (returned (request (adjust_earning surroundings a_dispute) batched) ≡ some a_dispute)
    × (batch_total 101 db'.earnings ≡ batch_total 101 batched.earnings +ℤ negsuc 6998)
    × (db'.batches ≡ batched.batches)
unfolding find_adjustment
adjust_batched_stale_example =
    adjust_batched_stale surroundings a_dispute batched batched_earning 101 refl refl refl

abbrev approved_batch : PayoutBatch
approved_batch = record a_batch { status = PayoutStatus.approved }

abbrev failing : PayoutGateway
failing = record {
  create_transfer = λ amount currency destination key. crashed payout_not_configured;
}

abbrev approved_db : Db
approved_db = record empty { batches = approved_batch ∷ [] }

submit_batch_keeps_key_example :
    let r = request (submit_batch surroundings 8 failing 101) approved_db in
    (key : String) × (b' : PayoutBatch) × (get_batch 101 r.1 ≡ some b')
    × (b'.idempotency_key ≡ some key)
    × (is_present approved_batch.idempotency_key ≡ true → approved_batch.idempotency_key ≡ some key)
    × ((gateway' : PayoutGateway)
        → ((destination : String)
            → gateway'.create_transfer approved_batch.total_minor approved_batch.currency
                destination key
              ≡ failing.create_transfer approved_batch.total_minor approved_batch.currency
                  destination key)
        → request (submit_batch surroundings 8 gateway' 101) approved_db ≡ r)
submit_batch_keeps_key_example =
    submit_batch_keeps_key surroundings 8 failing 101 approved_db approved_batch refl refl refl refl

-- The run of `approve_batch` on a batch that awaits approval, and on one that does not.
approved_once :
    (returned (request (approve_batch surroundings 101 9) batched)
      ≡ some (record a_batch {
        status = PayoutStatus.approved;
        approved_by = some 9;
        approved_at = some 1000;
      }))
    × (request (approve_batch surroundings 101 9) approved_db
        ≡ (err batch_not_pending, approved_db))
unfolding approve_batch load_batch save_batch request ◌>>=◌
approved_once = (refl, refl)

-- A percentage plan without its percentage.
unfinished_plan :
    request
      (create_compensation_plan surroundings (record a_plan { percentage_bps = none }) 8)
      empty
    ≡ (err percentage_bps_required, empty)
unfolding create_compensation_plan request ◌>>=◌
unfinished_plan = refl
