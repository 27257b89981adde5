-- ===== src/Finance.antt =====
-- apps/api/app/domains/finance: what a completed job earns its vendor, and how earnings are paid out
-- in batches (service.py, repository.py).
pub mod Compensation
pub mod Payouts
pub mod Plans
pub mod Transfers
use breero_com.Prelude.{
  Bool, List, Option, String, [], add, find, if◌then◌else◌, leb, ltb, nat_eq, none, not, option_eq,
  select, some, string_eq, true, ℕ, ◌&&◌, ◌*◌, ◌+◌, ◌==◌, ◌||◌, ◌∷◌,
}
use breero_com.Prelude.Int.{pos, ℤ, ◌-ℤ◌}
use breero_com.Models.{
  CompensationPlan, CompensationSnapshot, Db, EarningStatus, Job, JobStatus, ServiceRate,
  VendorEarning, earning_status_eq, job_status_eq,
}
use breero_com.Errors.{earning_needs_completed_job, invalid_earning_amounts, plan_not_configured}
use breero_com.Context.{Context}
use breero_com.Session.{Tx, found_or, gets, guard, lift, modify, pure, require, ◌>>=◌, ◌>>◌}
use breero_com.Finance.Compensation.{CalculatedCompensation, calculate_compensation, is_negative}

-- `FinanceRepository.earning_for_job`.
abbrev pub earning_for_job : ℕ → Db → Option VendorEarning
earning_for_job job_id db = find (λ e. e.job_id == job_id) db.earnings

latest_from : CompensationPlan → List CompensationPlan → CompensationPlan
latest_from p [] = p
latest_from p (q ∷ rest) = latest_from (if ltb p.effective_from q.effective_from then q else p) rest

-- The row that `.order_by(effective_from.desc()).limit(1)` leaves.
latest_plan : List CompensationPlan → Option CompensationPlan
unfolding latest_from
latest_plan [] = none
latest_plan (p ∷ plans) = some (latest_from p plans)

ends_after : Option ℕ → ℕ → Bool
ends_after none at = true
ends_after (some effective_to) at = ltb at effective_to

-- `FinanceRepository.active_plan`.
pub active_plan : ℕ → ℕ → Db → Option CompensationPlan
unfolding latest_plan ends_after
active_plan vendor_id at db = latest_plan (
    select
      (λ p.
        p.vendor_id == vendor_id
        && p.active
        && leb p.effective_from at
        && ends_after p.effective_to at)
      db.plans)

-- `FinanceRepository.service_rate`.
pub service_rate_for : ℕ → ℕ → Db → Option ServiceRate
service_rate_for plan_id service_id db =
    find (λ r. r.plan_id == plan_id && r.service_id == service_id) db.service_rates

abbrev day : ℕ
day = 86400

pub new_snapshot :
    Context
    → Job
    → ℕ
    → CompensationPlan
    → ℤ
    → CalculatedCompensation
    → String
    → CompensationSnapshot
new_snapshot c job vendor_id plan gross_minor calculation currency = record {
  id = c.uuid 1;
  plan_id = plan.id;
  vendor_id = vendor_id;
  service_id = job.service_id;
  method = plan.method;
  rule = calculation.rule;
  gross_minor = gross_minor;
  compensation_minor = calculation.amount_minor;
  currency = currency;
  hold_days = plan.hold_days;
  committed_at = c.now;
}

pub new_earning :
    Context → Job → ℕ → CompensationPlan → ℤ → CalculatedCompensation → String → VendorEarning
new_earning c job vendor_id plan gross_minor calculation currency = record {
  id = c.uuid 2;
  vendor_id = vendor_id;
  job_id = job.id;
  compensation_snapshot_id = c.uuid 1;
  gross_minor = gross_minor;
  fee_minor = gross_minor -ℤ calculation.amount_minor;
  net_minor = calculation.amount_minor;
  adjustment_total_minor = pos 0;
  currency = currency;
  status = EarningStatus.pending;
  available_at = c.now + plan.hold_days * day;
  payout_batch_id = none;
}

-- The evidence and the earning are stored together.
store_earning :
    Context → Job → ℕ → CompensationPlan → ℤ → String → CalculatedCompensation → Tx Db VendorEarning
unfolding new_snapshot new_earning
store_earning c job vendor_id plan gross_minor currency calculation = do
  let earning = new_earning c job vendor_id plan gross_minor calculation currency
  modify (λ db. record db {
    snapshots =
        add (new_snapshot c job vendor_id plan gross_minor calculation currency) db.snapshots;
    earnings = add earning db.earnings;
  })
  pure earning

-- The part of `recognize_earning` behind the lookup of an existing earning.
create_earning : Context → Job → ℕ → ℤ → String → Tx Db VendorEarning
unfolding store_earning
create_earning c job vendor_id gross_minor currency = do
  found ← gets (active_plan vendor_id c.now)
  plan ← require found plan_not_configured
  rate ← gets (service_rate_for plan.id job.service_id)
  calculation ← lift (calculate_compensation plan gross_minor rate)
  store_earning c job vendor_id plan gross_minor currency calculation

-- `FinanceService.recognize_earning`. It does not commit: its caller does.
unfoldable pub recognize_earning : Context → Job → ℤ → ℤ → String → Tx Db VendorEarning
unfolding create_earning
recognize_earning c job gross_minor fee_minor currency = do
  guard (job.status == JobStatus.completed) earning_needs_completed_job
  vendor_id ← require job.vendor_id earning_needs_completed_job
  guard (not (is_negative gross_minor || is_negative fee_minor)) invalid_earning_amounts
  existing ← gets (earning_for_job job.id)
  found_or existing (create_earning c job vendor_id gross_minor currency)
