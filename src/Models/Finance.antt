-- ===== src/Models/Finance.antt =====
-- apps/api/app/domains/finance/models.py. The earnings and adjustments may be negative.
use breero_com.Prelude.Int.{ℤ, ◌+ℤ◌}
use breero_com.Prelude.{ℕ, ◌≡◌, arith, Comparable, Option, String, Bool}
use breero_com.Models.Enum.{by_position}

pub data CompensationMethod : Type 0 where
  fixed_minor percentage service_rate : CompensationMethod

abbrev pub compensation_method_position : CompensationMethod → ℕ
compensation_method_position CompensationMethod.fixed_minor = 0
compensation_method_position CompensationMethod.percentage = 1
compensation_method_position CompensationMethod.service_rate = 2

pub compensation_method_position_injective :
    (a b : CompensationMethod)
    → compensation_method_position a ≡ compensation_method_position b
    → a ≡ b
compensation_method_position_injective a b h = ground arith

instance abbrev pub compensation_method_eq : Comparable CompensationMethod
compensation_method_eq =
    by_position compensation_method_position compensation_method_position_injective

pub data EarningStatus : Type 0 where
  pending available held approved batched paid cancelled reversed : EarningStatus

abbrev pub earning_status_position : EarningStatus → ℕ
earning_status_position EarningStatus.pending = 0
earning_status_position EarningStatus.available = 1
earning_status_position EarningStatus.held = 2
earning_status_position EarningStatus.approved = 3
earning_status_position EarningStatus.batched = 4
earning_status_position EarningStatus.paid = 5
earning_status_position EarningStatus.cancelled = 6
earning_status_position EarningStatus.reversed = 7

pub earning_status_position_injective :
    (a b : EarningStatus) → earning_status_position a ≡ earning_status_position b → a ≡ b
earning_status_position_injective a b h = ground arith

instance abbrev pub earning_status_eq : Comparable EarningStatus
earning_status_eq = by_position earning_status_position earning_status_position_injective

pub data AdjustmentType : Type 0 where
  refund dispute manual reversal : AdjustmentType

abbrev pub adjustment_type_position : AdjustmentType → ℕ
adjustment_type_position AdjustmentType.refund = 0
adjustment_type_position AdjustmentType.dispute = 1
adjustment_type_position AdjustmentType.manual = 2
adjustment_type_position AdjustmentType.reversal = 3

pub adjustment_type_position_injective :
    (a b : AdjustmentType) → adjustment_type_position a ≡ adjustment_type_position b → a ≡ b
adjustment_type_position_injective a b h = ground arith

instance abbrev pub adjustment_type_eq : Comparable AdjustmentType
adjustment_type_eq = by_position adjustment_type_position adjustment_type_position_injective

pub data PayoutStatus : Type 0 where
  draft pending_approval approved processing paid failed cancelled : PayoutStatus

abbrev pub payout_status_position : PayoutStatus → ℕ
payout_status_position PayoutStatus.draft = 0
payout_status_position PayoutStatus.pending_approval = 1
payout_status_position PayoutStatus.approved = 2
payout_status_position PayoutStatus.processing = 3
payout_status_position PayoutStatus.paid = 4
payout_status_position PayoutStatus.failed = 5
payout_status_position PayoutStatus.cancelled = 6

pub payout_status_position_injective :
    (a b : PayoutStatus) → payout_status_position a ≡ payout_status_position b → a ≡ b
payout_status_position_injective a b h = ground arith

instance abbrev pub payout_status_eq : Comparable PayoutStatus
payout_status_eq = by_position payout_status_position payout_status_position_injective

pub record CompensationPlan : Type 0 where
  pub id : ℕ
  pub vendor_id : ℕ
  pub method : CompensationMethod
  pub fixed_minor : Option ℤ
  pub percentage_bps : Option ℤ
  pub currency : String
  pub hold_days : ℕ
  pub active : Bool
  pub effective_from : ℕ
  pub effective_to : Option ℕ

pub record ServiceRate : Type 0 where
  pub plan_id : ℕ
  pub service_id : ℕ
  pub rate_minor : ℤ
  pub currency : String

-- The JSON rule that is kept as evidence.
pub data CompensationRule : Type 0 where
  fixed_rule : ℤ → CompensationRule
  percentage_rule : ℤ → CompensationRule
  service_rule : ℤ → ℕ → CompensationRule

pub record CompensationSnapshot : Type 0 where
  pub id : ℕ
  pub plan_id : ℕ
  pub vendor_id : ℕ
  pub service_id : ℕ
  pub method : CompensationMethod
  pub rule : CompensationRule
  pub gross_minor : ℤ
  pub compensation_minor : ℤ
  pub currency : String
  pub hold_days : ℕ
  pub committed_at : ℕ

pub record VendorEarning : Type 0 where
  pub id : ℕ
  pub vendor_id : ℕ
  pub job_id : ℕ
  pub compensation_snapshot_id : ℕ
  pub gross_minor : ℤ
  pub fee_minor : ℤ
  pub net_minor : ℤ
  pub adjustment_total_minor : ℤ
  pub currency : String
  pub status : EarningStatus
  pub available_at : ℕ
  pub payout_batch_id : Option ℕ

-- The property `VendorEarning.payable_minor`.
abbrev pub payable_minor : VendorEarning → ℤ
payable_minor e = e.net_minor +ℤ e.adjustment_total_minor

pub record EarningAdjustment : Type 0 where
  pub earning_id : ℕ
  pub adjustment_type : AdjustmentType
  pub amount_minor : ℤ
  pub reason : String
  pub idempotency_key : String
  pub actor_id : Option ℕ

pub record PayoutBatch : Type 0 where
  pub id : ℕ
  pub reference : String
  pub status : PayoutStatus
  pub currency : String
  pub total_minor : ℤ
  pub earning_count : ℕ
  pub reviewed_by : Option ℕ
  pub reviewed_at : Option ℕ
  pub approved_by : Option ℕ
  pub approved_at : Option ℕ
  pub idempotency_key : Option String
  pub submitted_at : Option ℕ
  pub provider_transfer_id : Option String
  pub provider_status : Option String
  pub provider_reference : Option String
  pub failure_reason : Option String
