-- ===== src/Finance/Compensation.antt =====
-- apps/api/app/domains/finance/compensation.py. `/` is applied to numbers that the guards before it
-- have shown not to be negative, where Python's `//` agrees with it.
pub mod Bounds
use breero_com.Prelude.{
  ℕ, ◌*◌, ◌/◌, Bool, true, false, ◌||◌, not, Option, none, some, if◌then◌else◌,
}
use breero_com.Prelude.Int.{ℤ, pos, negsuc, pos_part, leb_ℤ}
use breero_com.Models.{
  CompensationMethod, CompensationPlan, ServiceRate, CompensationRule, fixed_rule, percentage_rule,
  service_rule,
}
use breero_com.Errors.{negative_gross, fixed_not_configured, bad_percentage, rate_not_configured}
use breero_com.Session.{Outcome, ok, err}

pub record CalculatedCompensation : Type 0 where
  pub amount_minor : ℤ
  pub rule : CompensationRule

abbrev pub is_negative : ℤ → Bool
is_negative (pos n) = false
is_negative (negsuc n) = true

pub fixed_compensation : Option ℤ → Outcome CalculatedCompensation
fixed_compensation none = err fixed_not_configured
fixed_compensation (some amount) =
    if is_negative amount
    then err fixed_not_configured
    else ok (record { amount_minor = amount; rule = fixed_rule amount })

pub percentage_compensation : ℤ → Option ℤ → Outcome CalculatedCompensation
percentage_compensation gross none = err bad_percentage
percentage_compensation gross (some bps) =
    if is_negative bps || not (leb_ℤ bps (pos 10000))
    then err bad_percentage
    else ok (record {
      amount_minor = pos (pos_part gross * pos_part bps / 10000);
      rule = percentage_rule bps;
    })

pub rate_compensation : Option ServiceRate → Outcome CalculatedCompensation
rate_compensation none = err rate_not_configured
rate_compensation (some rate) =
    if is_negative rate.rate_minor
    then err rate_not_configured
    else ok (record {
      amount_minor = rate.rate_minor;
      rule = service_rule rate.rate_minor rate.service_id;
    })

by_method :
    CompensationMethod → CompensationPlan → ℤ → Option ServiceRate → Outcome CalculatedCompensation
by_method CompensationMethod.fixed_minor plan gross rate = fixed_compensation plan.fixed_minor
by_method CompensationMethod.percentage plan gross rate =
    percentage_compensation gross plan.percentage_bps
by_method CompensationMethod.service_rate plan gross rate = rate_compensation rate

unfoldable pub calculate_compensation :
    CompensationPlan → ℤ → Option ServiceRate → Outcome CalculatedCompensation
unfolding by_method fixed_compensation percentage_compensation rate_compensation
calculate_compensation plan gross rate =
    if is_negative gross then err negative_gross else by_method plan.method plan gross rate
