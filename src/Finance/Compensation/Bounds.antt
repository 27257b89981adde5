-- ===== src/Finance/Compensation/Bounds.antt =====
-- apps/api/app/domains/finance/compensation.py: the amounts.
use breero_com.Prelude.{Option, arith, refl, some, ℕ, ◌*◌, ◌+◌, ◌/◌, ◌<◌, ◌≡◌, ◌≤◌}
use breero_com.Prelude.Int.{negsuc, pos, pos_part, ℤ, ◌≤ℤ◌}
use breero_com.Models.{
  CompensationMethod, CompensationPlan, ServiceRate, fixed_rule, percentage_rule, service_rule,
}
use breero_com.Session.{ok}
use breero_com.Finance.Compensation.{
  CalculatedCompensation, by_method, calculate_compensation, fixed_compensation,
  percentage_compensation, rate_compensation,
}

abbrev pub IsNonneg : ℤ → Type 0
IsNonneg a = pos 0 ≤ℤ a

-- What the plan has to say for its method.
abbrev pub IsConfigured : CompensationMethod → CompensationPlan → Option ServiceRate → Type 0
IsConfigured CompensationMethod.fixed_minor plan rate =
    (a : ℤ) × (plan.fixed_minor ≡ some a) × IsNonneg a
IsConfigured CompensationMethod.percentage plan rate =
    (bps : ℤ) × (plan.percentage_bps ≡ some bps) × IsNonneg bps × (bps ≤ℤ pos 10000)
IsConfigured CompensationMethod.service_rate plan rate =
    (r : ServiceRate) × (rate ≡ some r) × IsNonneg r.rate_minor

share_le : (g b : ℕ) → b ≤ 10000 → g * b ≤ 10000 * g
share_le g b h = grind arith

-- A vendor's share, rounded down to a whole minor unit.
share_bounds :
    (g b : ℕ)
    → b ≤ 10000
    → let q = g * b / 10000 in (q ≤ g) × (10000 * q ≤ g * b) × (g * b < 10000 * q + 10000)
share_bounds g b h = omega (arith, share_le g b h)

-- The exact amount of a calculation, by the method of the plan.
abbrev pub IsExact : CompensationMethod → CompensationPlan → ℤ → Option ServiceRate → ℤ → Type 0
IsExact CompensationMethod.fixed_minor plan gross rate amount = plan.fixed_minor ≡ some amount
IsExact CompensationMethod.percentage plan gross rate amount =
    (bps : ℤ) × (plan.percentage_bps ≡ some bps)
    × (amount ≤ℤ gross)
    × (10000 * pos_part amount ≤ pos_part gross * pos_part bps)
    × (pos_part gross * pos_part bps < 10000 * pos_part amount + 10000)
IsExact CompensationMethod.service_rate plan gross rate amount =
    (r : ServiceRate) × (rate ≡ some r) × (amount ≡ r.rate_minor)

percentage_total :
    (gross bps : ℤ)
    → IsNonneg gross
    → IsNonneg bps
    → bps ≤ℤ pos 10000
    → percentage_compensation gross (some bps)
      ≡ ok (record {
        amount_minor = pos (pos_part gross * pos_part bps / 10000);
        rule = percentage_rule bps;
      })
unfolding percentage_compensation
percentage_total gross bps g b h = ground arith

calculated :
    (method : CompensationMethod) (plan : CompensationPlan) (gross : ℤ) (rate : Option ServiceRate)
    → IsNonneg gross
    → IsConfigured method plan rate
    → (k : CalculatedCompensation) × (by_method method plan gross rate ≡ ok k)
      × IsNonneg k.amount_minor
      × IsExact method plan gross rate k.amount_minor
unfolding by_method fixed_compensation rate_compensation
calculated CompensationMethod.fixed_minor plan gross rate g (a, e, h) =
    (record { amount_minor = a; rule = fixed_rule a }, ground arith, h, e)
calculated CompensationMethod.percentage plan (pos g) rate nonneg (pos b, e, _, h) =
    let q : ℕ = g * b / 10000 in
    let bounds = share_bounds g b (omega arith) in
    (
      record { amount_minor = pos q; rule = percentage_rule (pos b) },
      rw e (percentage_total (pos g) (pos b) (omega arith) (omega arith) h),
      omega arith,
      (pos b, e, omega arith, bounds.1, bounds.2),
    )
calculated CompensationMethod.percentage plan (pos g) rate nonneg (negsuc b, e, l, h) =
    absurd (omega arith)
calculated CompensationMethod.percentage plan (negsuc g) rate nonneg configured =
    absurd (omega arith)
calculated CompensationMethod.service_rate plan gross rate g (r, e, h) = (
  record { amount_minor = r.rate_minor; rule = service_rule r.rate_minor r.service_id },
  ground arith,
  h,
  (r, e, refl),
)

-- With a gross amount that is not negative and a plan that is configured for its method, the
-- compensation is calculated, is not negative, and is exact: the fixed amount, the rate of the
-- service, or the percentage of the gross amount rounded down, which never passes the gross amount.
pub calculate_compensation-IsExact :
    (plan : CompensationPlan) (gross : ℤ) (rate : Option ServiceRate)
    → IsNonneg gross
    → IsConfigured plan.method plan rate
    → (k : CalculatedCompensation) × (calculate_compensation plan gross rate ≡ ok k)
      × IsNonneg k.amount_minor
      × IsExact plan.method plan gross rate k.amount_minor
unfolding calculate_compensation
calculate_compensation-IsExact plan (pos n) rate g h = calculated plan.method plan (pos n) rate g h
calculate_compensation-IsExact plan (negsuc n) rate g h = absurd (omega arith)
