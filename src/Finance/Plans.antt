-- ===== src/Finance/Plans.antt =====
-- apps/api/app/domains/finance/service.py: `create_compensation_plan`. The payload is given as the
-- row that it becomes.
use breero_com.Prelude.{
  Bool, Option, add, is_some, nat_eq, not, option_eq, some, string_eq, true, ℕ, ◌&&◌, ◌==◌,
}
use breero_com.Prelude.Int.{ℤ}
use breero_com.Models.{CompensationMethod, CompensationPlan, Db, compensation_method_eq}
use breero_com.Errors.{fixed_minor_required, percentage_bps_required}
use breero_com.Context.{Context}
use breero_com.Session.{Tx, commit, guard, modify, pure, ◌>>◌}
use breero_com.Finance.Payouts.{audit}

is_missing : CompensationMethod → CompensationMethod → Option ℤ → Bool
is_missing wanted method amount = method == wanted && not (is_some amount)

unfoldable pub create_compensation_plan : Context → CompensationPlan → ℕ → Tx Db CompensationPlan
unfolding is_missing
create_compensation_plan c payload actor_id = do
  guard (not (is_missing CompensationMethod.fixed_minor payload.method payload.fixed_minor))
      fixed_minor_required
  guard (not (is_missing CompensationMethod.percentage payload.method payload.percentage_bps))
      percentage_bps_required
  let plan = record payload { active = true }
  modify (λ db. record db { plans = add plan db.plans })
  audit c (some actor_id) "compensation_plan.change" "vendor_compensation_plan" plan.id
  commit
  pure plan
