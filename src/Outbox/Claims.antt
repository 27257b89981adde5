-- ===== src/Outbox/Claims.antt =====
-- apps/api/app/domains/common/outbox_service.py: `claim`, and a claim beside it.
use breero_com.Prelude.{
  Bool, List, [], arith, count, false, length, min, suc, zero, ℕ, ◌&&◌, ◌+◌, ◌<◌, ◌∷◌, ◌≡◌,
}
use breero_com.Models.{EventStatus, IntegrationEvent}
use breero_com.Outbox.{claimed_rows, is_claimable}

module _ (free : IntegrationEvent → Bool) (token_of : IntegrationEvent → ℕ)
    (now lease_seconds : ℕ) where
  -- A row that a claim may take.
  abbrev pub is_open : IntegrationEvent → Bool
  is_open e = is_claimable now e && free e

  pub length-claimed_rows :
      (limit : ℕ) (es : List IntegrationEvent)
      → length (claimed_rows free token_of now lease_seconds limit es)
        ≡ min limit (count is_open es)
  unfolding claimed_rows
  length-claimed_rows zero es = omega arith
  length-claimed_rows (suc limit) [] = omega arith
  length-claimed_rows (suc limit) (e ∷ es) =
      ground (arith, length-claimed_rows limit es, length-claimed_rows (suc limit) es)

  -- A row that is being processed and that no claim takes before the end of its lease.
  abbrev pub IsHeld : IntegrationEvent → Type 0
  IsHeld e =
      (e.status ≡ EventStatus.processing)
      × ((t : ℕ) → t < now + lease_seconds → is_claimable t e ≡ false)
