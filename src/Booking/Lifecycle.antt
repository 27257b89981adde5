-- ===== src/Booking/Lifecycle.antt =====
-- apps/api/app/domains/booking/lifecycle.py, and the general machine of
-- apps/api/app/domains/common/state_machine.py.
pub mod Diagram
pub mod Work
use breero_com.Prelude.{
  Bool, Comparable, List, Option, [], if◌then◌else◌, nat_eq, none, not, one_of, option_eq, or_else,
  some, ◌==◌, ◌∷◌,
}
use breero_com.Models.{
  BookingStatus, address_validated, availability_found, booking_status_eq, coverage_confirmed,
}
use breero_com.Errors.{bad_booking_transition, no_capacity, quote_required}
use breero_com.Session.{Outcome, err, ok}

-- A `dict` under keys that are compared.
abbrev pub dict_get {ℓ κ} :
    {K : Type ℓ} {A : Type κ} ⦃e : Comparable K⦄ → K → List (K × A) → Option A
dict_get key [] = none
dict_get key ((k, a) ∷ rest) = if k == key then some a else dict_get key rest

-- `mapping.get(key, frozenset())`.
abbrev pub entry_of {ℓ κ} :
    {K : Type ℓ} {A : Type κ} ⦃e : Comparable K⦄ → K → List (K × List A) → List A
entry_of key rows = or_else (dict_get key rows) []

-- `StateMachine`, and what `require_transition` ends with.
pub record StateMachine {ℓ} (StateT : Type ℓ) : Type ℓ where
  pub transitions : List (StateT × List StateT)

pub data Required {ℓ} (StateT : Type ℓ) : Type ℓ where
  allowed : Required StateT
  invalid_state_transition : StateT → StateT → Required StateT

module _ {ℓ} {StateT : Type ℓ} ⦃e : Comparable StateT⦄ where
  abbrev can_transition : StateMachine StateT → StateT → StateT → Bool
  can_transition machine current target = one_of target (entry_of current machine.transitions)

  abbrev pub require_transition : StateMachine StateT → StateT → StateT → Required StateT
  require_transition machine current target =
      if can_transition machine current target
      then allowed
      else invalid_state_transition current target

-- `ALLOWED_TRANSITIONS`: nine states have no entry.
abbrev pub allowed_transitions : List (BookingStatus × List BookingStatus)
allowed_transitions =
    (BookingStatus.draft, BookingStatus.requested ∷ BookingStatus.expired ∷ [])
    ∷ (
      BookingStatus.requested,
      BookingStatus.pending_review ∷ BookingStatus.address_validated ∷ BookingStatus.cancelled ∷ [],
    )
    ∷ (
      BookingStatus.pending_review,
      BookingStatus.address_validated ∷ BookingStatus.no_coverage ∷ BookingStatus.cancelled ∷ [],
    )
    ∷ (
      BookingStatus.address_validated,
      BookingStatus.coverage_confirmed ∷ BookingStatus.no_coverage ∷ BookingStatus.cancelled ∷ [],
    )
    ∷ (
      BookingStatus.coverage_confirmed,
      BookingStatus.availability_found ∷ BookingStatus.no_capacity ∷ BookingStatus.quote_required
          ∷ BookingStatus.cancelled ∷ [],
    )
    ∷ (
      BookingStatus.availability_found,
      BookingStatus.capacity_held ∷ BookingStatus.no_capacity ∷ BookingStatus.cancelled ∷ [],
    )
    ∷ (
      BookingStatus.capacity_held,
      BookingStatus.awaiting_assignment ∷ BookingStatus.pending_manual_dispatch
          ∷ BookingStatus.expired ∷ BookingStatus.cancelled ∷ [],
    )
    ∷ (
      BookingStatus.awaiting_assignment,
      BookingStatus.provider_assigned ∷ BookingStatus.no_capacity ∷ BookingStatus.cancelled ∷ [],
    )
    ∷ (
      BookingStatus.pending_manual_dispatch,
      BookingStatus.provider_assigned ∷ BookingStatus.confirmed ∷ BookingStatus.no_capacity
          ∷ BookingStatus.cancelled ∷ [],
    )
    ∷ (
      BookingStatus.provider_assigned,
      BookingStatus.confirmed ∷ BookingStatus.provider_declined
          ∷ BookingStatus.reassignment_required ∷ BookingStatus.cancelled ∷ [],
    )
    ∷ (
      BookingStatus.provider_declined,
      BookingStatus.reassignment_required ∷ BookingStatus.cancelled ∷ [],
    )
    ∷ (
      BookingStatus.reassignment_required,
      BookingStatus.provider_assigned ∷ BookingStatus.no_capacity ∷ BookingStatus.cancelled ∷ [],
    )
    ∷ (
      BookingStatus.confirmed,
      BookingStatus.en_route ∷ BookingStatus.rescheduled ∷ BookingStatus.reassignment_required
          ∷ BookingStatus.cancelled ∷ [],
    )
    ∷ (
      BookingStatus.rescheduled,
      BookingStatus.capacity_held ∷ BookingStatus.awaiting_assignment
          ∷ BookingStatus.pending_manual_dispatch ∷ BookingStatus.cancelled ∷ [],
    )
    ∷ (BookingStatus.en_route, BookingStatus.in_progress ∷ BookingStatus.cancelled ∷ [])
    ∷ (BookingStatus.in_progress, BookingStatus.completed ∷ [])
    ∷ []

-- `ensure_transition`.
abbrev pub ensure_transition : BookingStatus → BookingStatus → Outcome (Unit {0})
ensure_transition current target =
    if not (one_of target (entry_of current allowed_transitions))
    then err (bad_booking_transition current target)
    else ok tt
