-- ===== src/Booking/Lifecycle/Work.antt =====
-- apps/api/app/domains/booking/lifecycle.py: how a booking comes to work.
use breero_com.Prelude.{List, [], arith, inl, inr, nat_eq, one_of, refl, true, ◌∷◌, ◌≡◌, ◌⊎◌}
use breero_com.Models.{BookingStatus}
use breero_com.Booking.Lifecycle.Diagram.{Allows, Reach, here, next}
use mathlib.Core.Path.{subst}
use breero_com.Models.{booking_status_eq}

-- The states of the visit itself.
abbrev working_statuses : List BookingStatus
working_statuses = BookingStatus.en_route ∷ BookingStatus.in_progress ∷ BookingStatus.completed ∷ []

abbrev pub IsWorking : BookingStatus → Type 0
IsWorking status = one_of status working_statuses ≡ true

-- The states before one of the visit.
entered_from :
    (via to : BookingStatus)
    → Allows via to
    → IsWorking to
    → (via ≡ BookingStatus.confirmed) ⊎ IsWorking via
entered_from BookingStatus.confirmed to step h = inl refl
entered_from BookingStatus.en_route to step h = inr refl
entered_from BookingStatus.in_progress to step h = inr refl
entered_from BookingStatus.completed to step h = inr refl
entered_from via to step h = absurd (ground arith)

-- A visit starts from a confirmed booking only: whatever transitions bring a booking to a state of
-- the visit, they pass through CONFIRMED, unless they began in a state of the visit.
pub work-through_confirmed :
    (from to : BookingStatus)
    → Reach from to
    → IsWorking to
    → IsWorking from ⊎ (Reach from BookingStatus.confirmed × Reach BookingStatus.confirmed to)
work-through_confirmed from to here h = inl h
work-through_confirmed from to (next {via} r step) h = elim (entered_from via to step h) [
  | inl e ↦ inr (subst (Reach from) e r, next here (subst (λ v. Allows v to) e step))
  | inr at ↦ elim (work-through_confirmed from via r at) [
    | inl began ↦ inl began
    | inr (before, after) ↦ inr (before, next after step)
  ]
]
