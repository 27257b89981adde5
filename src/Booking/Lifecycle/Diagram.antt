-- ===== src/Booking/Lifecycle/Diagram.antt =====
-- apps/api/app/domains/booking/lifecycle.py: the paths through the diagram of a booking's states.
use breero_com.Prelude.{
  Bool, Bool-cases, List, Option, [], arith, false, if◌then◌else◌, inl, inr, is_some, nat_eq, none,
  not, one_of, or_else, refl, some, true, ◌&&◌, ◌↔◌, ◌∷◌, ◌≡◌, ◌⊎◌,
}
use breero_com.Models.{BookingStatus}
use breero_com.Errors.{Error, bad_booking_transition}
use breero_com.Session.{Outcome, err, ok}
use breero_com.Booking.Lifecycle.{allowed_transitions, dict_get, ensure_transition, entry_of}
use breero_com.Models.{booking_status_eq}

-- One transition that `ensure_transition` lets pass.
abbrev pub Allows : BookingStatus → BookingStatus → Type 0
Allows current target = ensure_transition current target ≡ ok tt

-- Any number of transitions.
pub data Reach (from : BookingStatus) : BookingStatus → Type 0 where
  here : Reach from from
  next : {via to : BookingStatus} → Reach from via → Allows via to → Reach from to

-- The states that have an entry in the table.
abbrev pub IsListed : BookingStatus → Type 0
IsListed status = is_some (dict_get status allowed_transitions) ≡ true

-- A path given by the states that it goes through.
abbrev steps_allowed : BookingStatus → List BookingStatus → Bool
steps_allowed from [] = true
steps_allowed from (via ∷ path) =
    one_of via (entry_of from allowed_transitions) && steps_allowed via path

abbrev end_of : BookingStatus → List BookingStatus → BookingStatus
end_of from [] = from
end_of from (via ∷ path) = end_of via path

before :
    (from via : BookingStatus) {to : BookingStatus} → Allows from via → Reach via to → Reach from to
before from via step here = next here step
before from via step (next r s) = next (before from via step r) s

path-Reach :
    (from : BookingStatus) (path : List BookingStatus)
    → steps_allowed from path ≡ true
    → Reach from (end_of from path)
path-Reach from [] h = here
path-Reach from (via ∷ path) h = before from via (ground arith) (path-Reach via path (ground arith))

-- From each state that has an entry, the way to the end of the service.
abbrev from_provider_assigned : List BookingStatus
from_provider_assigned =
    BookingStatus.confirmed ∷ BookingStatus.en_route ∷ BookingStatus.in_progress
    ∷ BookingStatus.completed ∷ []

abbrev from_address_validated : List BookingStatus
from_address_validated =
    BookingStatus.coverage_confirmed ∷ BookingStatus.availability_found
    ∷ BookingStatus.capacity_held ∷ BookingStatus.pending_manual_dispatch ∷ from_provider_assigned

route : BookingStatus → List BookingStatus
route BookingStatus.draft =
    BookingStatus.requested ∷ BookingStatus.address_validated ∷ from_address_validated
route BookingStatus.requested = BookingStatus.address_validated ∷ from_address_validated
route BookingStatus.pending_review = BookingStatus.address_validated ∷ from_address_validated
route BookingStatus.address_validated = from_address_validated
route BookingStatus.coverage_confirmed =
    BookingStatus.availability_found ∷ BookingStatus.capacity_held
    ∷ BookingStatus.pending_manual_dispatch ∷ from_provider_assigned
route BookingStatus.availability_found =
    BookingStatus.capacity_held ∷ BookingStatus.pending_manual_dispatch ∷ from_provider_assigned
route BookingStatus.capacity_held = BookingStatus.pending_manual_dispatch ∷ from_provider_assigned
route BookingStatus.awaiting_assignment = BookingStatus.provider_assigned ∷ from_provider_assigned
route BookingStatus.provider_assigned = from_provider_assigned
route BookingStatus.pending_manual_dispatch = from_provider_assigned
route BookingStatus.confirmed =
    BookingStatus.en_route ∷ BookingStatus.in_progress ∷ BookingStatus.completed ∷ []
route BookingStatus.en_route = BookingStatus.in_progress ∷ BookingStatus.completed ∷ []
route BookingStatus.in_progress = BookingStatus.completed ∷ []
route BookingStatus.provider_declined =
    BookingStatus.reassignment_required ∷ BookingStatus.provider_assigned ∷ from_provider_assigned
route BookingStatus.reassignment_required = BookingStatus.provider_assigned ∷ from_provider_assigned
route BookingStatus.rescheduled =
    BookingStatus.capacity_held ∷ BookingStatus.pending_manual_dispatch ∷ from_provider_assigned
route status = []

route_arrives :
    (status : BookingStatus)
    → IsListed status
    → (steps_allowed status (route status) ≡ true)
      × (end_of status (route status) ≡ BookingStatus.completed)
unfolding route
route_arrives BookingStatus.draft h = (refl, refl)
route_arrives BookingStatus.requested h = (refl, refl)
route_arrives BookingStatus.pending_review h = (refl, refl)
route_arrives BookingStatus.address_validated h = (refl, refl)
route_arrives BookingStatus.coverage_confirmed h = (refl, refl)
route_arrives BookingStatus.availability_found h = (refl, refl)
route_arrives BookingStatus.capacity_held h = (refl, refl)
route_arrives BookingStatus.awaiting_assignment h = (refl, refl)
route_arrives BookingStatus.provider_assigned h = (refl, refl)
route_arrives BookingStatus.pending_manual_dispatch h = (refl, refl)
route_arrives BookingStatus.confirmed h = (refl, refl)
route_arrives BookingStatus.en_route h = (refl, refl)
route_arrives BookingStatus.in_progress h = (refl, refl)
route_arrives BookingStatus.provider_declined h = (refl, refl)
route_arrives BookingStatus.reassignment_required h = (refl, refl)
route_arrives BookingStatus.rescheduled h = (refl, refl)
route_arrives status h = absurd (cc)

no_entry :
    (o : Option (List BookingStatus)) (to : BookingStatus)
    → is_some o ≡ false
    → one_of to (or_else o []) ≡ false
no_entry none to h = refl
no_entry (some targets) to h = cc

passed :
    (b : Bool) (e : Error)
    → ◌≡◌ {A = Outcome (Unit {0})} (if not b then err e else ok tt) (ok tt)
    → b ≡ true
passed true e h = refl
passed false e h = absurd (ground arith)

not_listed :
    (from to : BookingStatus)
    → is_some (dict_get from allowed_transitions) ≡ false
    → Reach from to
    → from ≡ to
not_listed from to h here = refl
not_listed from to h (next {via} r step) =
    let e : from ≡ via = not_listed from via h r in
    let stuck : one_of to (entry_of from allowed_transitions) ≡ false =
      no_entry (dict_get from allowed_transitions) to h in
    let goes : one_of to (entry_of via allowed_transitions) ≡ true =
      passed (one_of to (entry_of via allowed_transitions)) (bad_booking_transition via to) step in
    absurd (cc)

-- A booking can be brought to COMPLETED by transitions of the diagram from every state that has an
-- entry in it, and else only from COMPLETED itself: no state with an entry is a dead end.
pub completion-reachable :
    (status : BookingStatus)
    → Reach status BookingStatus.completed ↔ (IsListed status ⊎ (status ≡ BookingStatus.completed))
completion-reachable status = (
  (λ r. elim (Bool-cases (is_some (dict_get status allowed_transitions))) [
    | inl listed ↦ inl listed
    | inr unlisted ↦ inr (not_listed status BookingStatus.completed unlisted r)
  ]),
  (λ h. elim h [
    | inl listed ↦
        let (walk, arrives) = route_arrives status listed in
        rw arrives at (path-Reach status (route status) walk)
    | inr e ↦ rw e here
  ]),
)
