-- ===== src/Booking/Timezones/Local.antt =====
-- apps/api/app/domains/booking/timezones.py: what an instant says of the wall clock it is read from.
use breero_com.Prelude.{
  Bool, Bool-cases, Option, [], ap, arith, false, if◌then◌else◌, inl, inr, is_empty, is_some,
  nat_eq, none, not, one_of, option_eq, refl, some, suc, sym, true, zero, ℕ, ◌&&◌, ◌++◌, ◌==◌, ◌↔◌,
  ◌∙◌, ◌∷◌, ◌≡◌, ◌≤◌,
}
use breero_com.Errors.{ambiguous_local_time, invalid_fold, nonexistent_local_time}
use breero_com.Session.{Outcome, err, ok}
use breero_com.Booking.Timezones.{
  Zone, candidates, clock_to_utc, date_of, enforce_breero_hours, enforce_hours, is_ambiguous,
  is_candidate, selected_fold, time_of, weekday,
}

-- `to_utc` at a fold that the zone shows is an instant whose wall clock is the given one.
abbrev pub Shows : Zone → ℕ → ℕ → ℕ → Type 0
Shows zone instant clock fold = zone.to_local instant ≡ (clock, fold)

candidate-Shows :
    (zone : Zone) (clock fold : ℕ)
    → is_candidate zone clock fold ≡ true
    → Shows zone (zone.to_utc clock fold) clock fold
candidate-Shows zone clock fold h = by_parts (zone.to_local (zone.to_utc clock fold)) h
  where
    by_parts :
        (shown : ℕ × ℕ) → (shown.0 == clock && shown.1 == fold) ≡ true → shown ≡ (clock, fold)
    by_parts (a, b) h = ground (arith, nat_eq.equal_iff a clock, nat_eq.equal_iff b fold)

Shows-candidate :
    (zone : Zone) (clock fold : ℕ)
    → Shows zone (zone.to_utc clock fold) clock fold
    → is_candidate zone clock fold ≡ true
Shows-candidate zone clock fold h =
    rw h (ground (arith, nat_eq.equal_iff clock clock, nat_eq.equal_iff fold fold))

-- A fold in the list is one that the zone shows.
listed-candidate :
    (zone : Zone) (clock fold : ℕ)
    → one_of fold (candidates zone clock) ≡ true
    → is_candidate zone clock fold ≡ true
listed-candidate zone clock fold h =
    by_tests (is_candidate zone clock 0) (is_candidate zone clock 1) refl refl h
  where
    by_tests :
        (a b : Bool)
        → is_candidate zone clock 0 ≡ a
        → is_candidate zone clock 1 ≡ b
        → one_of fold ((if a then 0 ∷ [] else []) ++ (if b then 1 ∷ [] else [])) ≡ true
        → is_candidate zone clock fold ≡ true
    by_tests false false p q k = absurd (cc)
    by_tests true false p q k =
        let e : fold ≡ 0 = (nat_eq.equal_iff fold 0).0 (ground arith) in
        ap (is_candidate zone clock) e ∙ p
    by_tests false true p q k =
        let e : fold ≡ 1 = (nat_eq.equal_iff fold 1).0 (ground arith) in
        ap (is_candidate zone clock) e ∙ q
    by_tests true true p q k = elim (Bool-cases (fold == 0)) [
      | inl first ↦ ap (is_candidate zone clock) ((nat_eq.equal_iff fold 0).0 first) ∙ p
      | inr other ↦
          let e : fold ≡ 1 = (nat_eq.equal_iff fold 1).0 (ground arith) in
          ap (is_candidate zone clock) e ∙ q
    ]

-- What has been tested when an instant is returned.
accepted_clock :
    (zone : Zone) (clock t : ℕ) (fold : Option ℕ)
    → clock_to_utc zone clock fold ≡ ok t
    → ((is_ambiguous zone clock && not (is_some fold)) ≡ false)
      × (one_of (selected_fold fold (candidates zone clock)) (candidates zone clock) ≡ true)
      × (t ≡ zone.to_utc clock (selected_fold fold (candidates zone clock)))
unfolding clock_to_utc
accepted_clock zone clock t fold h =
    chosen (is_empty (candidates zone clock)) (is_ambiguous zone clock && not (is_some fold))
      (one_of (selected_fold fold (candidates zone clock)) (candidates zone clock))
      (zone.to_utc clock (selected_fold fold (candidates zone clock))) h
  where
    chosen :
        (a b m : Bool) (u : ℕ)
        → ◌≡◌ {A = Outcome ℕ}
            (if a
              then err nonexistent_local_time
              else if b
              then err ambiguous_local_time
              else if not m
              then err invalid_fold
              else ok u)
            (ok t)
        → (b ≡ false) × (m ≡ true) × (t ≡ u)
    chosen true b m u h = absurd (ground arith)
    chosen false true m u h = absurd (ground arith)
    chosen false false false u h = absurd (ground arith)
    chosen false false true u h = (refl, refl, ground arith)

same_instant :
    (zone : Zone) (clock g : ℕ)
    → g ≤ 1
    → is_candidate zone clock g ≡ true
    → is_ambiguous zone clock ≡ false
    → zone.to_utc clock g ≡ zone.to_utc clock (selected_fold none (candidates zone clock))
same_instant zone clock g small shown clear =
    by_tests (is_candidate zone clock 0) (is_candidate zone clock 1) g refl refl small shown clear
  where
    by_tests :
        (a b : Bool) (g : ℕ)
        → is_candidate zone clock 0 ≡ a
        → is_candidate zone clock 1 ≡ b
        → g ≤ 1
        → is_candidate zone clock g ≡ true
        → (a && b && not (zone.to_utc clock 0 == zone.to_utc clock 1)) ≡ false
        → zone.to_utc clock g
          ≡ zone.to_utc clock
              (selected_fold none ((if a then 0 ∷ [] else []) ++ (if b then 1 ∷ [] else [])))
    by_tests true b zero p q small shown clear = refl
    by_tests true true (suc zero) p q small shown clear =
        sym ((nat_eq.equal_iff (zone.to_utc clock 0) (zone.to_utc clock 1)).0 (ground arith))
    by_tests false true (suc zero) p q small shown clear = refl
    by_tests false b zero p q small shown clear = absurd (cc)
    by_tests a false (suc zero) p q small shown clear = absurd (cc)
    by_tests a b (suc (suc g)) p q small shown clear = absurd (omega arith)

unasked : (b : Bool) (fold : Option ℕ) → fold ≡ none → (b && not (is_some fold)) ≡ false → b ≡ false
unasked b none e h = ground arith
unasked b (some f) e h = absurd (cc)

-- A wall clock that is turned into an instant is shown at that instant by the zone: no time in a gap
-- is accepted. Where no fold was asked for, the instant is the only one at which the clock shows that
-- time, at either fold: nothing is guessed when the clocks go back.
pub clock_to_utc_unique :
    (zone : Zone) (clock t : ℕ) (fold : Option ℕ)
    → clock_to_utc zone clock fold ≡ ok t
    → ((f : ℕ) × (t ≡ zone.to_utc clock f) × Shows zone t clock f)
      × (fold ≡ none
          → (g : ℕ) → g ≤ 1
          → Shows zone (zone.to_utc clock g) clock g
          → zone.to_utc clock g ≡ t)
clock_to_utc_unique zone clock t fold h =
    let (clear, listed, e) = accepted_clock zone clock t fold h in
    let f : ℕ = selected_fold fold (candidates zone clock) in
    let shown : Shows zone (zone.to_utc clock f) clock f =
      candidate-Shows zone clock f (listed-candidate zone clock f listed) in
    (
      (f, e, ap zone.to_local e ∙ shown),
      λ without g small shows.
          let at : fold ≡ none = without in
          let plain : is_ambiguous zone clock ≡ false =
            unasked (is_ambiguous zone clock) fold at clear in
          same_instant zone clock g small (Shows-candidate zone clock g shows) plain
          ∙ ap (λ o. zone.to_utc clock (selected_fold o (candidates zone clock))) (sym at)
          ∙ sym e,
    )

-- A visit is accepted exactly when it begins and ends on one day, between 07:00 and 19:00, and, on a
-- Sunday, when the service and the provider take emergencies.
enforce_breero_hours-lem :
    (start end : ℕ) (service provider : Bool)
    → (enforce_breero_hours start end service provider ≡ ok tt) ↔ (
        (date_of start ≡ date_of end)
        × (25200 ≤ time_of start)
        × (time_of end ≤ 68400)
        × (weekday start ≡ 6 → (service ≡ true) × (provider ≡ true)))
unfolding enforce_hours
enforce_breero_hours-lem start end service provider = (
  (λ h. (ground arith, ground arith, ground arith, λ sunday. (ground arith, ground arith))),
  (λ (day, opens, closes, sunday). elim (Bool-cases (weekday start == 6)) [
    | inl is_sunday ↦
        let both = sunday ((nat_eq.equal_iff (weekday start) 6).0 is_sunday) in ground (arith, both)
    | inr other ↦ ground arith
  ]),
)
