-- ===== src/Models/Enum.antt =====
-- How an enumeration is compared: by the position of its member in the class body.
use breero_com.Prelude.{ℕ, ◌≡◌, true, Comparable, eqb, eqb_iff, ◌↔◌, ap}

pub by_position_iff {ℓ} :
    {A : Type ℓ} (position : A → ℕ)
    → ((a b : A) → position a ≡ position b → a ≡ b)
    → (a b : A) → (eqb (position a) (position b) ≡ true) ↔ (a ≡ b)
by_position_iff position injective a b = (
  (λ h. injective a b ((eqb_iff (position a) (position b)).0 h)),
  (λ h. (eqb_iff (position a) (position b)).1 (ap position h)),
)

abbrev pub by_position {ℓ} :
    {A : Type ℓ} (position : A → ℕ) → ((a b : A) → position a ≡ position b → a ≡ b) → Comparable A
by_position position injective = record {
  equal = λ a b. eqb (position a) (position b);
  equal_iff = by_position_iff position injective;
}
