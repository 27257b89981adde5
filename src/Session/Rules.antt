-- ===== src/Session/Rules.antt =====
-- How a property of a whole run goes through the step that the run begins with.
use breero_com.Prelude.{Bool, Option, false, none, refl, some, true, ◌≡◌}
use breero_com.Errors.{Error}
use breero_com.Session.{Outcome, Session, Tx, continue, err, guard, lift, ok, require, ◌>>=◌}

module _ {S A B : Type 0} (P : Outcome B × Session S → Type 0) where
  pub after_require :
      (o : Option A) (e : Error) (f : A → Tx S B) (s : Session S)
      → P (err e, s)
      → ((a : A) → o ≡ some a → P (f a s))
      → P ((require o e >>= f) s)
  unfolding ◌>>=◌
  after_require none e f s missing found = missing
  after_require (some a) e f s missing found = found a refl

  pub after_lift :
      (r : Outcome A) (f : A → Tx S B) (s : Session S)
      → ((e : Error) → r ≡ err e → P (err e, s))
      → ((a : A) → r ≡ ok a → P (f a s))
      → P ((lift r >>= f) s)
  unfolding ◌>>=◌
  after_lift (ok a) f s failed passed = passed a refl
  after_lift (err e) f s failed passed = failed e refl

  -- What follows a step, from what the step leaves.
  pub after_continue :
      (r : Outcome A) (f : A → Tx S B) (s : Session S)
      → ((e : Error) → r ≡ err e → P (err e, s))
      → ((a : A) → r ≡ ok a → P (f a s))
      → P (continue r f s)
  after_continue (ok a) f s failed passed = passed a refl
  after_continue (err e) f s failed passed = failed e refl

module _ {S B : Type 0} (P : Outcome B × Session S → Type 0) where
  pub after_guard :
      (b : Bool) (e : Error) (m : Unit {0} → Tx S B) (s : Session S)
      → (b ≡ false → P (err e, s))
      → (b ≡ true → P (m tt s))
      → P ((guard b e >>= m) s)
  unfolding ◌>>=◌
  after_guard true e m s refused passed = passed refl
  after_guard false e m s refused passed = refused refl
