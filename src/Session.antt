-- ===== src/Session.antt =====
-- A request's database session (app/db/session.py: `get_db` opens it, and closes it at the end of
-- the request). What a service assigns is in `live`, which queries see (autoflush); `commit` makes
-- it durable, and what is not committed when the request ends is lost.
pub mod Keeps
pub mod Rules
pub mod Atomic
use breero_com.Prelude.{Bool, true, false, Option, none, some, ◌≡◌, refl, arith, if◌then◌else◌}
use breero_com.Errors.{Error}

pub record Session (S : Type 0) : Type 0 where
  pub saved : S
  pub live : S

pub data Outcome (A : Type 0) : Type 0 where
  ok : A → Outcome A
  err : Error → Outcome A

abbrev pub Tx : Type 0 → Type 0 → Type 0
Tx S A = Session S → Outcome A × Session S

module _ {S A : Type 0} where
  pub pure : A → Tx S A
  pure a s = (ok a, s)

  pub raise : Error → Tx S A
  raise e s = (err e, s)

  pub gets : (S → A) → Tx S A
  gets f s = (ok (f s.live), s)

  -- A call of an outside service that may raise.
  pub lift : Outcome A → Tx S A
  lift r s = (r, s)

  -- A row that has to be there.
  pub require : Option A → Error → Tx S A
  require none e s = (err e, s)
  require (some a) e s = (ok a, s)

  -- `if existing: return existing`, and the rest of the function.
  pub found_or : Option A → Tx S A → Tx S A
  found_or none m s = m s
  found_or (some a) m s = (ok a, s)

  -- `try: … except Exception`: what the block ended with, and the session as it left it.
  pub attempt : Tx S A → Tx S (Outcome A)
  attempt m s = let (r, s') = m s in (ok r, s')

module _ {S : Type 0} where
  pub modify : (S → S) → Tx S (Unit {0})
  modify f s = (ok tt, record s { live = f s.live })

  -- `if not condition: raise e`.
  pub guard : Bool → Error → Tx S (Unit {0})
  guard true e s = (ok tt, s)
  guard false e s = (err e, s)

  pub commit : Tx S (Unit {0})
  commit s = (ok tt, record { saved = s.live; live = s.live })

  pub rollback : Tx S (Unit {0})
  rollback s = (ok tt, record { saved = s.saved; live = s.saved })

  -- `if condition: …` with nothing else.
  pub when : Bool → Tx S (Unit {0}) → Tx S (Unit {0})
  when true m s = m s
  when false m s = (ok tt, s)

module _ {S A B : Type 0} where
  abbrev pub continue : Outcome A → (A → Tx S B) → Tx S B
  continue (ok a) f s = f a s
  continue (err e) f s = (err e, s)

  infixl 10 ◌>>=◌ ◌>>◌
  -- Opening this opens the steps above too.
  unfoldable pub ◌>>=◌ : Tx S A → (A → Tx S B) → Tx S B
  unfolding pure raise gets lift require found_or attempt modify guard commit rollback when
  ◌>>=◌ m f s = let (r, s') = m s in continue r f s'

  abbrev pub ◌>>◌ : Tx S A → Tx S B → Tx S B
  m >> n = m >>= λ _. n

module _ {S A : Type 0} where
  -- A whole request: it starts from what is saved and leaves what is saved.
  unfoldable pub request : Tx S A → S → Outcome A × S
  request m db = let (r, s) = m (record { saved = db; live = db }) in (r, s.saved)

  abbrev pub returned : Outcome A × S → Option A
  returned (ok a, db) = some a
  returned (err e, db) = none

  -- The exception that a request ended with, if any, and the database that it left.
  abbrev pub answer : Outcome A × S → Option Error × S
  answer (ok a, db) = (none, db)
  answer (err e, db) = (some e, db)
