-- ===== src/Session/Atomic.antt =====
-- A request that raises leaves the database as it was, if its commit is its last step: one rule for
-- each way to build such a request.
use breero_com.Prelude.{Bool, Option, false, if◌then◌else◌, none, refl, some, true, ◌≡◌}
use breero_com.Errors.{Error}
use breero_com.Session.{
  Outcome, Session, Tx, answer, commit, continue, err, found_or, modify, ok, pure, request, ◌>>=◌,
  ◌>>◌,
}
use breero_com.Session.Keeps.{Keeps, Keeps-modify, keeps_rules}

module _ {S : Type 0} where
  -- Nothing has been committed since the state `base` was read.
  pub record IsUncommitted (base : S) (s : Session S) : Type 0 where
    pub saved : s.saved ≡ base

  module _ {A : Type 0} where
    abbrev pub AtomicResult : S → Outcome A × Session S → Type 0
    AtomicResult base (ok a, s) = Unit
    AtomicResult base (err e, s) = s.saved ≡ base

    pub record IsAtomic (base : S) (m : Tx S A) : Type 0 where
      pub kept : (s : Session S) → s.saved ≡ base → AtomicResult base (m s)

module _ {S A : Type 0} {base : S} where
  pub IsAtomic-keeps : (m : Tx S A) → Keeps (IsUncommitted base) m → IsAtomic base m
  IsAtomic-keeps m km = record {
    kept = λ s h. by_result (m s).0 (m s).1 (km.kept s (record { saved = h })).saved;
  }
    where
      by_result : (r : Outcome A) (s : Session S) → s.saved ≡ base → AtomicResult base (r, s)
      by_result (ok a) s h = tt
      by_result (err e) s h = h

  pub IsAtomic-commit : (a : A) → IsAtomic base (commit >> pure a)
  unfolding ◌>>=◌
  IsAtomic-commit a = record { kept = λ s h. tt }

  pub IsAtomic-if :
      (b : Bool) (m n : Tx S A)
      → IsAtomic base m
      → IsAtomic base n
      → IsAtomic base (if b then m else n)
  IsAtomic-if true m n am an = am
  IsAtomic-if false m n am an = an

  pub IsAtomic-found_or :
      (o : Option A) (m : Tx S A) → IsAtomic base m → IsAtomic base (found_or o m)
  unfolding ◌>>=◌
  IsAtomic-found_or none m am = record { kept = am.kept }
  IsAtomic-found_or (some a) m am = record { kept = λ s h. tt }

module _ {S A B : Type 0} {base : S} where
  IsAtomic-continue :
      (r : Outcome A) (f : A → Tx S B) (s : Session S)
      → s.saved ≡ base
      → ((a : A) → IsAtomic base (f a))
      → AtomicResult base (continue r f s)
  IsAtomic-continue (ok a) f s h af = (af a).kept s h
  IsAtomic-continue (err e) f s h af = h

  pub IsAtomic-bind :
      (m : Tx S A) (f : A → Tx S B)
      → Keeps (IsUncommitted base) m
      → ((a : A) → IsAtomic base (f a))
      → IsAtomic base (m >>= f)
  unfolding ◌>>=◌
  IsAtomic-bind m f km af = record {
    kept = λ s h. IsAtomic-continue (m s).0 f (m s).1 (km.kept s (record { saved = h })).saved af;
  }

module _ {S : Type 0} {base : S} where
  pub Uncommitted-modify : (f : S → S) → Keeps (IsUncommitted base) (modify f)
  Uncommitted-modify f = Keeps-modify f λ s h. record { saved = h.saved }

module _ {S A : Type 0} where
  pub request-IsAtomic :
      (db : S) (m : Tx S A) (e : Error)
      → IsAtomic db m
      → (answer (request m db)).0 ≡ some e
      → (answer (request m db)).1 ≡ db
  unfolding request
  request-IsAtomic db m e am =
      let s : Session S = record { saved = db; live = db } in
      by_result (m s).0 (m s).1 (am.kept s refl)
    where
      by_result :
          (r : Outcome A) (s : Session S)
          → AtomicResult db (r, s)
          → (answer (r, s.saved)).0 ≡ some e
          → (answer (r, s.saved)).1 ≡ db
      by_result (ok a) s h failed = cc
      by_result (err e') s h failed = h

pub ruleset atomic_rules = (
  keeps_rules, Uncommitted-modify, IsAtomic-keeps, IsAtomic-commit, IsAtomic-if, IsAtomic-found_or,
  IsAtomic-bind,
)
