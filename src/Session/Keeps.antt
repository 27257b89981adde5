-- ===== src/Session/Keeps.antt =====
-- What a step keeps true of the session, whether it returns or raises: one rule for each way to
-- build a step.
use breero_com.Prelude.{Bool, true, false, Option, none, some, if◌then◌else◌}
use breero_com.Session.{
  Session, Outcome, ok, err, Tx, pure, raise, gets, lift, require, found_or, attempt, modify, guard,
  when, continue, ◌>>=◌,
}
use breero_com.Errors.{Error}

pub record Keeps {S A : Type 0} (P : Session S → Type 0) (m : Tx S A) : Type 0 where
  pub kept : (s : Session S) → P s → P (m s).1

module _ {S A : Type 0} {P : Session S → Type 0} where
  pub Keeps-gets : (f : S → A) → Keeps P (gets f)
  unfolding ◌>>=◌
  Keeps-gets f = record { kept = λ s h. h }

  pub Keeps-lift : (r : Outcome A) → Keeps P (lift r)
  unfolding ◌>>=◌
  Keeps-lift r = record { kept = λ s h. h }

  pub Keeps-require : (o : Option A) (e : Error) → Keeps P (require o e)
  unfolding ◌>>=◌
  Keeps-require none e = record { kept = λ s h. h }
  Keeps-require (some a) e = record { kept = λ s h. h }

  pub Keeps-found_or : (o : Option A) (m : Tx S A) → Keeps P m → Keeps P (found_or o m)
  unfolding ◌>>=◌
  Keeps-found_or none m km = record { kept = km.kept }
  Keeps-found_or (some a) m km = record { kept = λ s h. h }

  pub Keeps-attempt : (m : Tx S A) → Keeps P m → Keeps P (attempt m)
  unfolding ◌>>=◌
  Keeps-attempt m km = record { kept = km.kept }

  pub Keeps-if : (b : Bool) (m n : Tx S A) → Keeps P m → Keeps P n → Keeps P (if b then m else n)
  Keeps-if true m n km kn = km
  Keeps-if false m n km kn = kn

  pub Keeps-pure : (a : A) → Keeps P (pure a)
  unfolding ◌>>=◌
  Keeps-pure a = record { kept = λ s h. h }

  pub Keeps-raise : (e : Error) → Keeps P (raise {A = A} e)
  unfolding ◌>>=◌
  Keeps-raise e = record { kept = λ s h. h }

module _ {S : Type 0} {P : Session S → Type 0} where
  pub Keeps-guard : (b : Bool) (e : Error) → Keeps P (guard b e)
  unfolding ◌>>=◌
  Keeps-guard true e = record { kept = λ s h. h }
  Keeps-guard false e = record { kept = λ s h. h }

  -- A write keeps what it keeps of the live state.
  pub Keeps-modify :
      (f : S → S) → ((s : Session S) → P s → P (record s { live = f s.live })) → Keeps P (modify f)
  unfolding ◌>>=◌
  Keeps-modify f kept = record { kept = kept }

  pub Keeps-when : (b : Bool) (m : Tx S (Unit {0})) → Keeps P m → Keeps P (when b m)
  unfolding ◌>>=◌
  Keeps-when true m km = record { kept = km.kept }
  Keeps-when false m km = record { kept = λ s h. h }

module _ {S A B : Type 0} {P : Session S → Type 0} where
  Keeps-continue :
      (r : Outcome A) (f : A → Tx S B)
      → ((a : A) → Keeps P (f a))
      → (s : Session S) → P s
      → P (continue r f s).1
  Keeps-continue (ok a) f kf s h = (kf a).kept s h
  Keeps-continue (err e) f kf s h = h

  pub Keeps-bind :
      (m : Tx S A) (f : A → Tx S B) → Keeps P m → ((a : A) → Keeps P (f a)) → Keeps P (m >>= f)
  unfolding ◌>>=◌
  Keeps-bind m f km kf = record {
    kept = λ s h. let (r, s') = m s in Keeps-continue r f kf s' (km.kept s h);
  }

pub ruleset keeps_rules = (
  Keeps-pure, Keeps-raise, Keeps-gets, Keeps-lift, Keeps-require, Keeps-found_or, Keeps-attempt,
  Keeps-if, Keeps-guard, Keeps-when, Keeps-bind,
)
