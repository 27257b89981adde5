-- ===== src/Prelude/Table.antt =====
-- A table of a relational database: its rows in the order of insertion, and the SQL that the
-- services use on it.
use Prim.Native.Nat.{ℕ, ◌+◌}
use mathlib.Core.Path.{◌≡◌, refl}
use mathlib.Core.Bool.{Bool, true}
use mathlib.Core.Option.{Option, none, some}
use mathlib.Core.List.{List, [], ◌∷◌, ◌++◌}
use native.Mathlib.Omega.{arith}
use breero_com.Prelude.Tests.{eqb, if◌then◌else◌}

module _ {ℓ} {A : Type ℓ} where
  -- `select(A).where(p)` read by `scalar`.
  abbrev pub find : (A → Bool) → List A → Option A
  find p [] = none
  find p (r ∷ rows) = if p r then some r else find p rows

  -- `select(A).where(p)` read by `scalars(…).all()`.
  abbrev pub select : (A → Bool) → List A → List A
  select p [] = []
  select p (r ∷ rows) = if p r then r ∷ select p rows else select p rows

  -- `update(A).where(p).values(…)`.
  abbrev pub update : (A → Bool) → (A → A) → List A → List A
  update p f [] = []
  update p f (r ∷ rows) = (if p r then f r else r) ∷ update p f rows

  -- `select(func.count())`.
  abbrev pub count : (A → Bool) → List A → ℕ
  count p [] = 0
  count p (r ∷ rows) = (if p r then 1 else 0) + count p rows

  -- `select(func.coalesce(func.sum(value), 0))`.
  abbrev pub sum : (A → Bool) → (A → ℕ) → List A → ℕ
  sum p value [] = 0
  sum p value (r ∷ rows) = (if p r then value r else 0) + sum p value rows

  -- `session.add(row)`.
  abbrev pub add : A → List A → List A
  add row rows = rows ++ row ∷ []

  pub count-append : (p : A → Bool) (xs ys : List A) → count p (xs ++ ys) ≡ count p xs + count p ys
  count-append p [] ys = omega arith
  count-append p (x ∷ xs) ys = omega (arith, count-append p xs ys)

  pub sum-append :
      (p : A → Bool) (value : A → ℕ) (xs ys : List A)
      → sum p value (xs ++ ys) ≡ sum p value xs + sum p value ys
  sum-append p value [] ys = omega arith
  sum-append p value (x ∷ xs) ys = omega (arith, sum-append p value xs ys)

  pub find-append :
      (p : A → Bool) (xs ys : List A)
      → find p (xs ++ ys) ≡ elim (find p xs) [ none ↦ find p ys | some r ↦ some r ]
  find-append p [] ys = refl
  find-append p (x ∷ xs) ys = ground (arith, find-append p xs ys)

  -- A new row is found, if it is the first that the query is about.
  pub find-add :
      (p : A → Bool) (row : A) (rows : List A)
      → find p rows ≡ none
      → p row ≡ true
      → find p (add row rows) ≡ some row
  find-add p row [] fresh is_it = ground arith
  find-add p row (r ∷ rows) fresh is_it = ground (arith, find-add p row rows)

  -- An update that keeps the answer of the query finds the changed row.
  pub find-update :
      (p : A → Bool) (f : A → A) (rows : List A)
      → ((r : A) → p (f r) ≡ p r)
      → find p (update p f rows) ≡ elim (find p rows) [ none ↦ none | some r ↦ some (f r) ]
  find-update p f [] same = refl
  find-update p f (r ∷ rows) same = ground (arith, same r, find-update p f rows same)

  -- What a query finds has the property that was asked for.
  pub find_sound : (p : A → Bool) (rows : List A) (r : A) → find p rows ≡ some r → p r ≡ true
  find_sound p [] r h = cc
  find_sound p (x ∷ rows) r h = ground (arith, find_sound p rows r)

-- Rows under their primary key.
module _ {ℓ} {A : Type ℓ} (key : A → ℕ) where
  -- `session.get(A, k)`.
  abbrev pub get : ℕ → List A → Option A
  get k rows = find (λ r. eqb (key r) k) rows

  -- The flush of a loaded object whose attributes were assigned.
  abbrev pub put : A → List A → List A
  put row [] = []
  put row (r ∷ rows) = if eqb (key r) (key row) then row ∷ rows else r ∷ put row rows

  pub get-put :
      (row : A) (k : ℕ) (rows : List A)
      → get k (put row rows) ≡ (
          if eqb (key row) k
          then elim (get k rows) [ none ↦ none | some _ ↦ some row ]
          else get k rows)
  get-put row k [] = ground arith
  get-put row k (r ∷ rows) = ground (arith, get-put row k rows)

  pub get_key : (k : ℕ) (rows : List A) (r : A) → get k rows ≡ some r → key r ≡ k
  get_key k [] r h = cc
  get_key k (x ∷ rows) r h = ground (arith, get_key k rows r)

  -- A row that replaces one with the same answer to a test leaves the count as it was.
  pub count-put :
      (p : A → Bool) (row old : A) (rows : List A)
      → get (key row) rows ≡ some old
      → p row ≡ p old
      → count p (put row rows) ≡ count p rows
  count-put p row old [] found same = cc
  count-put p row old (r ∷ rows) found same = ground (arith, count-put p row old rows)

  pub sum-put :
      (p : A → Bool) (value : A → ℕ) (row old : A) (rows : List A)
      → get (key row) rows ≡ some old
      → sum p value (put row rows) + (if p old then value old else 0)
        ≡ sum p value rows + (if p row then value row else 0)
  sum-put p value row old [] found = cc
  sum-put p value row old (r ∷ rows) found = ground (arith, sum-put p value row old rows)
