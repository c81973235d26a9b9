-- ===== src/State/Tx.antt =====
-- One transaction: it sees a database and either ends with a value and the new database, or
-- throws, and then nothing it wrote is durable. `Exec` is a program of several transactions: what
-- the committed ones wrote stays, also where a later one throws.
use hyperfixation_core.Prelude.{◌≡◌, refl, ap, Bool, true, false, Option, none, some}
use hyperfixation_core.State.Errors.{Error, Result, ok, err}
use hyperfixation_core.State.Database.{Db}

abbrev pub Tx : Type 0 → Type 0
Tx A = Db → Result (A × Db)

module _ {A B : Type 0} where
  infixl 5 ◌>>=◌
  abbrev pub ◌>>=◌ : Tx A → (A → Tx B) → Tx B
  ◌>>=◌ m f db = elim (m db) [ ok (a, db') ↦ f a db' | err e ↦ err e ]

  pub >>=-ok :
      (m : Tx A) (f : A → Tx B) (db : Db) (a : A) (db' : Db)
      → m db ≡ ok (a, db')
      → (m >>= f) db ≡ f a db'
  >>=-ok m f db a db' h =
      ap
        (λ (r : Result (A × Db)). elim r as (λ _. Result (B × Db)) [
          | ok (x, d) ↦ f x d
          | err e ↦ err e
        ])
        h

  -- Inversion of a transaction that ended.
  pub >>=-eq-ok :
      (m : Tx A) (f : A → Tx B) (db : Db) (b : B) (db'' : Db)
      → (m >>= f) db ≡ ok (b, db'')
      → (a : A) × (db' : Db) × (m db ≡ ok (a, db')) × (f a db' ≡ ok (b, db''))
  >>=-eq-ok m f db b db'' h = go (m db) refl h
    where
      go :
          (r : Result (A × Db))
          → m db ≡ r
          → (elim r [ ok (a, db') ↦ f a db' | err e ↦ err e ]) ≡ ok (b, db'')
          → (a : A) × (db' : Db) × (m db ≡ ok (a, db')) × (f a db' ≡ ok (b, db''))
      go (ok (a, db')) e k = (a, db', e, k)
      go (err x) e k = cc

infixl 5 ◌>>◌
abbrev pub ◌>>◌ : {B : Type 0} → Tx (Unit {0}) → Tx B → Tx B
m >> k = m >>= λ _. k

module _ {A : Type 0} where
  abbrev pub pure : A → Tx A
  pure a db = ok (a, db)

  abbrev pub throw : Error → Tx A
  throw e db = err e

  abbrev pub gets : (Db → A) → Tx A
  gets f db = ok (f db, db)

  -- `rows[0]`, or the error of the branch for none.
  abbrev pub require : Option A → Error → Tx A
  require none e db = err e
  require (some a) e db = ok (a, db)

abbrev pub modify : (Db → Db) → Tx (Unit {0})
modify f db = ok (tt, f db)

-- `if (!test) throw e`.
abbrev pub guard : Bool → Error → Tx (Unit {0})
guard true e db = ok (tt, db)
guard false e db = err e

abbrev pub Exec : Type 0 → Type 0
Exec A = Db → Result A × Db

module _ {A : Type 0} where
  -- COMMIT of what ended, ROLLBACK of what threw.
  abbrev pub settle : Db → Result (A × Db) → Result A × Db
  settle db (ok (a, db')) = (ok a, db')
  settle db (err e) = (err e, db)

  abbrev pub run : Tx A → Exec A
  run m db = settle db (m db)

module _ {A B : Type 0} where
  -- What a program of several transactions does after one that ended.
  abbrev pub and_then : Result A × Db → (A → Exec B) → Result B × Db
  and_then (ok a, db) k = k a db
  and_then (err e, db) k = (err e, db)
