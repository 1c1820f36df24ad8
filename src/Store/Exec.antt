-- ===== src/Store/Exec.antt =====
-- A method of src/services/IndexedDBService.ts is an action on the service: `ensureDb` throws where the
-- database is not open, and a transaction either commits or aborts. Which of the coming
-- transactions commit is chosen by the browser: `outcomes` is its choice, and where that list ends
-- every later transaction commits. An aborted transaction leaves the database as it was.
use nonetchat_web.Prelude.{◌≡◌, refl, Option, none, some, Bool, true, false, List, [], ◌∷◌}
use nonetchat_web.Store.Types.{Db}

pub data DbError : Type 0 where
  not_initialized aborted : DbError

pub data Result {ℓ} (A : Type ℓ) : Type ℓ where
  ok : A → Result A
  err : DbError → Result A

pub record Idb : Type 0 where
  pub db : Option Db
  pub outcomes : List Bool

abbrev pub Exec : Type 0 → Type 0
Exec A = Idb → Result A × Idb

module _ {A : Type 0} where
  abbrev commit : (Db → A × Db) → Db → Idb → Result A × Idb
  commit body db s = let (a, db') = body db in (ok a, record s { db = some db' })

  -- One transaction, with its `oncomplete`, `onsuccess` and `onerror` handlers.
  unfoldable pub transaction : (Db → A × Db) → Exec A
  transaction body s = elim s.db [
    | none ↦ (err not_initialized, s)
    | some db ↦ elim s.outcomes [
      | [] ↦ commit body db s
      | true ∷ rest ↦ commit body db (record s { outcomes = rest })
      | false ∷ rest ↦ (err aborted, record s { outcomes = rest })
    ]
  ]

  unfoldable pub pure : A → Exec A
  pure a s = (ok a, s)

  unfoldable pub read : (Db → A) → Exec A
  unfolding transaction
  read f = transaction (λ db. (f db, db))

unfoldable pub write : (Db → Db) → Exec (Unit {0})
unfolding transaction
write f = transaction (λ db. (tt, f db))

module _ {A B : Type 0} where
  abbrev continue : Result A → (A → Exec B) → Exec B
  continue (ok a) f s = f a s
  continue (err e) f s = (err e, s)

  infixl 10 ◌>>=◌ ◌>>◌
  unfoldable pub ◌>>=◌ : Exec A → (A → Exec B) → Exec B
  ◌>>=◌ m f s = let (r, s') = m s in continue r f s'

  abbrev pub ◌>>◌ : Exec A → Exec B → Exec B
  m >> n = m >>= λ _. n

abbrev pub ready : Db → Idb
ready db = record { db = some db; outcomes = [] }

-- Where the database is open and nothing aborts, a transaction is its body.
pub transaction-ready :
    {A : Type 0} (body : Db → A × Db) (db : Db)
    → transaction body (ready db) ≡ (ok (body db).0, ready (body db).1)
unfolding transaction
transaction-ready body db = refl

pub write-ready : (f : Db → Db) (db : Db) → write f (ready db) ≡ (ok tt, ready (f db))
unfolding write
write-ready f db = refl

pub read-ready : {A : Type 0} (f : Db → A) (db : Db) → read f (ready db) ≡ (ok (f db), ready db)
unfolding read
read-ready f db = refl
