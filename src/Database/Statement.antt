-- ===== src/Database/Statement.antt =====
-- One statement, alone or in a transaction.
use secunda_test.Base.{Option, none, some, List, [], ◌∷◌, ℤ}
use secunda_test.Errors.{GoError, sentinel, no_rows, other}
use secunda_test.Errors.Action.{Action, Result, ok, err}
use secunda_test.Database.{Rows, Counters, Fault, refused, unacknowledged, Db}

-- What a statement does to the rows and counters when the server runs it.
abbrev pub Statement : Type 0 → Type 0
Statement A = ℤ → Rows → Counters → Result A × Rows × Counters

module _ {A : Type 0} where
  abbrev pub perform : Statement A → Db → Result A × Db
  perform st db =
      let (r, rows, counters) = st db.now db.rows db.counters in
      (r, record db { rows = rows; counters = counters })

  abbrev pub lose : GoError → Result A × Db → Result A × Db
  lose e (r, db) = (err e, db)

  abbrev pub meet : List (Option Fault) → Statement A → Db → Result A × Db
  meet [] st db = perform st db
  meet (none ∷ faults) st db = perform st (record db { faults = faults })
  meet (some (refused m) ∷ faults) st db = (err (other m), record db { faults = faults })
  meet (some (unacknowledged m) ∷ faults) st db =
      lose (other m) (perform st (record db { faults = faults }))

  -- `ExecContext`, `GetContext` and `SelectContext`.
  unfoldable pub run : Statement A → Action Db A
  run st db = meet db.faults st db

  -- A query changes nothing.
  abbrev pub query : (Rows → Result A) → Statement A
  query q now rows counters = (q rows, rows, counters)

  -- The first row, or `sql.ErrNoRows`.
  abbrev pub one_row : List A → Result A
  one_row [] = err (sentinel no_rows)
  one_row (x ∷ xs) = ok x

-- `tx.Rollback()`: the rows as they were when the transaction began.
abbrev pub rolled_back : Rows → Db → Db
rolled_back rows db = record db { rows = rows }

-- `tx.Commit()`. A refused commit leaves nothing of the transaction, an unacknowledged one all.
abbrev pub commit_with : List (Option Fault) → Rows → Db → Result (Unit {0}) × Db
commit_with [] before db = (ok tt, db)
commit_with (none ∷ faults) before db = (ok tt, record db { faults = faults })
commit_with (some (refused m) ∷ faults) before db =
    (err (other m), record db { rows = before; faults = faults })
commit_with (some (unacknowledged m) ∷ faults) before db =
    (err (other m), record db { faults = faults })

unfoldable pub commit : Rows → Action Db (Unit {0})
commit before db = commit_with db.faults before db

-- `BeginTxx`, which may fail like a statement, and hands out the rows to roll back to.
unfoldable pub begin_tx : Action Db Rows
unfolding run
begin_tx = run (query (λ rows. ok rows))
