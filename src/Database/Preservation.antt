-- ===== src/Database/Preservation.antt =====
-- What every statement keeps, a call and a transaction keep.
use secunda_test.Base.{ℤ, Option, none, some, List, [], ◌∷◌}
use secunda_test.Errors.{GoError, within}
use secunda_test.Errors.Action.{Action, Result, ok, err, pure, after, map_error, on_error, ◌>>=◌}
use secunda_test.Database.{Rows, Counters, Fault, refused, unacknowledged, Db}
use secunda_test.Database.Statement.{Statement, meet, run, query, commit_with, commit, begin_tx}
use secunda_test.Repository.Transaction.{finish, with_tx}

-- A relation between the tables before and behind a call. A transaction that is undone keeps the counters
-- of its statements.
pub record Promise : Type 1 where
  pub relates : Rows → Counters → Rows → Counters → Type 0
  pub same : (r : Rows) (n : Counters) → relates r n r n
  pub then :
      {r r1 r2 : Rows} {n n1 n2 : Counters}
      → relates r n r1 n1
      → relates r1 n1 r2 n2
      → relates r n r2 n2
  pub undone : {r r1 : Rows} {n n1 : Counters} → relates r n r1 n1 → relates r n r n1

module _ (p : Promise) where
  abbrev pub Kept : Db → Db → Type 0
  Kept db db' = p.relates db.rows db.counters db'.rows db'.counters

  abbrev pub Keeps : {A : Type 0} → Action Db A → Type 0
  Keeps m = (db : Db) → Kept db (m db).1

  -- The promise for a statement, which sees the clock.
  abbrev pub IsKept : {A : Type 0} → Statement A → Type 0
  IsKept st = (now : ℤ) (r : Rows) (n : Counters) → p.relates r n (st now r n).1 (st now r n).2

  -- The rows behind a commit are the transaction's or those before it.
  commit_with-Keeps :
      (faults : List (Option Fault)) (db begun : Db)
      → Kept db begun
      → Kept db (commit_with faults db.rows begun).1
  commit_with-Keeps [] db begun h = h
  commit_with-Keeps (none ∷ faults) db begun h = h
  commit_with-Keeps (some (refused m) ∷ faults) db begun h = p.undone h
  commit_with-Keeps (some (unacknowledged m) ∷ faults) db begun h = h

  commit-Keeps : (db begun : Db) → Kept db begun → Kept db (commit db.rows begun).1
  unfolding commit
  commit-Keeps db begun h = commit_with-Keeps begun.faults db begun h

  module _ {A : Type 0} where
    meet-Keeps :
        (st : Statement A)
        → IsKept st
        → (faults : List (Option Fault)) (db : Db) → Kept db (meet faults st db).1
    meet-Keeps st h [] db = h db.now db.rows db.counters
    meet-Keeps st h (none ∷ faults) db = h db.now db.rows db.counters
    meet-Keeps st h (some (refused m) ∷ faults) db = p.same db.rows db.counters
    meet-Keeps st h (some (unacknowledged m) ∷ faults) db = h db.now db.rows db.counters

    pub run-Keeps : (st : Statement A) → IsKept st → Keeps (run st)
    unfolding run
    run-Keeps st h db = meet-Keeps st h db.faults db

    pub pure-Keeps : (a : A) → Keeps (pure a)
    pure-Keeps a db = p.same db.rows db.counters

    map_error-Keeps :
        (change : GoError → GoError) (db : Db) (o : Result A × Db)
        → Kept db o.1
        → Kept db (map_error change o).1
    map_error-Keeps change db (ok a, db') h = h
    map_error-Keeps change db (err e, db') h = h

    pub on_error-Keeps :
        (change : GoError → GoError) (m : Action Db A) → Keeps m → Keeps (on_error change m)
    on_error-Keeps change m h db = map_error-Keeps change db (m db) (h db)

    module _ {B : Type 0} (f : A → Action Db B) (next : (a : A) → Keeps (f a)) where
      after-Keeps : (db : Db) (o : Result A × Db) → Kept db o.1 → Kept db (after f o).1
      after-Keeps db (ok a, db') h = p.then h (next a db')
      after-Keeps db (err e, db') h = h

      pub bind-Keeps : (m : Action Db A) → Keeps m → Keeps (m >>= f)
      bind-Keeps m h db = after-Keeps db (m db) (h db)

  module _ {A : Type 0} where
    finish-Keeps : (db : Db) (o : Result A × Db) → Kept db o.1 → Kept db (finish db.rows o).1
    finish-Keeps db (ok a, ended) h =
        after-Keeps (λ _. pure a) (λ _. pure-Keeps a) db (commit db.rows ended)
          (commit-Keeps db ended h)
    finish-Keeps db (err e, ended) h = p.undone h

    module _ (body : Action Db A) (h : Keeps body) where
      meet_tx-Keeps :
          (change : GoError → GoError) (faults : List (Option Fault)) (db : Db)
          → Kept db
              (after
                (λ before started. finish before (body started))
                (map_error change (meet faults (query (λ rows. ok rows)) db))).1
      meet_tx-Keeps change [] db = finish-Keeps db (body db) (h db)
      meet_tx-Keeps change (none ∷ faults) db =
          let begun = record db { faults = faults } in finish-Keeps db (body begun) (h begun)
      meet_tx-Keeps change (some (refused m) ∷ faults) db = p.same db.rows db.counters
      meet_tx-Keeps change (some (unacknowledged m) ∷ faults) db = p.same db.rows db.counters

      pub with_tx-Keeps : Keeps (with_tx body)
      unfolding with_tx begin_tx run
      with_tx-Keeps db = meet_tx-Keeps (within "begin tx") db.faults db
