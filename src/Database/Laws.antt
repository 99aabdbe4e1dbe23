-- ===== src/Database/Laws.antt =====
-- What is known of a statement by its answer.
use secunda_test.Base.{Option, none, some, List, [], ◌∷◌, ◌≡◌, ◌⊎◌, refl, inl, inr, arith}
use secunda_test.Errors.{GoError, other}
use secunda_test.Errors.Action.{Result, ok, err}
use secunda_test.Database.{Rows, Fault, refused, unacknowledged, Db}
use secunda_test.Database.Statement.{Statement, perform, meet, run, query, commit_with, commit}

module _ {A : Type 0} where
  -- A statement that answers has been performed on the rows that were there.
  pub record IsPerformed (st : Statement A) (db : Db) (a : A) (db' : Db) : Type 0 where
    pub effect : st db.now db.rows db.counters ≡ (ok a, db'.rows, db'.counters)
    pub same_time : db'.now ≡ db.now

  perform-ok :
      (st : Statement A) (db : Db) (a : A) (db' : Db)
      → perform st db ≡ (ok a, db')
      → IsPerformed st db a db'
  perform-ok st db a db' h = record { effect = ground arith; same_time = ground arith }

  meet-ok :
      (faults : List (Option Fault)) (st : Statement A) (db : Db) (a : A) (db' : Db)
      → meet faults st db ≡ (ok a, db')
      → IsPerformed st db a db'
  meet-ok [] st db a db' h = perform-ok st db a db' h
  meet-ok (none ∷ faults) st db a db' h =
      let p = perform-ok st (record db { faults = faults }) a db' h in
      record { effect = p.effect; same_time = p.same_time }
  meet-ok (some (refused m) ∷ faults) st db a db' h = absurd (ground arith)
  meet-ok (some (unacknowledged m) ∷ faults) st db a db' h = absurd (ground arith)

  pub run-ok :
      (st : Statement A) (db : Db) (a : A) (db' : Db)
      → run st db ≡ (ok a, db')
      → IsPerformed st db a db'
  unfolding run
  run-ok st db a db' h = meet-ok db.faults st db a db' h

  -- A query leaves the rows alone, whatever it answers.
  meet-query :
      (faults : List (Option Fault)) (q : Rows → Result A) (db : Db)
      → ((meet faults (query q) db).1.rows ≡ db.rows) × ((meet faults (query q) db).1.now ≡ db.now)
  meet-query [] q db = (refl, refl)
  meet-query (none ∷ faults) q db = (refl, refl)
  meet-query (some (refused m) ∷ faults) q db = (refl, refl)
  meet-query (some (unacknowledged m) ∷ faults) q db = (refl, refl)

  pub run-query :
      (q : Rows → Result A) (db : Db)
      → ((run (query q) db).1.rows ≡ db.rows) × ((run (query q) db).1.now ≡ db.now)
  unfolding run
  run-query q db = meet-query db.faults q db

-- A commit keeps the rows of the transaction, or fails and brings back those before it or keeps these.
commit_with-cases :
    (faults : List (Option Fault)) (before : Rows) (db db' : Db) (r : Result (Unit {0}))
    → commit_with faults before db ≡ (r, db')
    → (db'.rows ≡ db.rows) ⊎ ((db'.rows ≡ before) × ((e : GoError) × (r ≡ err e)))
commit_with-cases [] before db db' r h = inl (ground arith)
commit_with-cases (none ∷ faults) before db db' r h = inl (ground arith)
commit_with-cases (some (refused m) ∷ faults) before db db' r h =
    inr (ground arith, (other m, ground arith))
commit_with-cases (some (unacknowledged m) ∷ faults) before db db' r h = inl (ground arith)

pub commit-cases :
    (before : Rows) (db db' : Db) (r : Result (Unit {0}))
    → commit before db ≡ (r, db')
    → (db'.rows ≡ db.rows) ⊎ ((db'.rows ≡ before) × ((e : GoError) × (r ≡ err e)))
unfolding commit
commit-cases before db db' r h = commit_with-cases db.faults before db db' r h
