-- ===== src/Repository/Transaction/Laws.antt =====
-- All or nothing.
use secunda_test.Base.{◌≡◌, ◌⊎◌, sym, ap, ◌∙◌, inl, inr, arith}
use secunda_test.Errors.Action.{Action, Result, ok, err, Outcome-cases}
use secunda_test.Database.{Rows, Db}
use secunda_test.Database.Statement.{begin_tx, commit, query}
use secunda_test.Database.Laws.{commit-cases, run-ok, run-query}
use secunda_test.Repository.Transaction.{finish, with_tx}

module _ {A : Type 0} (body : Action Db A) where
  -- The body ran from the rows that were there to its end without an error, and its rows are kept.
  pub record IsCommitted (db : Db) (rows : Rows) (a : A) : Type 0 where
    pub begun : Db
    pub ended : Db
    pub same_rows : begun.rows ≡ db.rows
    pub same_time : begun.now ≡ db.now
    pub ran : body begun ≡ (ok a, ended)
    pub kept : rows ≡ ended.rows

  -- Rows before and behind a transaction, by its outcome.
  abbrev pub IsAtomic : Db → Result A × Db → Type 0
  IsAtomic db (ok a, db') = IsCommitted db db'.rows a
  IsAtomic db (err e, db') = (db'.rows ≡ db.rows) ⊎ ((a : A) × IsCommitted db db'.rows a)

  begin_tx-query : (db : Db) → ((begin_tx db).1.rows ≡ db.rows) × ((begin_tx db).1.now ≡ db.now)
  unfolding begin_tx
  begin_tx-query db = run-query (λ rows. ok rows) db

  module _ (db begun : Db) (rows : begun.rows ≡ db.rows) (time : begun.now ≡ db.now) where
    committed :
        (a : A) (ended : Db) (kept_rows : Rows)
        → body begun ≡ (ok a, ended)
        → kept_rows ≡ ended.rows
        → IsCommitted db kept_rows a
    committed a ended kept_rows ran kept = record {
      begun = begun;
      ended = ended;
      same_rows = rows;
      same_time = time;
      ran = ran;
      kept = kept;
    }

    commit-IsAtomic :
        (before : Rows) (a : A) (ended : Db)
        → before ≡ db.rows
        → body begun ≡ (ok a, ended)
        → IsAtomic db (finish before (ok a, ended))
    commit-IsAtomic before a ended same ran = elim (Outcome-cases (commit before ended)) [
      | inl (_, final, e) ↦ rw e (
          committed a ended final.rows ran
            (ground (arith, commit-cases before ended final (ok tt) e)))
      | inr (x, final, e) ↦ elim (commit-cases before ended final (err x) e) [
        | inl kept ↦ rw e (inr (a, committed a ended final.rows ran kept))
        | inr (back, _) ↦ rw e (inl (back ∙ same))
      ]
    ]

    finish-IsAtomic : (before : Rows) → before ≡ db.rows → IsAtomic db (finish before (body begun))
    finish-IsAtomic before same = elim (Outcome-cases (body begun)) [
      | inl (a, ended, e) ↦ rw e (commit-IsAtomic before a ended same e)
      | inr (x, ended, e) ↦ rw e (inl same)
    ]

  -- A transaction leaves the rows that its body made of the stored ones, run to the end without an error,
  -- or leaves the stored rows; and it answers without an error only in the first case.
  pub with_tx-IsAtomic : (db : Db) → IsAtomic db (with_tx body db)
  unfolding with_tx begin_tx
  with_tx-IsAtomic db = elim (Outcome-cases (begin_tx db)) [
    | inr (x, begun, e) ↦
        rw e (inl (ap (λ (o : Result Rows × Db). o.1.rows) (sym e) ∙ (begin_tx-query db).0))
    | inl (before, begun, e) ↦
        let started = run-ok (query (λ rows. ok rows)) db before begun e in
        rw e (
          finish-IsAtomic db begun (ground (arith, started.effect)) started.same_time before
            (ground (arith, started.effect)))
  ]
