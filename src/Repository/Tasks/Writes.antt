-- ===== src/Repository/Tasks/Writes.antt =====
-- What `UpdateWithHistory` leaves in the tables.
use secunda_test.Base.{
  ℕ, suc, false, List, [], ◌∷◌, map, any, ◌≡◌, ◌⊎◌, refl, ◌∙◌, ℤ, ◌==ℤ◌, inl, inr, arith,
}
use secunda_test.Errors.{within}
use secunda_test.Errors.Action.{Result, ok, err, map_error, map_error-eq-ok, after-eq-ok}
use secunda_test.Domain.{Task, TaskHistory}
use secunda_test.Database.{Rows, Counters, Db}
use secunda_test.Database.Statement.{run}
use secunda_test.Database.Laws.{run-ok}
use secunda_test.Repository.Transaction.{with_tx}
use secunda_test.Repository.Transaction.Laws.{IsCommitted, IsAtomic, with_tx-IsAtomic}
use secunda_test.Repository.Tasks.{
  set_row, history_row, update_task, insert_history, insert_all, update_and_insert,
  update_with_history,
}

-- The history table behind the given entries, stamped and numbered from a counter on, newest first.
abbrev pub entries_from : ℤ → ℕ → List TaskHistory → List TaskHistory → List TaskHistory
entries_from now n [] old = old
entries_from now n (h ∷ hs) old = entries_from now (suc n) hs (history_row h now (suc n) ∷ old)

-- The rows with the task's columns set and the entries recorded.
abbrev pub applied : Task → List TaskHistory → ℤ → ℕ → Rows → Rows
applied t hs now n rows = record rows {
  tasks = map (set_row t now) rows.tasks;
  history = entries_from now n hs rows.history;
}

insert_history-ok :
    (h : TaskHistory) (now : ℤ) (rows rows' : Rows) (counters counters' : Counters)
    → insert_history h now rows counters ≡ (ok tt, rows', counters')
    → (rows' ≡ record rows { history = history_row h now (suc counters.history) ∷ rows.history })
      × (counters'.history ≡ suc counters.history)
unfolding insert_history
insert_history-ok h now rows rows' counters counters' e = ground arith

map-set_row_of_absent :
    (t : Task) (now : ℤ) (ts : List Task)
    → any (λ (x : Task). x.id ==ℤ t.id) ts ≡ false
    → map (set_row t now) ts ≡ ts
map-set_row_of_absent t now [] h = refl
map-set_row_of_absent t now (x ∷ ts) h = ground (arith, map-set_row_of_absent t now ts)

update_task-ok :
    (t : Task) (now : ℤ) (rows rows' : Rows) (counters counters' : Counters)
    → update_task t now rows counters ≡ (ok tt, rows', counters')
    → (rows' ≡ record rows { tasks = map (set_row t now) rows.tasks }) × (counters' ≡ counters)
unfolding update_task
update_task-ok t now rows rows' counters counters' e =
    ground (arith, map-set_row_of_absent t now rows.tasks)

abbrev recorded : List TaskHistory → ℤ → ℕ → Rows → Rows
recorded hs now n rows = record rows { history = entries_from now n hs rows.history }

insert_all-ok :
    (hs : List TaskHistory) (db db' : Db)
    → insert_all hs db ≡ (ok tt, db')
    → (db'.rows ≡ recorded hs db.now db.counters.history db.rows) × (db'.now ≡ db.now)
unfolding insert_all
insert_all-ok [] db db' e = ground arith
insert_all-ok (h ∷ hs) db db' e =
    let (_, db1, ran, rest) =
      after-eq-ok _ (map_error (within "insert history") (run (insert_history h) db)) e in
    let p = run-ok (insert_history h) db tt db1 (map_error-eq-ok (within "insert history") _ ran) in
    let (rows1, counted) =
      insert_history-ok h db.now db.rows db1.rows db.counters db1.counters p.effect in
    let (rows2, time) = insert_all-ok hs db1 db' rest in
    (rows2 ∙ (λ i. recorded hs (p.same_time i) (counted i) (rows1 i)), time ∙ p.same_time)

update_and_insert-ok :
    (t : Task) (hs : List TaskHistory) (db db' : Db)
    → update_and_insert t hs db ≡ (ok tt, db')
    → db'.rows ≡ applied t hs db.now db.counters.history db.rows
unfolding update_and_insert
update_and_insert-ok t hs db db' e =
    let (_, db1, ran, rest) =
      after-eq-ok _ (map_error (within "update task") (run (update_task t) db)) e in
    let p = run-ok (update_task t) db tt db1 (map_error-eq-ok (within "update task") _ ran) in
    let (rows1, counted) =
      update_task-ok t db.now db.rows db1.rows db.counters db1.counters p.effect in
    let (rows2, _) = insert_all-ok hs db1 db' rest in
    rows2 ∙ (λ i. recorded hs (p.same_time i) ((counted i).history) (rows1 i))

-- The rows behind the call, by its outcome, for some value of the history counter.
abbrev pub IsWritten : Task → List TaskHistory → Db → Result (Unit {0}) × Db → Type 0
IsWritten t hs db (ok _, db') = (n : ℕ) × (db'.rows ≡ applied t hs db.now n db.rows)
IsWritten t hs db (err e, db') =
    (db'.rows ≡ db.rows) ⊎ ((n : ℕ) × (db'.rows ≡ applied t hs db.now n db.rows))

committed-applied :
    (t : Task) (hs : List TaskHistory) (db : Db) (rows : Rows) (u : Unit {0})
    → IsCommitted (update_and_insert t hs) db rows u
    → (n : ℕ) × (rows ≡ applied t hs db.now n db.rows)
committed-applied t hs db rows u c = (
  c.begun.counters.history,
  c.kept
      ∙ (update_and_insert-ok t hs c.begun c.ended c.ran
          ∙ (λ i. applied t hs (c.same_time i) c.begun.counters.history (c.same_rows i))),
)

-- `UpdateWithHistory` is all or nothing: without an error the task has its new columns and the history has
-- every entry; with an error the tables are as they were, or, where only the commit's answer was lost, as
-- they are without an error. No task is ever changed without its audit entries.
pub update_with_history-IsWritten :
    (t : Task) (hs : List TaskHistory) (db : Db) → IsWritten t hs db (update_with_history t hs db)
unfolding update_with_history
update_with_history-IsWritten t hs db =
    written (with_tx (update_and_insert t hs) db) (with_tx-IsAtomic (update_and_insert t hs) db)
  where
    written :
        (o : Result (Unit {0}) × Db) → IsAtomic (update_and_insert t hs) db o → IsWritten t hs db o
    written (ok u, db') c = committed-applied t hs db db'.rows u c
    written (err e, db') (inl same) = inl same
    written (err e, db') (inr (u, c)) = inr (committed-applied t hs db db'.rows u c)
