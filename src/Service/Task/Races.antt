-- ===== src/Service/Task/Races.antt =====
-- Two updates of one task that both read it before either is stored: `Update` reads and writes in separate
-- statements, and writes all four columns.
use secunda_test.Base.{
  ℕ, suc, ◌≡◌, ◌≢◌, ◌⊎◌, refl, sym, subst, ap, All-impl, ◌∙◌, Bool, true, false, ◌&&◌, ◌||◌, Option,
  none, some, List, [], ◌∷◌, ◌++◌, map, ℤ, ◌==ℤ◌, ==ℤ_iff, All, any, any-append, arith, Bool-cases,
  inl, inr,
}
use secunda_test.Text.{Text, text_eq, text_eq_iff, is_empty, trim_space}
use secunda_test.Errors.Action.{Result, ok, err}
use secunda_test.Errors.Outcome.{OnOk, OnOk-ok, OnOk-bind, ◌>>=◌}
use secunda_test.Domain.{Task, TaskStatus, TaskHistory, status_valid}
use secunda_test.Database.{Rows, Db}
use secunda_test.Repository.Tasks.{set_row, set_columns, history_row, update_with_history}
use secunda_test.Repository.Tasks.Writes.{
  entries_from, applied, IsWritten, update_with_history-IsWritten,
}
use secunda_test.Service.Task.Amend.{
  UpdateTaskInput, Draft, field_title, entry, amend_title, amend_description, amend_status,
  unassign, assign, amend_assignee, differs, amend,
}

abbrev pub is_value : Text → Option Text → Bool
is_value s none = false
is_value s (some v) = text_eq v s

-- An entry that says that a task got a title.
abbrev pub is_retitled : ℤ → Text → TaskHistory → Bool
is_retitled id title h =
    h.task_id ==ℤ id && text_eq h.field field_title && is_value title h.new_value

module _ (input : UpdateTaskInput) (current : Task) where
  -- What a step that is not about the title does: it may append entries.
  abbrev KeepsTitle : Draft → Draft → Type 0
  KeepsTitle d e =
      (e.updated.title ≡ d.updated.title)
      × (e.updated.id ≡ d.updated.id)
      × ((p : TaskHistory → Bool) → any p d.history ≡ true → any p e.history ≡ true)

  KeepsTitle-refl : (d : Draft) → KeepsTitle d d
  KeepsTitle-refl d = (refl, refl, λ p h. h)

  appended :
      (h : TaskHistory) (hs : List TaskHistory) (p : TaskHistory → Bool)
      → any p hs ≡ true
      → any p (hs ++ h ∷ []) ≡ true
  appended h hs p k = any-append p hs (h ∷ []) ∙ ground (arith, k)

  amend_description-KeepsTitle :
      (o : Option Text) (d : Draft) → KeepsTitle d (amend_description input current o d)
  unfolding amend_description
  amend_description-KeepsTitle none d = KeepsTitle-refl d
  amend_description-KeepsTitle (some s) d = elim (Bool-cases (text_eq s current.description)) [
    | inl same ↦ rw same (KeepsTitle-refl d)
    | inr new ↦ rw new (refl, refl, appended _ d.history)
  ]

  unassign-KeepsTitle : (o : Option ℤ) (d : Draft) → KeepsTitle d (unassign input current o d)
  unassign-KeepsTitle none d = KeepsTitle-refl d
  unassign-KeepsTitle (some a) d = (refl, refl, appended _ d.history)

  assign-KeepsTitle : (o : Option ℤ) (d : Draft) → KeepsTitle d (assign input current o d)
  assign-KeepsTitle none d = KeepsTitle-refl d
  assign-KeepsTitle (some a) d = elim (Bool-cases (differs current.assignee_id a)) [
    | inl new ↦ rw new (refl, refl, appended _ d.history)
    | inr same ↦ rw same (KeepsTitle-refl d)
  ]

  amend_assignee-KeepsTitle :
      (unset : Bool) (o : Option ℤ) (d : Draft)
      → KeepsTitle d (amend_assignee input current unset o d)
  unfolding amend_assignee
  amend_assignee-KeepsTitle true o d = unassign-KeepsTitle current.assignee_id d
  amend_assignee-KeepsTitle false o d = assign-KeepsTitle o d

  amend_status-KeepsTitle :
      (o : Option TaskStatus) (d : Draft) → OnOk (KeepsTitle d) (amend_status input current o d)
  unfolding amend_status
  amend_status-KeepsTitle none d = KeepsTitle-refl d
  amend_status-KeepsTitle (some s) d = elim (Bool-cases (status_valid s)) [
    | inr unknown ↦ rw unknown tt
    | inl known ↦ elim (Bool-cases (text_eq s current.status)) [
      | inl same ↦ rw (known, same) (KeepsTitle-refl d)
      | inr new ↦ rw (known, new) (refl, refl, appended _ d.history)
    ]
  ]

  -- The title is the stored one, or an entry says that it is new.
  pub record IsNoted (d : Draft) : Type 0 where
    pub same_id : d.updated.id ≡ current.id
    pub noted :
        (d.updated.title ≡ current.title)
        ⊎ (any (is_retitled current.id d.updated.title) d.history ≡ true)

  kept-IsNoted : (d e : Draft) → KeepsTitle d e → IsNoted d → IsNoted e
  kept-IsNoted d e (title, id, entries) n = record {
    same_id = id ∙ n.same_id;
    noted = elim (n.noted) [
      | inl same ↦ inl (title ∙ same)
      | inr found ↦ inr (rw title (entries (is_retitled current.id d.updated.title) found))
    ];
  }

  retitled :
      (title : Text)
      → any
          (is_retitled current.id title)
          (entry input current field_title current.title title ∷ [])
        ≡ true
  unfolding entry
  retitled title = ground (
    arith,
    (==ℤ_iff current.id current.id).1 refl,
    (text_eq_iff field_title field_title).1 refl,
    (text_eq_iff title title).1 refl,
  )

  abbrev start : Draft
  start = record { updated = current; history = [] }

  amend_title-IsNoted : (o : Option Text) → OnOk IsNoted (amend_title input current o start)
  unfolding amend_title
  amend_title-IsNoted none = record { same_id = refl; noted = inl refl }
  amend_title-IsNoted (some t) = elim (Bool-cases (is_empty (trim_space t))) [
    | inl blank ↦ rw blank tt
    | inr full ↦ elim (Bool-cases (text_eq (trim_space t) current.title)) [
      | inl same ↦ rw (full, same) (record { same_id = refl; noted = inl refl })
      | inr new ↦ rw (full, new) (record { same_id = refl; noted = inr (retitled (trim_space t)) })
    ]
  ]

  -- The steps behind the title.
  abbrev rest : Draft → Result Draft
  rest d =
      amend_status input current input.status (amend_description input current input.description d)
      >>= λ e. ok (amend_assignee input current input.unset_assign input.assignee_id e)

  KeepsTitle-trans : (a b c : Draft) → KeepsTitle a b → KeepsTitle b c → KeepsTitle a c
  KeepsTitle-trans a b c (title, id, entries) (title2, id2, entries2) =
      (title2 ∙ title, id2 ∙ id, λ p h. entries2 p (entries p h))

  rest-KeepsTitle : (d : Draft) → OnOk (KeepsTitle d) (rest d)
  rest-KeepsTitle d =
      let described = amend_description input current input.description d in
      OnOk-bind (KeepsTitle described) (KeepsTitle d)
        (amend_status input current input.status described)
        (λ e. ok (amend_assignee input current input.unset_assign input.assignee_id e))
        (amend_status-KeepsTitle input.status described)
        (λ e k.
          let last = amend_assignee input current input.unset_assign input.assignee_id e in
          KeepsTitle-trans d described last (amend_description-KeepsTitle input.description d) (
            KeepsTitle-trans described e last k
              (amend_assignee-KeepsTitle input.unset_assign input.assignee_id e)))

  rest-IsNoted : (d : Draft) (r : Result Draft) → IsNoted d → OnOk (KeepsTitle d) r → OnOk IsNoted r
  rest-IsNoted d (ok e) n k = kept-IsNoted d e k n
  rest-IsNoted d (err e) n k = tt

  amend-IsNoted : OnOk IsNoted (amend input current)
  unfolding amend
  amend-IsNoted =
      OnOk-bind IsNoted IsNoted (amend_title input current input.title start) rest
        (amend_title-IsNoted input.title) (λ d n. rest-IsNoted d (rest d) n (rest-KeepsTitle d))

  -- A request without a title.
  none-KeepsTitle :
      (o : Option Text)
      → o ≡ none
      → OnOk (KeepsTitle start) (amend_title input current o start >>= rest)
  unfolding amend_title
  none-KeepsTitle none e = rest-KeepsTitle start
  none-KeepsTitle (some t) e = absurd (ground (arith, e))

  amend-untitled : input.title ≡ none → OnOk (KeepsTitle start) (amend input current)
  unfolding amend
  amend-untitled untitled = none-KeepsTitle input.title untitled

-- The history behind a transaction has the entries that it was given.
any-entries_from :
    (id now : ℤ) (title : Text) (n : ℕ) (hs old : List TaskHistory)
    → any (is_retitled id title) (entries_from now n hs old)
      ≡ (any (is_retitled id title) hs || any (is_retitled id title) old)
any-entries_from id now title n [] old = refl
any-entries_from id now title n (h ∷ hs) old =
    any-entries_from id now title (suc n) hs (history_row h now (suc n) ∷ old) ∙ ground arith

set_row-title :
    (t : Task) (now : ℤ) (x : Task)
    → ((set_row t now x).id ≡ x.id) × (x.id ≡ t.id → (set_row t now x).title ≡ t.title)
unfolding set_columns
set_row-title t now x = ground arith

titles_set :
    (t : Task) (now : ℤ) (ts : List Task)
    → All (λ x. x.id ≡ t.id → x.title ≡ t.title) (map (set_row t now) ts)
titles_set t now [] = tt
titles_set t now (x ∷ ts) =
    let (same, set) = set_row-title t now x in ((λ e. set (sym same ∙ e)), titles_set t now ts)

stored-rows :
    (t : Task) (hs : List TaskHistory) (db db' : Db)
    → update_with_history t hs db ≡ (ok tt, db')
    → (n : ℕ) × (db'.rows ≡ applied t hs db.now n db.rows)
stored-rows t hs db db' stored =
    subst (IsWritten t hs db) stored (update_with_history-IsWritten t hs db)

noted-history :
    (id : ℤ) (title : Text) (t : Task) (hs : List TaskHistory) (db db' : Db)
    → update_with_history t hs db ≡ (ok tt, db')
    → any (is_retitled id title) db'.rows.history
      ≡ (any (is_retitled id title) hs || any (is_retitled id title) db.rows.history)
noted-history id title t hs db db' stored =
    let (n, rows) = stored-rows t hs db db' stored in
    ap (λ (r : Rows). any (is_retitled id title) r.history) rows
    ∙ any-entries_from id db.now title n hs db.rows.history

set-titles :
    (t : Task) (hs : List TaskHistory) (db db' : Db)
    → update_with_history t hs db ≡ (ok tt, db')
    → All (λ (x : Task). x.id ≡ t.id → x.title ≡ t.title) db'.rows.tasks
set-titles t hs db db' stored =
    let (n, rows) = stored-rows t hs db db' stored in
    subst (λ (r : Rows). All (λ (x : Task). x.id ≡ t.id → x.title ≡ t.title) r.tasks) (sym rows)
      (titles_set t db.now db.rows.tasks)

-- Two requests of members are accepted, each against the same stored task: the first gives it another title, the
-- second gives none. Both transactions succeed, one after the other. Then the task has its old title, and the
-- history says that it got the new one: the first request's change is lost, and the history no longer
-- leads to the stored task.
pub update_with_history-amend_lost :
    (current : Task) (first second : UpdateTaskInput) (d e : Draft) (db db1 db2 db3 : Db)
    → amend first current ≡ ok d
    → d.updated.title ≢ current.title
    → amend second current ≡ ok e
    → second.title ≡ none
    → update_with_history d.updated d.history db ≡ (ok tt, db1)
    → db2.rows ≡ db1.rows
    → update_with_history e.updated e.history db2 ≡ (ok tt, db3)
    → All (λ (x : Task). x.id ≡ current.id → x.title ≡ current.title) db3.rows.tasks
      × (any (is_retitled current.id d.updated.title) db3.rows.history ≡ true)
update_with_history-amend_lost current first second d e db db1 db2 db3 accepted new accepted2
      untitled stored same stored2 =
    let kept =
      OnOk-ok (KeepsTitle second current (start second current)) (amend second current)
        (amend-untitled second current untitled) accepted2 in
    let noted =
      OnOk-ok (IsNoted first current) (amend first current) (amend-IsNoted first current)
        accepted in
    let entry_there =
      elim (noted.noted) as (λ _. any (is_retitled current.id d.updated.title) d.history ≡ true) [
        | inl same_title ↦ absurd (new same_title)
        | inr found ↦ found
      ] in
    (
      All-impl (λ x set id. set (id ∙ sym kept.1) ∙ kept.0) db3.rows.tasks
          (set-titles e.updated e.history db2 db3 stored2),
      ground (
        arith,
        entry_there,
        noted-history current.id d.updated.title d.updated d.history db db1 stored,
        ap (λ (r : Rows). any (is_retitled current.id d.updated.title) r.history) same,
        noted-history current.id d.updated.title e.updated e.history db2 db3 stored2,
      ),
    )
