-- ===== src/Repository/Tasks.antt =====
-- internal/repository/task_repo.go.
pub mod Writes
use secunda_test.Base.{
  ℕ, suc, Bool, true, false, ◌||◌, ◌&&◌, not, List, [], ◌∷◌, map, Option, none, some, ℤ, pos,
  negsuc, ltb, ltb_ℤ, if◌then◌else◌, length, any, keep, sort_by, take, drop, ◌==ℤ◌,
}
use secunda_test.Text.{Text, text_eq, byte_length}
use secunda_test.Errors.{GoError, within}
use secunda_test.Errors.Action.{Action, Result, ok, err, pure, on_error, ◌>>=◌, ◌>>◌}
use secunda_test.Domain.{Task, TaskStatus, TaskHistory, TaskFilter, status_valid}
use secunda_test.Database.{
  Rows, Counters, Db, has_user, has_team, has_task, no_reference, too_long, not_in_enum, bad_syntax,
}
use secunda_test.Database.Statement.{Statement, run, query, one_row}
use secunda_test.Repository.Transaction.{with_tx}
use secunda_test.Repository.Users.{found_or}

-- TEXT holds 65535 bytes.
abbrev pub over_text : Text → Bool
over_text s = ltb 65535 (byte_length s)

abbrev pub over_text? : Option Text → Bool
over_text? none = false
over_text? (some s) = over_text s

abbrev pub references : Rows → Option ℤ → Bool
references rows none = true
references rows (some user_id) = has_user rows user_id

-- The columns that INSERT and UPDATE write, against their types.
abbrev pub column_error : Task → Option GoError
column_error t =
    if ltb 500 (length t.title) || over_text t.description
    then some too_long
    else if not (status_valid t.status)
    then some not_in_enum
    else none

-- INSERT INTO tasks (team_id, title, description, status, assignee_id, created_by), with its foreign keys.
unfoldable pub insert_task : Task → Statement ℤ
unfolding status_valid
insert_task t now rows counters =
    let id = suc counters.tasks in
    let counted = record counters { tasks = id } in
    elim (column_error t) [
      | some e ↦ (err e, rows, counted)
      | none ↦
          if not
            (has_team rows t.team_id && references rows t.assignee_id && has_user rows t.created_by)
          then (err no_reference, rows, counted)
          else (
            ok (pos id),
            record rows {
              tasks = record t { id = pos id; created_at = now; updated_at = now } ∷ rows.tasks;
            },
            counted,
          )
    ]

unfoldable pub create : Task → Action Db ℤ
unfolding run insert_task
create t = on_error (within "insert task") (run (insert_task t))

unfoldable pub get_by_id : ℤ → Action Db Task
unfolding run found_or
get_by_id id =
    on_error (λ e. found_or (within "get task" e) e)
      (run (query (λ rows. one_row (keep (λ (t : Task). t.id ==ℤ id) rows.tasks))))

abbrev pub matches_status : Option TaskStatus → Task → Bool
matches_status none t = true
matches_status (some status) t = text_eq t.status status

-- `assignee_id = ?` is not true of a NULL.
abbrev pub assigned_to : ℤ → Option ℤ → Bool
assigned_to user_id none = false
assigned_to user_id (some a) = a ==ℤ user_id

abbrev pub matches_assignee : Option ℤ → Task → Bool
matches_assignee none t = true
matches_assignee (some user_id) t = assigned_to user_id t.assignee_id

-- The WHERE clause that `List` puts together.
unfoldable pub matches : TaskFilter → Task → Bool
unfolding text_eq
matches f t =
    t.team_id ==ℤ f.team_id && matches_status f.status t && matches_assignee f.assignee_id t

abbrev pub newer_task : Task → Task → Bool
newer_task a b = not (ltb_ℤ a.id b.id)

-- LIMIT ? OFFSET ?, which MySQL refuses for negative numbers.
abbrev pub page : ℤ → ℤ → List Task → Result (List Task)
page (pos limit) (pos offset) ts = ok (take limit (drop offset ts))
page (pos limit) (negsuc _) ts = err bad_syntax
page (negsuc _) offset ts = err bad_syntax

unfoldable pub select_tasks : TaskFilter → List Task → Result (List Task)
unfolding sort_by matches
select_tasks f tasks = page f.limit f.offset (sort_by newer_task (keep (matches f) tasks))

unfoldable pub list : TaskFilter → Action Db (List Task)
unfolding run select_tasks
list f = on_error (within "list tasks") (run (query (λ rows. select_tasks f rows.tasks)))

abbrev same_assignee : Option ℤ → Option ℤ → Bool
same_assignee none none = true
same_assignee (some a) (some b) = a ==ℤ b
same_assignee none (some _) = false
same_assignee (some _) none = false

-- The row with the four columns of the UPDATE set. `updated_at` moves with the first change of a column.
unfoldable pub set_columns : Task → ℤ → Task → Task
unfolding text_eq
set_columns t now row =
    let same =
      text_eq row.title t.title
      && text_eq row.description t.description
      && text_eq row.status t.status
      && same_assignee row.assignee_id t.assignee_id in
    record row {
      title = t.title;
      description = t.description;
      status = t.status;
      assignee_id = t.assignee_id;
      updated_at = if same then row.updated_at else now;
    }

abbrev pub set_row : Task → ℤ → Task → Task
set_row t now row = if row.id ==ℤ t.id then set_columns t now row else row

-- UPDATE tasks SET title, description, status, assignee_id WHERE id = ?: no row, no checks.
unfoldable pub update_task : Task → Statement (Unit {0})
unfolding status_valid set_columns
update_task t now rows counters =
    if not (has_task rows t.id) then (ok tt, rows, counters) else elim (column_error t) [
      | some e ↦ (err e, rows, counters)
      | none ↦
          if not (references rows t.assignee_id)
          then (err no_reference, rows, counters)
          else (ok tt, record rows { tasks = map (set_row t now) rows.tasks }, counters)
    ]

abbrev pub history_row : TaskHistory → ℤ → ℕ → TaskHistory
history_row h now id = record h { id = pos id; changed_at = now }

-- INSERT INTO task_history (task_id, changed_by, field, old_value, new_value).
unfoldable pub insert_history : TaskHistory → Statement (Unit {0})
insert_history h now rows counters =
    let id = suc counters.history in
    let counted = record counters { history = id } in
    if ltb 64 (length h.field) || over_text? h.old_value || over_text? h.new_value
    then (err too_long, rows, counted)
    else if not (has_task rows h.task_id && has_user rows h.changed_by)
    then (err no_reference, rows, counted)
    else (ok tt, record rows { history = history_row h now id ∷ rows.history }, counted)

-- The loop over the entries, which ends at the first error.
unfoldable pub insert_all : List TaskHistory → Action Db (Unit {0})
unfolding run insert_history
insert_all [] = pure tt
insert_all (h ∷ hs) =
    on_error (within "insert history") (run (insert_history h)) >>= λ _. insert_all hs

unfoldable pub update_and_insert : Task → List TaskHistory → Action Db (Unit {0})
unfolding run update_task insert_all
update_and_insert t history =
    on_error (within "update task") (run (update_task t)) >>= λ _. insert_all history

unfoldable pub update_with_history : Task → List TaskHistory → Action Db (Unit {0})
unfolding with_tx update_and_insert
update_with_history t history = with_tx (update_and_insert t history)

-- ORDER BY changed_at DESC, id DESC
abbrev pub newer_entry : TaskHistory → TaskHistory → Bool
newer_entry a b =
    ltb_ℤ b.changed_at a.changed_at || (a.changed_at ==ℤ b.changed_at && not (ltb_ℤ a.id b.id))

unfoldable pub history : ℤ → Action Db (List TaskHistory)
unfolding run sort_by
history task_id = on_error (within "task history") (
    run (
      query (λ rows.
        ok (sort_by newer_entry (keep (λ (h : TaskHistory). h.task_id ==ℤ task_id) rows.history)))))
