-- ===== src/Tests/TaskCalls.antt =====
-- `TaskService` over the repositories and a small database.
use secunda_test.Base.{none, some, [], ◌∷◌, ◌≡◌, ◌⊎◌, refl, pos}
use secunda_test.Text.{codes}
use secunda_test.Errors.{sentinel, not_found, other}
use secunda_test.Errors.Action.{ok, err}
use secunda_test.Domain.{Task, status_todo, zero_time}
use secunda_test.Database.{Db, unacknowledged}
use secunda_test.Cache.Keys.{tasks_key}
use secunda_test.Service.Task.{CreateTaskInput, create, list, update, history, normalize_filter}
use secunda_test.Service.Task.Amend.{amend, entry}
use secunda_test.Service.Task.Access.{
  IsForbidden, create-list-IsForbidden, update-history-IsForbidden,
}
use secunda_test.Service.Task.Listing.{list-answer, list-cache_failure}
use secunda_test.Repository.Tasks.{update_with_history, update_and_insert}
use secunda_test.Repository.Tasks.Writes.{IsWritten, update_with_history-IsWritten}
use secunda_test.Repository.Transaction.{with_tx}
use secunda_test.Repository.Transaction.Laws.{IsAtomic, with_tx-IsAtomic}
use secunda_test.Repository.Tasks
use secunda_test.Repository.Teams
use secunda_test.Tests.Fixtures.{chore, member_bob, db, no_cache, task_service, rows, running}
use secunda_test.Tests.Amendments.{finish_chore, finished}
use secunda_test.Tests.Keys.{done_page}

abbrev by_eve : CreateTaskInput
by_eve = record {
  team_id = pos 1;
  title = codes "spy";
  description = [];
  status = [];
  assignee_id = none;
  actor_id = pos 3;
}

abbrev by_bob : CreateTaskInput
by_bob = record by_eve { actor_id = pos 2 }

create-list-IsForbidden_example :
    IsForbidden task_service (create task_service by_eve db) db
    × IsForbidden task_service (list task_service done_page (pos 3) db) db
unfolding Teams.get_member running
create-list-IsForbidden_example =
    create-list-IsForbidden task_service by_eve done_page db db (sentinel not_found) refl
      (refl, refl)

update-history-IsForbidden_example :
    IsForbidden task_service (update task_service (record finish_chore { actor_id = pos 3 }) db) db
    × IsForbidden task_service (history task_service (pos 1) (pos 3) db) db
unfolding Teams.get_member Tasks.get_by_id running
update-history-IsForbidden_example =
    update-history-IsForbidden task_service (record finish_chore { actor_id = pos 3 }) chore db db
      db (sentinel not_found) refl (refl, refl)

abbrev bobs_task : Task
bobs_task = record {
  id = pos 2;
  team_id = pos 1;
  title = codes "spy";
  description = [];
  status = status_todo;
  assignee_id = none;
  created_by = pos 2;
  created_at = zero_time;
  updated_at = zero_time;
}

abbrev with_bobs_task : Db
with_bobs_task = record db {
  rows = record rows {
    tasks = record bobs_task { created_at = pos 100; updated_at = pos 100 } ∷ chore ∷ [];
  };
  counters = record { users = 3; teams = 1; tasks = 2; history = 0 };
}

create-by_bob : create task_service by_bob db ≡ (ok bobs_task, with_bobs_task)
unfolding create running Teams.get_member Tasks.create
create-by_bob = refl

list-by_bob : list task_service done_page (pos 2) db ≡ (ok [], db)
unfolding list running Teams.get_member Tasks.list
list-by_bob = refl

list-answer_example :
    ((w1 : Db) × (w2 : Db) × (no_cache.get_tasks (tasks_key (normalize_filter done_page)) w1
        ≡ (ok (some []), w2)))
    ⊎ ((w1 : Db) × (w2 : Db) × (Tasks.list (normalize_filter done_page) w1 ≡ (ok [], w2)))
list-answer_example = list-answer task_service done_page (pos 2) db list-by_bob

list-cache_failure_example :
    (list task_service done_page (pos 2) db).0 ≡ (Tasks.list (normalize_filter done_page) db).0
unfolding running Teams.get_member
list-cache_failure_example =
    list-cache_failure task_service done_page (pos 2) member_bob (other (codes "redis is down")) db
      db db refl refl

-- The database loses the answer to the commit.
abbrev fragile : Db
fragile = record db {
  faults = none ∷ none ∷ none ∷ none ∷ none ∷ some (unacknowledged (codes "reset")) ∷ [];
}

update_with_history-IsWritten_example :
    IsWritten finished.updated finished.history fragile
      (update_with_history finished.updated finished.history fragile)
update_with_history-IsWritten_example =
    update_with_history-IsWritten finished.updated finished.history fragile

with_tx-IsAtomic_example :
    IsAtomic
      (Teams.insert_with_owner (codes "new") (pos 3))
      db
      (with_tx (Teams.insert_with_owner (codes "new") (pos 3)) db)
with_tx-IsAtomic_example = with_tx-IsAtomic (Teams.insert_with_owner (codes "new") (pos 3)) db

-- The whole of an update through the service: three columns, three entries, and the warning about the cache.
update-finish_chore : (update task_service finish_chore db).0 ≡ ok finished.updated
unfolding update running amend entry Teams.get_member Tasks.get_by_id Tasks.update_with_history
update-finish_chore = refl

abbrev fragile_later : Db
fragile_later = record fragile { faults = none ∷ none ∷ fragile.faults }

lost_commit :
    ((update task_service finish_chore fragile_later).0 ≡ err (other (codes "reset")))
    × ((update task_service finish_chore fragile_later).1.rows.tasks
        ≡ record (finished.updated) { updated_at = pos 100 } ∷ [])
unfolding update running amend entry Teams.get_member Tasks.get_by_id Tasks.update_with_history
lost_commit = (refl, refl)
