-- ===== src/Tests/Stale.antt =====
-- A list that was read before a change and cached behind it.
use secunda_test.Base.{◌≡◌, refl, List, [], ◌∷◌, pos, ℤ, map}
use secunda_test.Errors.Action.{Result, ok, err}
use secunda_test.Domain.{Task}
use secunda_test.Cache.Keys.{tasks_key, team_set_key, team_id_from_key}
use secunda_test.Cache.Redis.{get_tasks, set_tasks, invalidate_team}
use secunda_test.Cache.Redis.Contract.{effects}
use secunda_test.Service.Task.{TaskService, list, update}
use secunda_test.Service.Task.Amend.{amend, entry}
use secunda_test.Service.Task.Freshness.{over_redis}
use secunda_test.Repository.Tasks
use secunda_test.Repository.Teams
use secunda_test.Text.{has_prefix, index_byte}
use secunda_test.Tests.Fresh.{Both, cache, laws, tasks, teams}
use secunda_test.Tests.Caching.{blank}
use secunda_test.Tests.Amendments.{finish_chore}
use secunda_test.Tests.Keys.{done_page}
use secunda_test.Tests.Fixtures.{db, running}

abbrev service : TaskService Both
service = over_redis cache laws tasks teams (λ warning w. w)

-- One request has missed the cache and runs its query; another finishes the task; the first caches its answer.
abbrev queried : Result (List Task) × Both
queried = tasks.list done_page (db, blank)

abbrev changed : Both
changed = (update service finish_chore queried.1).1

abbrev stored : Both
stored = (set_tasks cache (tasks_key done_page) [] changed).1

queried-nothing : queried.0 ≡ ok []
unfolding running Tasks.list
queried-nothing = refl

abbrev finished_ids : Result (List Task) → List ℤ
finished_ids (ok ts) = map (λ (t : Task). t.id) ts
finished_ids (err e) = []

-- By then the table has a finished task, which the cache hides.
list-stored : finished_ids (tasks.list done_page stored).0 ≡ pos 1 ∷ []
unfolding update running Tasks.get_by_id Teams.get_member amend entry Tasks.update_with_history
    invalidate_team set_tasks tasks_key team_set_key team_id_from_key effects has_prefix index_byte
    Tasks.list
list-stored = refl

list-stale : (list service done_page (pos 1) stored).0 ≡ ok []
unfolding list update running Tasks.get_by_id Teams.get_member amend entry Tasks.update_with_history
    invalidate_team get_tasks set_tasks tasks_key team_set_key team_id_from_key effects has_prefix
    index_byte Tasks.list
list-stale = refl
