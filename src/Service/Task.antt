-- ===== src/Service/Task.antt =====
-- internal/service/task.go: `TaskService`.
pub mod Amend
pub mod Access
pub mod Listing
pub mod Freshness
pub mod Respect
pub mod Races
use secunda_test.Base.{
  Bool, true, false, not, Option, none, some, List, [], ◌∷◌, ℤ, pos, leb_ℤ, ltb_ℤ, if◌then◌else◌,
}
use secunda_test.Text.{Text, is_empty, trim_space}
use secunda_test.Errors.{GoError, not_found, forbidden, validation, is_error, detailed}
use secunda_test.Errors.Action.{
  Action, Result, ok, err, pure, fail, lift, on_error, try, ◌>>=◌, ◌>>◌,
}
use secunda_test.Domain.{
  Task, TaskStatus, TaskHistory, TaskFilter, status_todo, status_valid, zero_time,
}
use secunda_test.Service.Interfaces.{TaskRepository, TeamRepository, Cache}
use secunda_test.Service.Task.Amend.{UpdateTaskInput, Draft, amend}
use secunda_test.Cache.Keys.{tasks_key}

abbrev pub default_limit : ℤ
default_limit = pos 20

abbrev pub max_limit : ℤ
max_limit = pos 100

-- The warnings that the service logs and goes on.
pub data Warning : Type 0 where
  cache_get_failed cache_set_failed : GoError → Warning
  cache_invalidation_failed : ℤ → GoError → Warning

pub record TaskService (W : Type 0) : Type 0 where
  pub tasks : TaskRepository W
  pub teams : TeamRepository W
  pub cache : Cache W
  pub warn : Warning → W → W

pub record CreateTaskInput : Type 0 where
  pub team_id : ℤ
  pub title : Text
  pub description : Text
  pub status : TaskStatus
  pub assignee_id : Option ℤ
  pub actor_id : ℤ

abbrev pub clamp_limit : ℤ → ℤ
clamp_limit limit =
    let given = if leb_ℤ limit (pos 0) then default_limit else limit in
    if ltb_ℤ max_limit given then max_limit else given

unfoldable pub normalize_filter : TaskFilter → TaskFilter
normalize_filter f = record f {
  limit = clamp_limit f.limit;
  offset = if ltb_ℤ f.offset (pos 0) then pos 0 else f.offset;
}

-- A missing membership becomes `ErrForbidden`, any other failure stays.
unfoldable pub not_a_member : GoError → GoError
not_a_member e = if is_error e not_found then detailed forbidden "not a member of the team" else e

-- `in.Status == ""` stands for todo.
abbrev pub or_todo : TaskStatus → TaskStatus
or_todo status = if is_empty status then status_todo else status

-- The request's task, trimmed and defaulted, or what is wrong with it.
unfoldable pub new_task : CreateTaskInput → Result Task
new_task input =
    let title = trim_space input.title in
    if is_empty title
    then err (detailed validation "title is required")
    else if not (status_valid (or_todo input.status))
    then err (detailed validation "invalid status")
    else ok (record {
      id = pos 0;
      team_id = input.team_id;
      title = title;
      description = input.description;
      status = or_todo input.status;
      assignee_id = input.assignee_id;
      created_by = input.actor_id;
      created_at = zero_time;
      updated_at = zero_time;
    })

abbrev pub is_nil : List TaskHistory → Bool
is_nil [] = true
is_nil (_ ∷ _) = false

module _ {W : Type 0} (s : TaskService W) where
  -- `if err != nil { s.log.Warn(…) }`
  abbrev pub log_error : (GoError → Warning) → Result (Unit {0}) → Action W (Unit {0})
  log_error warning (ok _) = pure tt
  log_error warning (err e) = λ w. (ok tt, s.warn (warning e) w)

  unfoldable pub require_member : ℤ → ℤ → Action W (Unit {0})
  require_member team_id user_id =
      on_error not_a_member (s.teams.get_member team_id user_id) >>= λ _. pure tt

  unfoldable pub invalidate : ℤ → Action W (Unit {0})
  invalidate team_id =
      try (s.cache.invalidate_team team_id) >>= log_error (cache_invalidation_failed team_id)

  unfoldable pub create : CreateTaskInput → Action W Task
  unfolding require_member invalidate new_task
  create input = do
    require_member input.team_id input.actor_id
    t ← lift (new_task input)
    id ← s.tasks.create t
    invalidate input.team_id
    pure (record t { id = id })

  -- The query and the store behind a cache miss.
  unfoldable pub load : TaskFilter → Action W (List Task)
  load f = do
    tasks ← s.tasks.list f
    stored ← try (s.cache.set_tasks (tasks_key f) tasks)
    log_error cache_set_failed stored
    pure tasks

  unfoldable pub serve : TaskFilter → Result (Option (List Task)) → Action W (List Task)
  unfolding load
  serve f (ok (some cached)) = pure cached
  serve f (ok none) = load f
  serve f (err e) = λ w. load f (s.warn (cache_get_failed e) w)

  unfoldable pub list : TaskFilter → ℤ → Action W (List Task)
  unfolding require_member normalize_filter serve
  list f actor_id = do
    require_member f.team_id actor_id
    cached ← try (s.cache.get_tasks (tasks_key (normalize_filter f)))
    serve (normalize_filter f) cached

  -- What `Update` does with the amended task.
  unfoldable pub store : Task → Draft → Action W Task
  unfolding invalidate
  store current d = if is_nil d.history then pure current else do
    s.tasks.update_with_history d.updated d.history
    invalidate current.team_id
    pure d.updated

  unfoldable pub update : UpdateTaskInput → Action W Task
  unfolding require_member store
  update input = do
    current ← s.tasks.get_by_id input.task_id
    require_member current.team_id input.actor_id
    d ← lift (amend input current)
    store current d

  unfoldable pub history : ℤ → ℤ → Action W (List TaskHistory)
  unfolding require_member
  history task_id actor_id = do
    t ← s.tasks.get_by_id task_id
    require_member t.team_id actor_id
    s.tasks.history task_id
