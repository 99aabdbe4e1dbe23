-- ===== src/Service/Task/Respect.antt =====
-- `TaskService` respects what its repositories and its cache respect.
use secunda_test.Base.{inr, inl, Bool-cases, Option, none, some, List, ℤ}
use secunda_test.Text.{Text}
use secunda_test.Errors.{GoError}
use secunda_test.Errors.Action.{Action, Result, ok, err, pure, lift, on_error, try, ◌>>=◌}
use secunda_test.Errors.Respect.{
  Order, Respects, pure-Respects, lift-Respects, on_error-Respects, try-Respects, bind-Respects,
}
use secunda_test.Domain.{Task, TaskHistory, TaskFilter}
use secunda_test.Cache.Keys.{tasks_key}
use secunda_test.Service.Task.{
  TaskService, CreateTaskInput, Warning, cache_get_failed, cache_set_failed,
  cache_invalidation_failed, not_a_member, normalize_filter, new_task, is_nil, log_error,
  require_member, invalidate, create, load, serve, list, store, update, history,
}
use secunda_test.Service.Task.Amend.{UpdateTaskInput, Draft, amend}

module _ {W : Type 0} (o : Order W) where
  pub record IsRespectful (s : TaskService W) : Type 0 where
    pub get_member : (team_id user_id : ℤ) → Respects o (s.teams.get_member team_id user_id)
    pub create : (t : Task) → Respects o (s.tasks.create t)
    pub get_by_id : (id : ℤ) → Respects o (s.tasks.get_by_id id)
    pub list : (f : TaskFilter) → Respects o (s.tasks.list f)
    pub update_with_history :
        (t : Task) (hs : List TaskHistory) → Respects o (s.tasks.update_with_history t hs)
    pub history : (task_id : ℤ) → Respects o (s.tasks.history task_id)
    pub get_tasks : (key : Text) → Respects o (s.cache.get_tasks key)
    pub set_tasks : (key : Text) (ts : List Task) → Respects o (s.cache.set_tasks key ts)
    pub invalidate_team : (team_id : ℤ) → Respects o (s.cache.invalidate_team team_id)
    pub warn : (x : Warning) (w : W) → o.relates w (s.warn x w)

  module _ (s : TaskService W) (r : IsRespectful s) where
    log_error-Respects :
        (warning : GoError → Warning) (a : Result (Unit {0})) → Respects o (log_error s warning a)
    log_error-Respects warning (ok u) w = o.same w
    log_error-Respects warning (err e) w = r.warn (warning e) w

    require_member-Respects : (team_id user_id : ℤ) → Respects o (require_member s team_id user_id)
    unfolding require_member
    require_member-Respects team_id user_id =
        bind-Respects o (λ _. pure tt) (λ _. pure-Respects o tt)
          (on_error not_a_member (s.teams.get_member team_id user_id))
          (on_error-Respects o not_a_member (s.teams.get_member team_id user_id)
            (r.get_member team_id user_id))

    invalidate-Respects : (team_id : ℤ) → Respects o (invalidate s team_id)
    unfolding invalidate
    invalidate-Respects team_id =
        bind-Respects o (log_error s (cache_invalidation_failed team_id))
          (log_error-Respects (cache_invalidation_failed team_id))
          (try (s.cache.invalidate_team team_id))
          (try-Respects o (s.cache.invalidate_team team_id) (r.invalidate_team team_id))

    -- A call, then the invalidation of the team's lists, then an answer.
    invalidated-Respects :
        {A : Type 0} (team_id : ℤ) (a : A) → Respects o (invalidate s team_id >>= λ _. pure a)
    invalidated-Respects team_id a =
        bind-Respects o (λ _. pure a) (λ _. pure-Respects o a) (invalidate s team_id)
          (invalidate-Respects team_id)

    pub create-Respects : (input : CreateTaskInput) → Respects o (create s input)
    unfolding create
    create-Respects input =
        let numbered : Task → ℤ → Action W Task =
          λ t id. invalidate s input.team_id >>= λ _. pure (record t { id = id }) in
        bind-Respects o (λ _. lift (new_task input) >>= λ t. s.tasks.create t >>= numbered t)
          (λ _.
            bind-Respects o (λ t. s.tasks.create t >>= numbered t)
              (λ t.
                bind-Respects o (numbered t)
                  (λ id. invalidated-Respects input.team_id (record t { id = id }))
                  (s.tasks.create t) (r.create t))
              (lift (new_task input)) (lift-Respects o (new_task input)))
          (require_member s input.team_id input.actor_id)
          (require_member-Respects input.team_id input.actor_id)

    load-Respects : (f : TaskFilter) → Respects o (load s f)
    unfolding load
    load-Respects f =
        let stored : List Task → Result (Unit {0}) → Action W (List Task) =
          λ ts x. log_error s cache_set_failed x >>= λ _. pure ts in
        bind-Respects o (λ ts. try (s.cache.set_tasks (tasks_key f) ts) >>= stored ts)
          (λ ts.
            bind-Respects o (stored ts)
              (λ x.
                bind-Respects o (λ _. pure ts) (λ _. pure-Respects o ts)
                  (log_error s cache_set_failed x) (log_error-Respects cache_set_failed x))
              (try (s.cache.set_tasks (tasks_key f) ts))
              (try-Respects o (s.cache.set_tasks (tasks_key f) ts) (r.set_tasks (tasks_key f) ts)))
          (s.tasks.list f) (r.list f)

    serve-Respects :
        (f : TaskFilter) (cached : Result (Option (List Task))) → Respects o (serve s f cached)
    unfolding serve
    serve-Respects f (ok (some ts)) w = o.same w
    serve-Respects f (ok none) w = load-Respects f w
    serve-Respects f (err e) w =
        let v = s.warn (cache_get_failed e) w in
        o.then w v (load s f v).1 (r.warn (cache_get_failed e) w) (load-Respects f v)

    pub list-Respects : (f : TaskFilter) (actor_id : ℤ) → Respects o (list s f actor_id)
    unfolding list
    list-Respects f actor_id =
        let key = tasks_key (normalize_filter f) in
        bind-Respects o (λ _. try (s.cache.get_tasks key) >>= serve s (normalize_filter f))
          (λ _.
            bind-Respects o (serve s (normalize_filter f)) (serve-Respects (normalize_filter f))
              (try (s.cache.get_tasks key))
              (try-Respects o (s.cache.get_tasks key) (r.get_tasks key)))
          (require_member s f.team_id actor_id) (require_member-Respects f.team_id actor_id)

    store-Respects : (current : Task) (d : Draft) → Respects o (store s current d)
    unfolding store
    store-Respects current d = elim (Bool-cases (is_nil d.history)) [
      | inl unchanged ↦ rw unchanged (pure-Respects o current)
      | inr changed ↦ rw changed (
          bind-Respects o (λ _. invalidate s current.team_id >>= λ _. pure d.updated)
            (λ _. invalidated-Respects current.team_id d.updated)
            (s.tasks.update_with_history d.updated d.history)
            (r.update_with_history d.updated d.history))
    ]

    pub update-Respects : (input : UpdateTaskInput) → Respects o (update s input)
    unfolding update
    update-Respects input =
        bind-Respects o
          (λ current. require_member s current.team_id input.actor_id >>= λ _.
            lift (amend input current) >>= store s current)
          (λ current.
            bind-Respects o (λ _. lift (amend input current) >>= store s current)
              (λ _.
                bind-Respects o (store s current) (store-Respects current)
                  (lift (amend input current)) (lift-Respects o (amend input current)))
              (require_member s current.team_id input.actor_id)
              (require_member-Respects current.team_id input.actor_id))
          (s.tasks.get_by_id input.task_id) (r.get_by_id input.task_id)

    pub history-Respects : (task_id actor_id : ℤ) → Respects o (history s task_id actor_id)
    unfolding history
    history-Respects task_id actor_id =
        bind-Respects o (λ t. require_member s t.team_id actor_id >>= λ _. s.tasks.history task_id)
          (λ t.
            bind-Respects o (λ _. s.tasks.history task_id) (λ _. r.history task_id)
              (require_member s t.team_id actor_id) (require_member-Respects t.team_id actor_id))
          (s.tasks.get_by_id task_id) (r.get_by_id task_id)
