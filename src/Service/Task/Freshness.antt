-- ===== src/Service/Task/Freshness.antt =====
-- `TaskService` over the Redis cache: what a change leaves in the cache.
use secunda_test.Base.{
  some, subst, ◌≡◌, ◌⊎◌, inl, inr, true, List, ℤ, pos, ltb_ℤ, IsInt64, arith, Bool-cases, ap, ◌∙◌,
  sym,
}
use secunda_test.Errors.{GoError}
use secunda_test.Errors.Action.{Action, Result, ok, Outcome-cases, after-eq-ok, lift}
use secunda_test.Domain.{Task, TaskFilter, TaskHistory}
use secunda_test.Cache.Keys.{tasks_key}
use secunda_test.Cache.Redis.{RedisCache, redis_cache, get_tasks, invalidate_team}
use secunda_test.Cache.Redis.Contract.{IsLater, RedisLaws}
use secunda_test.Cache.Redis.Coherence.{IsCoherent, later-IsCoherent, invalidate_team-get_tasks}
use secunda_test.Service.Interfaces.{TaskRepository, TeamRepository}
use secunda_test.Service.Task.{
  TaskService, CreateTaskInput, Warning, cache_invalidation_failed, is_nil, require_member,
  invalidate, new_task, create, store, update,
}
use secunda_test.Service.Task.Amend.{UpdateTaskInput, Draft, amend}

module _ {W : Type 0} (c : RedisCache W) (laws : RedisLaws c.client) (tasks : TaskRepository W)
    (teams : TeamRepository W) (warn : Warning → W → W) where
  -- As `NewTaskService` puts it together.
  abbrev pub over_redis : TaskService W
  over_redis = record { tasks = tasks; teams = teams; cache = redis_cache c; warn = warn }

  -- A call that does nothing to Redis.
  abbrev pub IsAside : {A : Type 0} → Action W A → Type 0
  IsAside m = (w : W) → IsLater laws.store laws.clock w (m w).1

  -- The repositories and the cache keep different things.
  pub record IsSeparate : Type 0 where
    pub create : (t : Task) → IsAside (tasks.create t)
    pub get_by_id : (id : ℤ) → IsAside (tasks.get_by_id id)
    pub update_with_history :
        (t : Task) (h : List TaskHistory) → IsAside (tasks.update_with_history t h)
    pub get_member : (team user : ℤ) → IsAside (teams.get_member team user)

  -- No list of the team is found.
  abbrev pub HasNoList : ℤ → W → Type 0
  HasNoList team w =
      (f : TaskFilter) (ts : List Task) (w1 : W)
      → f.team_id ≡ team
      → ¬ (get_tasks c (tasks_key f) w ≡ (ok (some ts), w1))

  abbrev pub IsWarned : ℤ → W → Type 0
  IsWarned team w = (e : GoError) × (v : W) × (w ≡ warn (cache_invalidation_failed team e) v)

  abbrev pub IsFresh : ℤ → W → Type 0
  IsFresh team w = HasNoList team w ⊎ IsWarned team w

  aside :
      {A : Type 0} (m : Action W A) (w : W) {r : Result A} {w1 : W}
      → IsAside m
      → IsCoherent c laws w
      → m w ≡ (r, w1)
      → IsCoherent c laws w1
  aside m w h t e =
      later-IsCoherent c laws w _ t
        (subst (IsLater laws.store laws.clock w) (ap (λ o. o.1) e) (h w))

  invalidate-IsFresh :
      (team : ℤ) (w w1 : W) {u : Unit {0}}
      → IsCoherent c laws w
      → ltb_ℤ (pos 0) team ≡ true
      → IsInt64 team
      → invalidate over_redis team w ≡ (ok u, w1)
      → IsFresh team w1
  unfolding invalidate
  invalidate-IsFresh team w w1 t positive fits h = elim (Outcome-cases (invalidate_team c team w)) [
    | inl (_, v, done) ↦
        let same : v ≡ w1 = ground (arith, h, done) in
        inl (λ f ts w2 its found.
          invalidate_team-get_tasks c laws team f ts w w1 w2 t positive fits its
            (done ∙ ap (λ x. (ok tt, x)) same) found)
    | inr (e, v, failed) ↦ inr (e, v, ground (arith, h, failed))
  ]

  require_member-IsAside :
      IsSeparate → (team user : ℤ) → IsAside (require_member over_redis team user)
  unfolding require_member
  require_member-IsAside apart team user w = elim (Outcome-cases (teams.get_member team user w)) [
    | inl (m, v, e) ↦
        rw e
          (subst (IsLater laws.store laws.clock w) (ap (λ o. o.1) e) (apart.get_member team user w))
    | inr (x, v, e) ↦
        rw e
          (subst (IsLater laws.store laws.clock w) (ap (λ o. o.1) e) (apart.get_member team user w))
  ]

  module _ (apart : IsSeparate) where
    -- After a task has been created, the cache holds no list of its team, or the failure to drop the lists
    -- has been logged.
    pub create-IsFresh :
        (input : CreateTaskInput) (t : Task) (w w1 : W)
        → IsCoherent c laws w
        → ltb_ℤ (pos 0) input.team_id ≡ true
        → IsInt64 input.team_id
        → create over_redis input w ≡ (ok t, w1)
        → IsFresh input.team_id w1
    unfolding create
    create-IsFresh input t w w1 coherent positive fits h =
        let (_, v1, member, rest) =
          after-eq-ok _ (require_member over_redis input.team_id input.actor_id w) h in
        let c1 =
          aside (require_member over_redis input.team_id input.actor_id) w
            (require_member-IsAside apart input.team_id input.actor_id) coherent member in
        let (new, v2, made, rest2) = after-eq-ok _ (lift (new_task input) v1) rest in
        let (id, v3, inserted, rest3) = after-eq-ok _ (tasks.create new v2) rest2 in
        let c2 = ap (λ o. o.1) made in
        let c3 =
          aside (tasks.create new) v2 (apart.create new) (subst (IsCoherent c laws) c2 c1)
            inserted in
        let (_, v4, dropped, end) = after-eq-ok _ (invalidate over_redis input.team_id v3) rest3 in
        subst (IsFresh input.team_id) (ap (λ o. o.1) end)
          (invalidate-IsFresh input.team_id v3 v4 c3 positive fits dropped)

    store-IsFresh :
        (current : Task) (d : Draft) (t : Task) (w w1 : W)
        → IsCoherent c laws w
        → ltb_ℤ (pos 0) current.team_id ≡ true
        → IsInt64 current.team_id
        → ¬ (t ≡ current)
        → store over_redis current d w ≡ (ok t, w1)
        → IsFresh current.team_id w1
    unfolding store
    store-IsFresh current d t w w1 coherent positive fits changed h =
        elim (Bool-cases (is_nil d.history)) [
          | inl quiet ↦
              let same : current ≡ t = ground (arith, h, quiet) in absurd (changed (sym same))
          | inr loud ↦
              let (_, v1, written, rest) =
                after-eq-ok _ (tasks.update_with_history d.updated d.history w) (rw loud at h) in
              let c1 =
                aside (tasks.update_with_history d.updated d.history) w
                  (apart.update_with_history d.updated d.history) coherent written in
              let (_, v2, dropped, end) =
                after-eq-ok _ (invalidate over_redis current.team_id v1) rest in
              subst (IsFresh current.team_id) (ap (λ o. o.1) end)
                (invalidate-IsFresh current.team_id v1 v2 c1 positive fits dropped)
        ]

    -- After an update that has changed the task of a positive team, if the registry had every list before, the
    -- cache holds no list of the team, or the failure to drop the lists has been logged.
    pub update-IsFresh :
        (input : UpdateTaskInput) (current t : Task) (w w0 w1 : W)
        → IsCoherent c laws w
        → tasks.get_by_id input.task_id w ≡ (ok current, w0)
        → ltb_ℤ (pos 0) current.team_id ≡ true
        → IsInt64 current.team_id
        → ¬ (t ≡ current)
        → update over_redis input w ≡ (ok t, w1)
        → IsFresh current.team_id w1
    unfolding update
    update-IsFresh input current t w w0 w1 coherent found positive fits changed h =
        let c0 =
          aside (tasks.get_by_id input.task_id) w (apart.get_by_id input.task_id) coherent found in
        let (_, v1, member, rest) =
          after-eq-ok _ (require_member over_redis current.team_id input.actor_id w0)
            (rw found at h) in
        let c1 =
          aside (require_member over_redis current.team_id input.actor_id) w0
            (require_member-IsAside apart current.team_id input.actor_id) c0 member in
        let (d, v2, amended, rest2) = after-eq-ok _ (lift (amend input current) v1) rest in
        store-IsFresh current d t v2 w1 (subst (IsCoherent c laws) (ap (λ o. o.1) amended) c1)
          positive fits changed rest2
