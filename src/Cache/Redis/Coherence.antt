-- ===== src/Cache/Redis/Coherence.antt =====
-- What the calls of `RedisCache` guarantee over a Redis that keeps its contract.
use secunda_test.Base.{
  ℕ, Option, ◌≤◌, ◌<◌, ◌≡◌, true, some, List, ℤ, pos, ltb_ℤ, arith, Bool-cases, inl, inr, sym, ◌∙◌,
  ap, subst, IsInt64,
}
use secunda_test.Text.{Text, text_eq_iff}
use secunda_test.Errors.{redis_nil, is_error}
use secunda_test.Errors.Action.{Result, ok, err, Outcome-cases, Result-cases, after-eq-ok}
use secunda_test.Domain.{Task, TaskFilter}
use secunda_test.Cache.Keys.{tasks_key, team_set_key, team_id_from_key}
use secunda_test.Cache.Keys.Laws.{tasks_key-team_set_key, team_id_from_key-tasks_key}
use secunda_test.Cache.Redis.{
  Command, RedisCache, register_commands, drop_commands, decode_answer, get_tasks, set_tasks,
  invalidate_team,
}
use secunda_test.Cache.Redis.Contract.{
  IsLater, IsExecuted, IsListed, RedisLaws, effects, Store, live,
}
use secunda_test.Cache.Redis.Registry.{
  IsSetKey, IsTracked, live_before, IsTracked-later, Lists, dropped-none, dropped-IsTracked,
}
use secunda_test.Cache.Redis.Stored.{text_neq}
use secunda_test.Cache.Redis.Registering.{register_commands-IsTracked, register_commands-strings}

module _ {W : Type 0} (c : RedisCache W) (laws : RedisLaws c.client) where
  -- The registry in a world.
  abbrev pub IsCoherent : W → Type 0
  IsCoherent w = IsTracked c.ttl (laws.clock w) (laws.store w)

  pub later-IsCoherent :
      (w w' : W) → IsCoherent w → IsLater laws.store laws.clock w w' → IsCoherent w'
  later-IsCoherent w w' t l =
      subst (IsTracked c.ttl (laws.clock w')) (sym l.unchanged) (IsTracked-later c.ttl t l.after)

  executed-IsCoherent :
      (cs : List Command) (w w' : W) (x : IsExecuted laws.store laws.clock cs w w')
      → IsTracked c.ttl x.instant (effects x.instant cs (laws.store w))
      → IsCoherent w'
  executed-IsCoherent cs w w' x t =
      subst (IsTracked c.ttl (laws.clock w')) (sym x.changed) (IsTracked-later c.ttl t x.ended)

  exec-IsCoherent :
      (cs : List Command) (w : W)
      → IsCoherent w
      → ((now : ℕ) → laws.clock w ≤ now → IsTracked c.ttl now (effects now cs (laws.store w)))
      → IsCoherent (c.client.exec cs w).1
  exec-IsCoherent cs w t step = elim (Outcome-cases (c.client.exec cs w)) [
    | inl (_, w', done) ↦
        let x = laws.exec_ok cs w w' done in
        rw done (executed-IsCoherent cs w w' x (step x.instant x.started))
    | inr (e, w', failed) ↦ elim (laws.exec_err cs e w w' failed) [
      | inl l ↦ rw failed (later-IsCoherent w w' t l)
      | inr x ↦ rw failed (executed-IsCoherent cs w w' x (step x.instant x.started))
    ]
  ]

  listed :
      (set_key : Text) (ks : List Text) (w w' : W)
      (l : IsListed laws.store laws.clock set_key ks w w')
      → Lists (laws.store w') set_key l.instant ks
  listed set_key ks w w' l =
      subst (λ s. Lists s set_key l.instant ks) (sym (l.later.unchanged))
        (record { complete = l.complete; sound = l.sound })

  set_tasks-IsCoherent :
      (key : Text) (tasks : List Task) (w : W)
      → 0 < c.ttl
      → ¬ (IsSetKey key)
      → IsCoherent w
      → IsCoherent (set_tasks c key tasks w).1
  unfolding set_tasks
  set_tasks-IsCoherent key tasks w lives apart t = elim (Result-cases (c.json.marshal tasks)) [
    | inr (e, failed) ↦ rw failed t
    | inl (raw, done) ↦ rw done (
        exec-IsCoherent (register_commands c.ttl key raw (team_id_from_key key)) w t (λ now passed.
          register_commands-IsTracked c.ttl (laws.clock w) now key raw (laws.store w) lives apart t
            passed))
  ]

  get_tasks-IsCoherent : (key : Text) (w : W) → IsCoherent w → IsCoherent (get_tasks c key w).1
  unfolding get_tasks
  get_tasks-IsCoherent key w t = elim (Outcome-cases (c.client.get key w)) [
    | inl (raw, w', got) ↦ rw got (later-IsCoherent w w' t (laws.get_ok key raw w w' got).0)
    | inr (e, w', failed) ↦
        let t' = later-IsCoherent w w' t (laws.get_err key e w w' failed) in
        elim (Bool-cases (is_error e redis_nil)) [
          | inl missing ↦ rw (failed, missing) t'
          | inr broken ↦ rw (failed, broken) t'
        ]
  ]

  invalidate_team-IsCoherent :
      (team : ℤ) (w : W) → IsCoherent w → IsCoherent (invalidate_team c team w).1
  unfolding invalidate_team
  invalidate_team-IsCoherent team w t =
      elim (Outcome-cases (c.client.smembers (team_set_key team) w)) [
        | inr (e, w', failed) ↦
            rw failed
              (later-IsCoherent w w' t (laws.smembers_err (team_set_key team) e w w' failed))
        | inl (ks, w', got) ↦
            let l = laws.smembers_ok (team_set_key team) ks w w' got in
            let t' = later-IsCoherent w w' t l.later in
            rw got (
              exec-IsCoherent (drop_commands (team_set_key team) ks) w' t' (λ now passed.
                dropped-IsTracked c.ttl (laws.clock w') l.instant now (laws.store w') team ks t'
                  (let ended = l.ended in omega arith) passed
                  (listed (team_set_key team) ks w w' l)))
      ]

  -- With a time to live that is not 0, and whatever the calls of the cache return, an error too, they keep the
  -- registry: each list of a positive team that is alive is in the set of its team, which lives as long, and
  -- no list stands under the key of a set.
  pub calls-IsCoherent :
      (f : TaskFilter) (tasks : List Task) (team : ℤ) (w : W)
      → 0 < c.ttl
      → IsCoherent w
      → IsCoherent (set_tasks c (tasks_key f) tasks w).1
        × IsCoherent (get_tasks c (tasks_key f) w).1
        × IsCoherent (invalidate_team c team w).1
  calls-IsCoherent f tasks team w lives t = (
    set_tasks-IsCoherent (tasks_key f) tasks w lives
        (λ (team, same). tasks_key-team_set_key f team same) t,
    get_tasks-IsCoherent (tasks_key f) w t,
    invalidate_team-IsCoherent team w t,
  )

  decode_answer-hit :
      (o : Result Text × W) {tasks : List Task} {w' : W}
      → decode_answer c o ≡ (ok (some tasks), w')
      → (raw : Text) × (o ≡ (ok raw, w')) × (c.json.unmarshal raw ≡ ok tasks)
  decode_answer-hit (ok raw, w) h = elim (Result-cases (c.json.unmarshal raw)) [
    | inl (found, read) ↦ (raw, ap (λ v. (ok raw, v)) (ground (arith, h)), ground (arith, read, h))
    | inr (e, failed) ↦ absurd (ground (arith, failed, h))
  ]
  decode_answer-hit (err e, w) h = absurd (ground (arith, h))

  hit :
      (key : Text) (w w' : W) {tasks : List Task}
      → get_tasks c key w ≡ (ok (some tasks), w')
      → (raw : Text) × (d : Option ℕ) × (c.json.unmarshal raw ≡ ok tasks)
        × ((laws.store w).strings key ≡ some (raw, d))
        × (live (laws.clock w) d ≡ true)
  unfolding get_tasks
  hit key w w' h =
      let (raw, got, read) = decode_answer-hit (c.client.get key w) h in
      let (_, (d, held, alive)) = laws.get_ok key raw w w' got in (raw, d, read, held, alive)

  -- Once `InvalidateTeam` of a positive team has succeeded on a registry that has every list, `GetTasks` finds
  -- no list of that team under any filter, until one is stored again.
  pub invalidate_team-get_tasks :
      (team : ℤ) (f : TaskFilter) (tasks : List Task) (w w1 w2 : W)
      → IsCoherent w
      → ltb_ℤ (pos 0) team ≡ true
      → IsInt64 team
      → f.team_id ≡ team
      → invalidate_team c team w ≡ (ok tt, w1)
      → ¬ (get_tasks c (tasks_key f) w1 ≡ (ok (some tasks), w2))
  unfolding invalidate_team
  invalidate_team-get_tasks team f tasks w w1 w2 t positive fits same dropped found =
      let (ks, v, got, done) = after-eq-ok _ (c.client.smembers (team_set_key team) w) dropped in
      let l = laws.smembers_ok (team_set_key team) ks w v got in
      let x = laws.exec_ok (drop_commands (team_set_key team) ks) v w1 done in
      let (raw, d, _, held, alive) = hit (tasks_key f) w1 w2 found in
      let its_team : team_id_from_key (tasks_key f) ≡ team =
        team_id_from_key-tasks_key f (subst IsInt64 (sym same) fits) ∙ same in
      let gone =
        dropped-none c.ttl (laws.clock v) l.instant x.instant (laws.store v) team ks
          (later-IsCoherent w v t l.later) (let a = l.ended in let b = x.started in omega arith)
          x.started (listed (team_set_key team) ks w v l) (tasks_key f) raw d
          (ap (λ (s : Store). s.strings (tasks_key f)) (sym x.changed) ∙ held)
          (live_before x.instant (laws.clock w1) d x.ended alive)
          (ap (ltb_ℤ (pos 0)) its_team ∙ positive) in
      absurd (
        ground (
          arith,
          gone,
          (text_eq_iff (team_set_key team) (team_set_key (team_id_from_key (tasks_key f)))).1
              (ap team_set_key (sym its_team)),
        ))

  -- What `GetTasks` finds where `SetTasks` has just succeeded is the list that was stored, if the JSON of a
  -- list reads back as that list.
  pub set_tasks-get_tasks :
      (f : TaskFilter) (tasks found : List Task) (w w1 w2 : W)
      → ((ts : List Task) (raw : Text) → c.json.marshal ts ≡ ok raw → c.json.unmarshal raw ≡ ok ts)
      → set_tasks c (tasks_key f) tasks w ≡ (ok tt, w1)
      → get_tasks c (tasks_key f) w1 ≡ (ok (some found), w2)
      → found ≡ tasks
  unfolding set_tasks
  set_tasks-get_tasks f tasks found w w1 w2 reads stored got =
      elim (Result-cases (c.json.marshal tasks)) [
        | inr (e, failed) ↦ absurd (ground (arith, failed, stored))
        | inl (raw, written) ↦
            let x =
              laws.exec_ok
                (register_commands c.ttl (tasks_key f) raw (team_id_from_key (tasks_key f))) w w1
                (rw written at stored) in
            let (raw1, d, read, held, _) = hit (tasks_key f) w1 w2 got in
            let team = team_id_from_key (tasks_key f) in
            let apart =
              text_neq (team_set_key team) (tasks_key f)
                (λ same. tasks_key-team_set_key f team (sym same)) in
            let kept =
              ap (λ (s : Store). s.strings (tasks_key f)) x.changed
              ∙ register_commands-strings c.ttl x.instant (tasks_key f) raw team (laws.store w)
                  apart in
            let same : raw1 ≡ raw = ground (arith, held, kept) in
            let again = ap c.json.unmarshal same ∙ reads tasks raw written in
            ground (arith, read, again)
      ]
