-- ===== src/Tests/Fresh.antt =====
-- The database and Redis side by side: a change through the service.
use secunda_test.Tests.Orders.{newest}
use secunda_test.Base.{refl, ap, arith, pos}
use secunda_test.Errors.Action.{Action, Result}
use secunda_test.Domain.{Task}
use secunda_test.Database.{Db}
use secunda_test.Cache.Redis.{Redis, RedisCache, invalidate_team}
use secunda_test.Cache.Redis.Contract.{IsLater, RedisLaws}
use secunda_test.Cache.Redis.Coherence.{IsCoherent}
use secunda_test.Service.Interfaces.{TaskRepository, TeamRepository}
use secunda_test.Service.Task.{update}
use secunda_test.Service.Task.Amend.{amend, entry}
use secunda_test.Service.Task.Freshness.{over_redis, IsSeparate, IsFresh, update-IsFresh}
use secunda_test.Repository.Tasks
use secunda_test.Repository.Teams
use secunda_test.Repository.Wired.{task_repository, team_repository}
use secunda_test.Tests.Caching.{Server, toy_redis, toy_laws, toy_json, blank}
use secunda_test.Tests.Amendments.{finish_chore, finished}
use secunda_test.Tests.Fixtures.{db, chore, running}

abbrev pub Both : Type 0
Both = Db × Server

abbrev on_db : {A : Type 0} → Action Db A → Action Both A
on_db m (d, s) = let (r, d1) = m d in (r, (d1, s))

abbrev on_server : {A : Type 0} → Action Server A → Action Both A
on_server m (d, s) = let (r, s1) = m s in (r, (d, s1))

abbrev redis : Redis Both
redis = record {
  get = λ key. on_server (toy_redis.get key);
  smembers = λ key. on_server (toy_redis.smembers key);
  exec = λ cs. on_server (toy_redis.exec cs);
}

abbrev pub cache : RedisCache Both
cache = record { client = redis; json = toy_json; ttl = 60 }

abbrev pub tasks : TaskRepository Both
tasks = record {
  create = λ t. on_db (task_repository.create t);
  get_by_id = λ id. on_db (task_repository.get_by_id id);
  list = λ f. on_db (task_repository.list f);
  update_with_history = λ t h. on_db (task_repository.update_with_history t h);
  history = λ id. on_db (task_repository.history id);
}

abbrev pub teams : TeamRepository Both
teams = record {
  create_with_owner = λ name owner. on_db ((team_repository newest).create_with_owner name owner);
  list_by_user = λ user. on_db ((team_repository newest).list_by_user user);
  get_member = λ team user. on_db ((team_repository newest).get_member team user);
  add_member = λ team user role. on_db ((team_repository newest).add_member team user role);
}

abbrev lifted :
    (w w' : Both)
    → IsLater toy_laws.store toy_laws.clock w.1 w'.1
    → IsLater {W = Both} (λ v. toy_laws.store v.1) (λ v. toy_laws.clock v.1) w w'
lifted w w' l = record { unchanged = l.unchanged; after = l.after }

abbrev pub laws : RedisLaws redis
laws = record {
  store = λ w. toy_laws.store w.1;
  clock = λ w. toy_laws.clock w.1;
  get_ok = λ key raw w w' h.
      let (l, held) = toy_laws.get_ok key raw w.1 w'.1 (ap (λ o. (o.0, o.1.1)) h) in
      (lifted w w' l, held);
  get_err =
      λ key e w w' h. lifted w w' (toy_laws.get_err key e w.1 w'.1 (ap (λ o. (o.0, o.1.1)) h));
  smembers_ok = λ key ks w w' h.
      let l = toy_laws.smembers_ok key ks w.1 w'.1 (ap (λ o. (o.0, o.1.1)) h) in
      record {
        later = lifted w w' l.later;
        instant = l.instant;
        ended = l.ended;
        complete = l.complete;
        sound = l.sound;
      };
  smembers_err =
      λ key e w w' h. lifted w w' (toy_laws.smembers_err key e w.1 w'.1 (ap (λ o. (o.0, o.1.1)) h));
  exec_ok = λ cs w w' h.
      let x = toy_laws.exec_ok cs w.1 w'.1 (ap (λ o. (o.0, o.1.1)) h) in
      record { instant = x.instant; started = x.started; ended = x.ended; changed = x.changed };
  exec_err = λ cs e w w' h. absurd (ground (arith, h));
}

separate : IsSeparate cache laws tasks teams (λ warning w. w)
separate = record {
  create = λ t w. record { unchanged = refl; after = omega arith };
  get_by_id = λ id w. record { unchanged = refl; after = omega arith };
  update_with_history = λ t h w. record { unchanged = refl; after = omega arith };
  get_member = λ team user w. record { unchanged = refl; after = omega arith };
}

start : IsCoherent cache laws (db, blank)
start = record {
  registered = λ k v d found. absurd (ground (arith, found));
  keys_apart = λ k v d found. absurd (ground (arith, found));
  members_apart = λ x ms d m held. absurd (ground (arith, held));
}

abbrev service_run : Result Task × Both
service_run = update (over_redis cache laws tasks teams (λ warning w. w)) finish_chore (db, blank)

update-IsFresh_example : IsFresh cache laws tasks teams (λ warning w. w) (pos 1) service_run.1
unfolding update running Tasks.get_by_id Teams.get_member amend entry Tasks.update_with_history
    invalidate_team
update-IsFresh_example =
    update-IsFresh cache laws tasks teams (λ warning w. w) separate finish_chore chore
      finished.updated (db, blank) (db, blank) service_run.1 start refl refl (omega arith)
      (λ same. ground (arith, ap (λ (t : Task). t.assignee_id) same)) refl
