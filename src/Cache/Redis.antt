-- ===== src/Cache/Redis.antt =====
-- internal/cache/cache.go: `RedisCache`. The Redis client and encoding/json are parameters; a time to live is
-- in whole seconds.
pub mod Contract
pub mod Races
pub mod Registry
pub mod Stored
pub mod Registering
pub mod Coherence
use secunda_test.Base.{
  ℕ, Bool, true, false, Option, none, some, List, [], ◌∷◌, ℤ, pos, ltb_ℤ, if◌then◌else◌,
}
use secunda_test.Text.{Text}
use secunda_test.Errors.{GoError, redis_nil, is_error}
use secunda_test.Errors.Action.{Action, Result, ok, err, lift, ◌>>=◌}
use secunda_test.Domain.{Task}
use secunda_test.Service.Interfaces.{Cache}
use secunda_test.Cache.Keys.{team_set_key, team_id_from_key}

-- The commands that the code puts into a pipeline.
pub data Command : Type 0 where
  set : Text → Text → ℕ → Command
  sadd : Text → Text → Command
  expire : Text → ℕ → Command
  del : List Text → Command

-- What the code calls of the client: `Get`, `SMembers`, and `Exec` of a `TxPipeline`.
pub record Redis (W : Type 0) : Type 0 where
  pub get : Text → Action W Text
  pub smembers : Text → Action W (List Text)
  pub exec : List Command → Action W (Unit {0})

pub record Json : Type 0 where
  pub marshal : List Task → Result Text
  pub unmarshal : Text → Result (List Task)

-- `NewRedis`, with the library.
pub record RedisCache (W : Type 0) : Type 0 where
  pub client : Redis W
  pub json : Json
  pub ttl : ℕ

-- The commands of `SetTasks` and of `InvalidateTeam`.
abbrev pub register_commands : ℕ → Text → Text → ℤ → List Command
register_commands ttl key raw team_id =
    if ltb_ℤ (pos 0) team_id
    then set key raw ttl ∷ sadd (team_set_key team_id) key ∷ expire (team_set_key team_id) ttl ∷ []
    else set key raw ttl ∷ []

abbrev pub drop_commands : Text → List Text → List Command
drop_commands set_key [] = del (set_key ∷ []) ∷ []
drop_commands set_key (k ∷ ks) = del (k ∷ ks) ∷ del (set_key ∷ []) ∷ []

module _ {W : Type 0} (c : RedisCache W) where
  abbrev pub found : Result (List Task) → Result (Option (List Task))
  found (ok tasks) = ok (some tasks)
  found (err e) = err e

  -- What `GetTasks` makes of the client's answer.
  abbrev pub decode_answer : Result Text × W → Result (Option (List Task)) × W
  decode_answer (ok raw, w) = (found (c.json.unmarshal raw), w)
  decode_answer (err e, w) = if is_error e redis_nil then (ok none, w) else (err e, w)

  unfoldable pub get_tasks : Text → Action W (Option (List Task))
  unfolding is_error
  get_tasks key w = decode_answer (c.client.get key w)

  unfoldable pub set_tasks : Text → List Task → Action W (Unit {0})
  unfolding team_set_key team_id_from_key
  set_tasks key tasks = lift (c.json.marshal tasks) >>= λ raw.
      c.client.exec (register_commands c.ttl key raw (team_id_from_key key))

  unfoldable pub invalidate_team : ℤ → Action W (Unit {0})
  unfolding team_set_key
  invalidate_team team_id = c.client.smembers (team_set_key team_id) >>= λ keys.
      c.client.exec (drop_commands (team_set_key team_id) keys)

  -- As the services take it.
  abbrev pub redis_cache : Cache W
  redis_cache = record {
    get_tasks = get_tasks;
    set_tasks = set_tasks;
    invalidate_team = invalidate_team;
  }
