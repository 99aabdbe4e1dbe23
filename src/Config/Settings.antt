-- ===== src/Config/Settings.antt =====
-- The configuration of internal/config/config.go and `Load`. Durations are nanoseconds.
use secunda_test.Base.{ℕ, ◌≡◌, refl, ℤ}
use secunda_test.Text.{Text, codes}
use secunda_test.Errors.{GoError, within}
use secunda_test.Errors.Action.{Result, ok, err}
use secunda_test.Errors.Outcome.{◌>>=◌}
use secunda_test.Config.{
  text, int, duration, float, leaf, struct, Layout, end, field, Fields, Parsers, Env,
  apply_env_overrides,
}

pub record HttpConfig : Type 0 where
  pub port : ℤ
  pub read_timeout : ℤ
  pub write_timeout : ℤ
  pub shutdown_timeout : ℤ

pub record MysqlConfig : Type 0 where
  pub dsn : Text
  pub max_open_conns : ℤ
  pub max_idle_conns : ℤ
  pub conn_max_lifetime : ℤ
  pub conn_max_idle_time : ℤ

pub record RedisConfig : Type 0 where
  pub addr : Text
  pub password : Text
  pub db : ℤ
  pub task_list_ttl : ℤ

pub record AuthConfig : Type 0 where
  pub jwt_secret : Text
  pub token_ttl : ℤ

pub record RateLimitConfig : Type 0 where
  pub requests_per_minute : ℤ

pub record EmailConfig : Type 0 where
  pub failure_threshold : ℤ
  pub open_timeout : ℤ
  pub fail_rate : ℕ

pub record Config : Type 0 where
  pub http : HttpConfig
  pub mysql : MysqlConfig
  pub redis : RedisConfig
  pub auth : AuthConfig
  pub ratelimit : RateLimitConfig
  pub email : EmailConfig

-- The fields with their yaml tags, in the order of the source.
abbrev pub http_layout : Layout
http_layout = field (codes "port") (leaf int) (
    field (codes "read_timeout") (leaf duration) (
      field (codes "write_timeout") (leaf duration)
        (field (codes "shutdown_timeout") (leaf duration) end)))

abbrev pub mysql_layout : Layout
mysql_layout = field (codes "dsn") (leaf text) (
    field (codes "max_open_conns") (leaf int) (
      field (codes "max_idle_conns") (leaf int) (
        field (codes "conn_max_lifetime") (leaf duration)
          (field (codes "conn_max_idle_time") (leaf duration) end))))

abbrev pub redis_layout : Layout
redis_layout = field (codes "addr") (leaf text) (
    field (codes "password") (leaf text)
      (field (codes "db") (leaf int) (field (codes "task_list_ttl") (leaf duration) end)))

abbrev pub auth_layout : Layout
auth_layout = field (codes "jwt_secret") (leaf text) (field (codes "token_ttl") (leaf duration) end)

abbrev pub email_layout : Layout
email_layout =
    field (codes "failure_threshold") (leaf int)
      (field (codes "open_timeout") (leaf duration) (field (codes "fail_rate") (leaf float) end))

abbrev pub config_layout : Layout
config_layout = field (codes "http") (struct http_layout) (
    field (codes "mysql") (struct mysql_layout) (
      field (codes "redis") (struct redis_layout) (
        field (codes "auth") (struct auth_layout) (
          field (codes "ratelimit") (struct (field (codes "requests_per_minute") (leaf int) end))
            (field (codes "email") (struct email_layout) end)))))

-- `reflect.ValueOf(cfg).Elem()`, and the struct that it stands for.
unfoldable pub fields_of : Config → Fields config_layout
fields_of c = (
  (c.http.port, (c.http.read_timeout, (c.http.write_timeout, (c.http.shutdown_timeout, tt)))),
  (
    (
      c.mysql.dsn,
      (
        c.mysql.max_open_conns,
        (c.mysql.max_idle_conns, (c.mysql.conn_max_lifetime, (c.mysql.conn_max_idle_time, tt))),
      ),
    ),
    (
      (c.redis.addr, (c.redis.password, (c.redis.db, (c.redis.task_list_ttl, tt)))),
      (
        (c.auth.jwt_secret, (c.auth.token_ttl, tt)),
        (
          (c.ratelimit.requests_per_minute, tt),
          ((c.email.failure_threshold, (c.email.open_timeout, (c.email.fail_rate, tt))), tt),
        ),
      ),
    ),
  ),
)

unfoldable pub config_of : Fields config_layout → Config
config_of (http, (mysql, (redis, (auth, (ratelimit, (email, _)))))) = record {
  http = record {
    port = http.0;
    read_timeout = http.1.0;
    write_timeout = http.1.1.0;
    shutdown_timeout = http.1.1.1.0;
  };
  mysql = record {
    dsn = mysql.0;
    max_open_conns = mysql.1.0;
    max_idle_conns = mysql.1.1.0;
    conn_max_lifetime = mysql.1.1.1.0;
    conn_max_idle_time = mysql.1.1.1.1.0;
  };
  redis = record {
    addr = redis.0;
    password = redis.1.0;
    db = redis.1.1.0;
    task_list_ttl = redis.1.1.1.0;
  };
  auth = record { jwt_secret = auth.0; token_ttl = auth.1.0 };
  ratelimit = record { requests_per_minute = ratelimit.0 };
  email = record { failure_threshold = email.0; open_timeout = email.1.0; fail_rate = email.1.1.0 };
}

pub config_of-fields_of : (c : Config) → config_of (fields_of c) ≡ c
unfolding config_of fields_of
config_of-fields_of c = refl

-- `os.ReadFile`, and `yaml.Unmarshal` into an empty `Config`.
pub record Files : Type 0 where
  pub read_file : Text → Result Text
  pub unmarshal : Text → Result Config

-- `fmt.Errorf("doing: %w", err)`, on the result of a step.
abbrev pub on_failure : {A : Type 0} → (GoError → GoError) → Result A → Result A
on_failure change (ok a) = ok a
on_failure change (err e) = err (change e)

unfoldable pub in_config : Result (Fields config_layout) → Result Config
unfolding config_of
in_config (ok v) = ok (config_of v)
in_config (err e) = err e

unfoldable pub load : Files → Parsers → Env → Text → Result Config
unfolding apply_env_overrides in_config fields_of
load files p env path = do
  content ← on_failure (within "read config file") (files.read_file path)
  cfg ← on_failure (within "parse config yaml") (files.unmarshal content)
  on_failure (within "apply env overrides")
      (in_config (apply_env_overrides p config_layout env (codes "APP") (fields_of cfg)))
