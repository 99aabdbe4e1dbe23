-- ===== src/Config/Sources.antt =====
-- Where every value of the configuration comes from.
use secunda_test.Base.{
  ◌≡◌, refl, sym, ap, subst, ◌↔◌, Bool, true, false, Option, none, some, Bool-cases, inl, inr,
  arith,
}
use secunda_test.Text.{Text, codes}
use secunda_test.Text.Decimal.{parse_int}
use secunda_test.Errors.{GoError}
use secunda_test.Errors.Action.{Result, ok, err}
use secunda_test.Errors.Outcome.{bind-ok}
use secunda_test.Config.{
  Kind, text, int, duration, float, bool, unsupported, Leaf, Shape, leaf, struct, Layout, end,
  field, Value, Fields, Parsers, Env, parse_bool, or_error, is_skipped, env_name, set_value,
  setting, override, override_value, apply_env_overrides,
}
use secunda_test.Config.Settings.{
  Config, config_layout, Files, on_failure, in_config, fields_of, config_of, config_of-fields_of,
  load,
}

-- A text and the value that it stands for.
abbrev pub Reads : Parsers → (k : Kind) → Text → Leaf k → Type 0
Reads p text raw x = x ≡ raw
Reads p int raw x = parse_int raw ≡ some x
Reads p duration raw x = p.parse_duration raw ≡ ok x
Reads p float raw x = p.parse_float raw ≡ ok x
Reads p bool raw x = parse_bool raw ≡ some x
Reads p (unsupported kind) raw x = ⊥

-- The variable's value if it is set, the value of the file if it is not.
abbrev pub Chosen : {A : Type 0} → (Text → A → Type 0) → Option Text → A → A → Type 0
Chosen reads none old new = new ≡ old
Chosen reads (some raw) old new = reads raw new

-- Every field has its variable.
pub record IsConfigured (p : Parsers) (env : Env) (yaml cfg : Config) : Type 0 where
  pub http_port : Chosen (Reads p int) (env (codes "APP_HTTP_PORT")) yaml.http.port cfg.http.port
  pub http_read_timeout :
      Chosen
        (Reads p duration)
        (env (codes "APP_HTTP_READ_TIMEOUT"))
        yaml.http.read_timeout
        cfg.http.read_timeout
  pub http_write_timeout :
      Chosen
        (Reads p duration)
        (env (codes "APP_HTTP_WRITE_TIMEOUT"))
        yaml.http.write_timeout
        cfg.http.write_timeout
  pub http_shutdown_timeout :
      Chosen
        (Reads p duration)
        (env (codes "APP_HTTP_SHUTDOWN_TIMEOUT"))
        yaml.http.shutdown_timeout
        cfg.http.shutdown_timeout
  pub mysql_dsn : Chosen (Reads p text) (env (codes "APP_MYSQL_DSN")) yaml.mysql.dsn cfg.mysql.dsn
  pub mysql_max_open_conns :
      Chosen
        (Reads p int)
        (env (codes "APP_MYSQL_MAX_OPEN_CONNS"))
        yaml.mysql.max_open_conns
        cfg.mysql.max_open_conns
  pub mysql_max_idle_conns :
      Chosen
        (Reads p int)
        (env (codes "APP_MYSQL_MAX_IDLE_CONNS"))
        yaml.mysql.max_idle_conns
        cfg.mysql.max_idle_conns
  pub mysql_conn_max_lifetime :
      Chosen
        (Reads p duration)
        (env (codes "APP_MYSQL_CONN_MAX_LIFETIME"))
        yaml.mysql.conn_max_lifetime
        cfg.mysql.conn_max_lifetime
  pub mysql_conn_max_idle_time :
      Chosen
        (Reads p duration)
        (env (codes "APP_MYSQL_CONN_MAX_IDLE_TIME"))
        yaml.mysql.conn_max_idle_time
        cfg.mysql.conn_max_idle_time
  pub redis_addr :
      Chosen (Reads p text) (env (codes "APP_REDIS_ADDR")) yaml.redis.addr cfg.redis.addr
  pub redis_password :
      Chosen
        (Reads p text)
        (env (codes "APP_REDIS_PASSWORD"))
        yaml.redis.password
        cfg.redis.password
  pub redis_db : Chosen (Reads p int) (env (codes "APP_REDIS_DB")) yaml.redis.db cfg.redis.db
  pub redis_task_list_ttl :
      Chosen
        (Reads p duration)
        (env (codes "APP_REDIS_TASK_LIST_TTL"))
        yaml.redis.task_list_ttl
        cfg.redis.task_list_ttl
  pub auth_jwt_secret :
      Chosen
        (Reads p text)
        (env (codes "APP_AUTH_JWT_SECRET"))
        yaml.auth.jwt_secret
        cfg.auth.jwt_secret
  pub auth_token_ttl :
      Chosen
        (Reads p duration)
        (env (codes "APP_AUTH_TOKEN_TTL"))
        yaml.auth.token_ttl
        cfg.auth.token_ttl
  pub ratelimit_requests_per_minute :
      Chosen
        (Reads p int)
        (env (codes "APP_RATELIMIT_REQUESTS_PER_MINUTE"))
        yaml.ratelimit.requests_per_minute
        cfg.ratelimit.requests_per_minute
  pub email_failure_threshold :
      Chosen
        (Reads p int)
        (env (codes "APP_EMAIL_FAILURE_THRESHOLD"))
        yaml.email.failure_threshold
        cfg.email.failure_threshold
  pub email_open_timeout :
      Chosen
        (Reads p duration)
        (env (codes "APP_EMAIL_OPEN_TIMEOUT"))
        yaml.email.open_timeout
        cfg.email.open_timeout
  pub email_fail_rate :
      Chosen
        (Reads p float)
        (env (codes "APP_EMAIL_FAIL_RATE"))
        yaml.email.fail_rate
        cfg.email.fail_rate

module _ (p : Parsers) (env : Env) where
  abbrev If : Bool → Type 0 → Type 0 → Type 0
  If true S T = S
  If false S T = T

  unfoldable mutual
    unfolding env_name is_skipped

    Follows : (s : Shape) → Text → Value s → Value s → Type 0
    Follows (leaf k) name v v1 = Chosen (Reads p k) (env name) v v1
    Follows (struct l) name v v1 = FollowsAll l name v v1

    FollowsAll : (l : Layout) → Text → Fields l → Fields l → Type 0
    FollowsAll end prefix v v1 = Unit
    FollowsAll (field tag s l) prefix (v, rest) (v1, rest1) =
        let others = FollowsAll l prefix rest rest1 in
        let own = Follows s (env_name prefix tag) v v1 in If (is_skipped tag) (v1 ≡ v) own × others

  on_failure-ok :
      {A : Type 0} (change : GoError → GoError) (r : Result A) {a : A}
      → on_failure change r ≡ ok a
      → r ≡ ok a
  on_failure-ok change (ok b) h = h
  on_failure-ok change (err e) h = absurd (ground arith)

  ok_inj : {A : Type 0} {a b : A} → ok a ≡ ok b → a ≡ b
  ok_inj h = ground (arith, h)

  in_config-ok :
      (r : Result (Fields config_layout)) (cfg : Config)
      → in_config r ≡ ok cfg
      → (v : Fields config_layout) × (r ≡ ok v) × (config_of v ≡ cfg)
  unfolding in_config
  in_config-ok (ok v) cfg h = (v, refl, ok_inj h)
  in_config-ok (err e) cfg h = absurd (ground arith)

  or_error-ok : {A : Type 0} (e : GoError) (o : Option A) (a : A) → or_error e o ≡ ok a → o ≡ some a
  or_error-ok e none a h = absurd (ground arith)
  or_error-ok e (some b) a h = ground arith

  set_value-Reads :
      (k : Kind) (raw : Text) (x : Leaf k) → set_value p k raw ≡ ok x → Reads p k raw x
  unfolding set_value
  set_value-Reads text raw x h = ground arith
  set_value-Reads int raw x h = or_error-ok _ (parse_int raw) x h
  set_value-Reads duration raw x h = h
  set_value-Reads float raw x h = h
  set_value-Reads bool raw x h = or_error-ok _ (parse_bool raw) x h
  set_value-Reads (unsupported kind) raw x h = absurd (ground arith)

  set_value_of_Reads :
      (k : Kind) (raw : Text) (x : Leaf k) → Reads p k raw x → set_value p k raw ≡ ok x
  unfolding set_value
  set_value_of_Reads text raw x h = ap ok (sym h)
  set_value_of_Reads int raw x h = rw h
  set_value_of_Reads duration raw x h = h
  set_value_of_Reads float raw x h = h
  set_value_of_Reads bool raw x h = rw h
  set_value_of_Reads (unsupported kind) raw x h = absurd h

  setting-ok :
      {A : Type 0} (name : Text) (r : Result A) (a : A) → setting p name r ≡ ok a → r ≡ ok a
  setting-ok name (ok b) a h = h
  setting-ok name (err e) a h = absurd (ground arith)

  override-Chosen :
      (k : Kind) (name : Text) (o : Option Text) (old new : Leaf k)
      → override p k name old o ≡ ok new
      → Chosen (Reads p k) o old new
  unfolding override
  override-Chosen k name none old new h = ground arith
  override-Chosen k name (some raw) old new h =
      set_value-Reads k raw new (setting-ok name (set_value p k raw) new h)

  override_of_Chosen :
      (k : Kind) (name : Text) (o : Option Text) (old new : Leaf k)
      → Chosen (Reads p k) o old new
      → override p k name old o ≡ ok new
  unfolding override
  override_of_Chosen k name none old new h = ap ok (sym h)
  override_of_Chosen k name (some raw) old new h =
      ap (setting p name) (set_value_of_Reads k raw new h)

  -- A pair in a result has the parts of an equal one.
  ok_pair : {A B : Type 0} (x y : A × B) → ok x ≡ ok y → (x.0 ≡ y.0) × (x.1 ≡ y.1)
  ok_pair x y h = let same : x ≡ y = ground (arith, h) in (ap (λ z. z.0) same, ap (λ z. z.1) same)

  mutual
    unfolding override_value Follows

    value-Follows :
        (s : Shape) (name : Text) (v v1 : Value s)
        → override_value p s env name v ≡ ok v1
        → Follows s name v v1
    value-Follows (leaf k) name v v1 h = override-Chosen k name (env name) v v1 h
    value-Follows (struct l) name v v1 h = fields-Follows l name v v1 h

    fields-Follows :
        (l : Layout) (prefix : Text) (v v1 : Fields l)
        → apply_env_overrides p l env prefix v ≡ ok v1
        → FollowsAll l prefix v v1
    fields-Follows end prefix v v1 h = tt
    fields-Follows (field tag s l) prefix (v, rest) (v1, rest1) h =
        elim (Bool-cases (is_skipped tag)) [
          | inl skipped ↦
              let (r, done, same) =
                bind-ok (apply_env_overrides p l env prefix rest) _ (rw skipped at h) in
              let others = fields-Follows l prefix rest r done in
              let (first, second) = ok_pair (v, r) (v1, rest1) same in
              rw skipped (sym first, subst (FollowsAll l prefix rest) second others)
          | inr used ↦
              let (x, set, next) =
                bind-ok (override_value p s env (env_name prefix tag) v) _ (rw used at h) in
              let (r, done, same) = bind-ok (apply_env_overrides p l env prefix rest) _ next in
              let own = value-Follows s (env_name prefix tag) v x set in
              let others = fields-Follows l prefix rest r done in
              let (first, second) = ok_pair (x, r) (v1, rest1) same in
              rw used (
                subst (Follows s (env_name prefix tag) v) first own,
                subst (FollowsAll l prefix rest) second others,
              )
        ]

  mutual
    unfolding override_value Follows

    value_of_Follows :
        (s : Shape) (name : Text) (v v1 : Value s)
        → Follows s name v v1
        → override_value p s env name v ≡ ok v1
    value_of_Follows (leaf k) name v v1 h = override_of_Chosen k name (env name) v v1 h
    value_of_Follows (struct l) name v v1 h = fields_of_Follows l name v v1 h

    fields_of_Follows :
        (l : Layout) (prefix : Text) (v v1 : Fields l)
        → FollowsAll l prefix v v1
        → apply_env_overrides p l env prefix v ≡ ok v1
    fields_of_Follows end prefix v v1 h = refl
    fields_of_Follows (field tag s l) prefix (v, rest) (v1, rest1) (own, others) =
        elim (Bool-cases (is_skipped tag)) [
          | inl skipped ↦
              rw (skipped, fields_of_Follows l prefix rest rest1 others)
                (ap (λ x. ok (x, rest1)) (sym (rw skipped at own)))
          | inr used ↦
              rw
                (
                  used,
                  value_of_Follows s (env_name prefix tag) v v1 (rw used at own),
                  fields_of_Follows l prefix rest rest1 others,
                )
                refl
        ]

  followed-IsConfigured :
      (yaml : Config) (v : Fields config_layout)
      → FollowsAll config_layout (codes "APP") (fields_of yaml) v
      → IsConfigured p env yaml (config_of v)
  unfolding Follows fields_of config_of
  followed-IsConfigured yaml v h = record {
    http_port = h.0.0;
    http_read_timeout = h.0.1.0;
    http_write_timeout = h.0.1.1.0;
    http_shutdown_timeout = h.0.1.1.1.0;
    mysql_dsn = h.1.0.0;
    mysql_max_open_conns = h.1.0.1.0;
    mysql_max_idle_conns = h.1.0.1.1.0;
    mysql_conn_max_lifetime = h.1.0.1.1.1.0;
    mysql_conn_max_idle_time = h.1.0.1.1.1.1.0;
    redis_addr = h.1.1.0.0;
    redis_password = h.1.1.0.1.0;
    redis_db = h.1.1.0.1.1.0;
    redis_task_list_ttl = h.1.1.0.1.1.1.0;
    auth_jwt_secret = h.1.1.1.0.0;
    auth_token_ttl = h.1.1.1.0.1.0;
    ratelimit_requests_per_minute = h.1.1.1.1.0.0;
    email_failure_threshold = h.1.1.1.1.1.0.0;
    email_open_timeout = h.1.1.1.1.1.0.1.0;
    email_fail_rate = h.1.1.1.1.1.0.1.1.0;
  }

  followed_of_IsConfigured :
      (yaml cfg : Config)
      → IsConfigured p env yaml cfg
      → FollowsAll config_layout (codes "APP") (fields_of yaml) (fields_of cfg)
  unfolding Follows fields_of
  followed_of_IsConfigured yaml cfg x = (
    (x.http_port, (x.http_read_timeout, (x.http_write_timeout, (x.http_shutdown_timeout, tt)))),
    (
      (
        x.mysql_dsn,
        (
          x.mysql_max_open_conns,
          (x.mysql_max_idle_conns, (x.mysql_conn_max_lifetime, (x.mysql_conn_max_idle_time, tt))),
        ),
      ),
      (
        (x.redis_addr, (x.redis_password, (x.redis_db, (x.redis_task_list_ttl, tt)))),
        (
          (x.auth_jwt_secret, (x.auth_token_ttl, tt)),
          (
            (x.ratelimit_requests_per_minute, tt),
            ((x.email_failure_threshold, (x.email_open_timeout, (x.email_fail_rate, tt))), tt),
          ),
        ),
      ),
    ),
  )

  -- `Load` succeeds exactly when the file can be read and decoded and every variable that is set can be read as
  -- its field's type; then each field has the value of its variable where that is set, and the value of the
  -- file where it is not.
  pub load-IsConfigured :
      (files : Files) (path : Text) (cfg : Config)
      → (load files p env path ≡ ok cfg) ↔ (
          (content : Text) × (yaml : Config) × (files.read_file path ≡ ok content)
          × (files.unmarshal content ≡ ok yaml)
          × IsConfigured p env yaml cfg)
  unfolding load
  load-IsConfigured files path cfg = (
    λ h.
        let (content, opened, h1) = bind-ok (on_failure _ (files.read_file path)) _ h in
        let (yaml, decoded, h2) = bind-ok (on_failure _ (files.unmarshal content)) _ h1 in
        let (v, walked, same) =
          in_config-ok (apply_env_overrides p config_layout env (codes "APP") (fields_of yaml)) cfg
            (on_failure-ok _ _ h2) in
        let followed = fields-Follows config_layout (codes "APP") (fields_of yaml) v walked in
        (
          content,
          yaml,
          on_failure-ok _ _ opened,
          on_failure-ok _ _ decoded,
          subst (IsConfigured p env yaml) same (followed-IsConfigured yaml v followed),
        ),
    λ (content, yaml, opened, decoded, x).
        let walked =
          fields_of_Follows config_layout (codes "APP") (fields_of yaml) (fields_of cfg)
            (followed_of_IsConfigured yaml cfg x) in
        rw (opened, decoded, walked) (ap ok (config_of-fields_of cfg)),
  )
