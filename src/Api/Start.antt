-- ===== src/Api/Start.antt =====
-- `run` and `main` of cmd/api/main.go: each function below is `run` from a `defer` on.
use secunda_test.Base.{◌∷◌, ◌^◌, ℕ, ◌++◌, ◌*◌, pos}
use secunda_test.Text.{Text, codes}
use secunda_test.Text.Decimal.{format_int}
use secunda_test.Errors.{within}
use secunda_test.Errors.Action.{Action, Result, ok, err, lift, on_error, ◌>>=◌, ◌>>◌}
use secunda_test.Config.{Parsers, Env}
use secunda_test.Config.Settings.{Files, Config, load}
use secunda_test.Api.{
  none, [], Machine, Trace, Wiring, call, effect, deferring, sql_close, redis_new, redis_ping,
  redis_close, context_with_timeout, context_cancel, notify_context, notify_stop, listen,
  wait_for_signal, shutdown, log_info, log_fatal,
}
use secunda_test.Api.Connect.{new, migrate}

unfoldable pub wiring : Config → Wiring
wiring cfg = record {
  task_list_ttl = cfg.redis.task_list_ttl;
  email = cfg.email;
  jwt_secret = cfg.auth.jwt_secret;
  token_ttl = cfg.auth.token_ttl;
  rate_limit_per_min = cfg.ratelimit.requests_per_minute;
}

module _ (m : Machine) where
  unfoldable pub stop_server : Action Trace (Unit {0})
  unfolding call
  stop_server = do
    on_error (within "graceful shutdown failed") (call m shutdown)
    effect (log_info (codes "server stopped gracefully"))

  unfoldable pub serve : Config → Action Trace (Unit {0})
  unfolding call wiring format_int stop_server
  serve cfg = do
    effect (
        listen (codes ":" ++ format_int cfg.http.port) cfg.http.read_timeout cfg.http.write_timeout
          (wiring cfg))
    on_error (within "server error") (call m wait_for_signal)
    effect (log_info (codes "shutdown signal received"))
    effect (context_with_timeout cfg.http.shutdown_timeout)
    deferring context_cancel stop_server

  -- Both branches of the ping cancel its context.
  unfoldable pub with_redis : Config → Action Trace (Unit {0})
  unfolding call serve
  with_redis cfg = do
    effect (context_with_timeout (pos (5 * 10 ^ 9)))
    on_error (within "connect redis") (deferring context_cancel (call m redis_ping))
    effect (log_info (codes "redis connected"))
    effect notify_context
    deferring notify_stop (serve cfg)

  unfoldable pub with_mysql : Config → Action Trace (Unit {0})
  unfolding migrate with_redis
  with_mysql cfg = do
    on_error (within "run migrations") (migrate m)
    effect (log_info (codes "mysql connected and migrated"))
    effect (redis_new cfg.redis.addr cfg.redis.password cfg.redis.db)
    deferring redis_close (with_redis cfg)

  unfoldable pub run : Files → Parsers → Env → Text → Action Trace (Unit {0})
  unfolding load new with_mysql
  run files p env config_path = do
    cfg ← on_error (within "load config") (lift (load files p env config_path))
    on_error (within "connect mysql") (new m cfg.mysql)
    deferring sql_close (with_mysql cfg)

  -- An error is logged, and the exit code is 1.
  abbrev pub exit : Result (Unit {0}) × Trace → ℕ × Trace
  exit (ok a, w) = (0, w)
  exit (err e, w) = (1, record { call = log_fatal e; answer = none } ∷ w)

  unfoldable pub main : Files → Parsers → Env → Text → ℕ × Trace
  unfolding run
  main files p env config_path = exit (run files p env config_path [])
