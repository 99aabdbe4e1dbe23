-- ===== src/Api/Connect.antt =====
-- internal/database/mysql.go: `New` and `Migrate`.
use secunda_test.Base.{if◌then◌else◌}
use secunda_test.Errors.{within}
use secunda_test.Errors.Action.{Action, Result, ok, err, on_error, ◌>>◌}
use secunda_test.Config.Settings.{MysqlConfig}
use secunda_test.Api.{
  Machine, Trace, call, effect, sql_open, set_max_open_conns, set_max_idle_conns,
  set_conn_max_lifetime, set_conn_max_idle_time, sql_ping, source_new, driver_new, migrate_new,
  migrate_up,
}

module _ (m : Machine) where
  -- `New`
  unfoldable pub new : MysqlConfig → Action Trace (Unit {0})
  unfolding call
  new cfg = do
    on_error (within "open mysql") (call m (sql_open cfg.dsn))
    effect (set_max_open_conns cfg.max_open_conns)
    effect (set_max_idle_conns cfg.max_idle_conns)
    effect (set_conn_max_lifetime cfg.conn_max_lifetime)
    effect (set_conn_max_idle_time cfg.conn_max_idle_time)
    on_error (within "ping mysql") (call m sql_ping)

  -- `err != nil && err != migrate.ErrNoChange`
  abbrev pub but_no_change : Result (Unit {0}) × Trace → Result (Unit {0}) × Trace
  but_no_change (ok a, w) = (ok a, w)
  but_no_change (err e, w) = if m.is_no_change e then (ok tt, w) else (err e, w)

  abbrev pub changed : Action Trace (Unit {0}) → Action Trace (Unit {0})
  changed step w = but_no_change (step w)

  unfoldable pub migrate : Action Trace (Unit {0})
  unfolding call
  migrate = do
    on_error (within "migrations source") (call m source_new)
    on_error (within "migrate driver") (call m driver_new)
    on_error (within "migrate instance") (call m migrate_new)
    on_error (within "migrate up") (changed (call m migrate_up))
