-- ===== src/Api/Release.antt =====
-- What `run` has taken, it gives back, last first, on every path.
use Prim.Native.String.{String}
use secunda_test.Base.{
  ◌⊎◌, ◌^◌, ◌*◌, pos, ◌≡◌, refl, ap, ◌∙◌, none, some, List, [], ◌∷◌, Option-cases, Bool-cases, inl,
  inr,
}
use secunda_test.Text.{Text, codes}
use secunda_test.Errors.{GoError, within}
use secunda_test.Errors.Action.{Result-cases, Result, ok, err, after, map_error, on_error, ◌>>=◌}
use secunda_test.Config.{Parsers, Env}
use secunda_test.Config.Settings.{MysqlConfig, Files, Config, load}
use secunda_test.Api.{
  source_new, driver_new, migrate_new, migrate_up, Machine, Trace, Call, call, effect, deferring,
  sql_open, sql_ping, sql_close, redis_new, redis_ping, redis_close, context_with_timeout,
  context_cancel, notify_context, notify_stop, wait_for_signal, shutdown, log_info,
}
use secunda_test.Api.Held.{
  Held, pool, client, timer, signals, push, pop, held, IsSettled, IsNeutral, map_error-held,
  on_error-IsSettled, bind-IsSettled, call-IsSettled, taken-IsSettled,
}
use secunda_test.Api.Connect.{new, migrate, changed, but_no_change}
use secunda_test.Api.Start.{stop_server, serve, with_redis, with_mysql, run}

module _ (m : Machine) where
  log-IsSettled : (t : Text) → IsSettled (effect (log_info t))
  unfolding held
  log-IsSettled t w hs e = e

  stop_server-IsSettled : IsSettled (stop_server m)
  unfolding stop_server
  stop_server-IsSettled =
      bind-IsSettled (λ _. effect (log_info (codes "server stopped gracefully")))
        (λ _. log-IsSettled (codes "server stopped gracefully"))
        (on_error (within "graceful shutdown failed") (call m shutdown))
        (on_error-IsSettled (within "graceful shutdown failed") (call m shutdown)
          (call-IsSettled m shutdown (λ a hs. refl)))

  serve-IsSettled : (cfg : Config) → IsSettled (serve m cfg)
  unfolding serve held
  serve-IsSettled cfg w hs e =
      bind-IsSettled
        (λ _. effect (log_info (codes "shutdown signal received")) >>= λ _.
          effect (context_with_timeout cfg.http.shutdown_timeout) >>= λ _.
          deferring context_cancel (stop_server m))
        (λ _ w1 hs1 e1.
          taken-IsSettled m (context_with_timeout cfg.http.shutdown_timeout) context_cancel timer
            (stop_server m) (λ x. refl) (λ x. refl) stop_server-IsSettled
            (record { call = log_info (codes "shutdown signal received"); answer = none } ∷ w1) hs1
            e1)
        (on_error (within "server error") (call m wait_for_signal))
        (on_error-IsSettled (within "server error") (call m wait_for_signal)
          (call-IsSettled m wait_for_signal (λ a x. refl)))
        _ hs e

  with_redis-IsSettled : (cfg : Config) → IsSettled (with_redis m cfg)
  unfolding with_redis held
  with_redis-IsSettled cfg w hs e =
      let ping = deferring context_cancel (call m redis_ping) in
      bind-IsSettled
        (λ _. effect (log_info (codes "redis connected")) >>= λ _.
          effect notify_context >>= λ _. deferring notify_stop (serve m cfg))
        (λ _ w1 hs1 e1.
          taken-IsSettled m notify_context notify_stop signals (serve m cfg) (λ x. refl) (λ x. refl)
            (serve-IsSettled cfg)
            (record { call = log_info (codes "redis connected"); answer = none } ∷ w1) hs1 e1)
        (effect (context_with_timeout (pos (5 * 10 ^ 9))) >>= λ _.
          on_error (within "connect redis") ping)
        (λ w1 hs1 e1.
          map_error-held (within "connect redis") (ping _)
          ∙ taken-IsSettled m (context_with_timeout (pos (5 * 10 ^ 9))) context_cancel timer
              (call m redis_ping) (λ x. refl) (λ x. refl)
              (call-IsSettled m redis_ping (λ a x. refl)) w1 hs1 e1)
        w hs e

  but_no_change-held : (o : Result (Unit {0}) × Trace) → held (but_no_change m o).1 ≡ held o.1
  but_no_change-held (ok a, w) = refl
  but_no_change-held (err e, w) = elim (Bool-cases (m.is_no_change e)) [
    | inl same ↦ rw same refl
    | inr other ↦ rw other refl
  ]

  step-IsSettled :
      (doing : String) (c : Call) → IsNeutral m c → IsSettled (on_error (within doing) (call m c))
  step-IsSettled doing c neutral =
      on_error-IsSettled (within doing) (call m c) (call-IsSettled m c neutral)

  migrate-IsSettled : IsSettled (migrate m)
  unfolding migrate
  migrate-IsSettled =
      let up = on_error (within "migrate up") (changed m (call m migrate_up)) in
      let instance_up = on_error (within "migrate instance") (call m migrate_new) >>= λ _. up in
      let driver_up = on_error (within "migrate driver") (call m driver_new) >>= λ _. instance_up in
      let up_settled =
        on_error-IsSettled (within "migrate up") (changed m (call m migrate_up)) (λ w hs e.
          but_no_change-held (call m migrate_up w)
          ∙ call-IsSettled m migrate_up (λ a x. refl) w hs e) in
      bind-IsSettled (λ _. driver_up)
        (λ _.
          bind-IsSettled (λ _. instance_up)
            (λ _.
              bind-IsSettled (λ _. up) (λ _. up_settled) _
                (step-IsSettled "migrate instance" migrate_new (λ a x. refl)))
            _ (step-IsSettled "migrate driver" driver_new (λ a x. refl)))
        _ (step-IsSettled "migrations source" source_new (λ a x. refl))

  with_mysql-IsSettled : (cfg : Config) → IsSettled (with_mysql m cfg)
  unfolding with_mysql held
  with_mysql-IsSettled cfg w hs e =
      let connect = redis_new cfg.redis.addr cfg.redis.password cfg.redis.db in
      bind-IsSettled
        (λ _. effect (log_info (codes "mysql connected and migrated")) >>= λ _.
          effect connect >>= λ _. deferring redis_close (with_redis m cfg))
        (λ _ w1 hs1 e1.
          taken-IsSettled m connect redis_close client (with_redis m cfg) (λ x. refl) (λ x. refl)
            (with_redis-IsSettled cfg)
            (record { call = log_info (codes "mysql connected and migrated"); answer = none } ∷ w1)
            hs1 e1)
        (on_error (within "run migrations") (migrate m))
        (on_error-IsSettled (within "run migrations") (migrate m) migrate-IsSettled) w hs e

  -- `New` leaves the pool open when the ping fails.
  abbrev AfterNew : List Held → Result (Unit {0}) × Trace → Type 0
  AfterNew hs (ok a, w) = held w ≡ some (pool ∷ hs)
  AfterNew hs (err e, w) =
      (held w ≡ some hs)
      ⊎ ((held w ≡ some (pool ∷ hs)) × ((x : GoError) × (e ≡ within "ping mysql" x)))

  pinged :
      (w : Trace) (hs : List Held)
      → held w ≡ some (pool ∷ hs)
      → AfterNew hs (on_error (within "ping mysql") (call m sql_ping) w)
  unfolding call held
  pinged w hs e = elim (Option-cases (m.answer sql_ping w)) [
    | inr (x, failed) ↦ rw failed (inr (e, (x, refl)))
    | inl alive ↦ rw alive e
  ]

  new-AfterNew :
      (cfg : MysqlConfig) (w : Trace) (hs : List Held)
      → held w ≡ some hs
      → AfterNew hs (new m cfg w)
  unfolding new held call
  new-AfterNew cfg w hs e = elim (Option-cases (m.answer (sql_open cfg.dsn) w)) [
    | inr (x, failed) ↦ rw failed (inl e)
    | inl reached ↦ rw reached (pinged _ hs (ap (push pool) e))
  ]

  -- What a run may leave.
  abbrev pub IsReleased : Result (Unit {0}) × Trace → Type 0
  IsReleased (ok a, w) = held w ≡ some []
  IsReleased (err e, w) =
      (held w ≡ some [])
      ⊎ ((held w ≡ some (pool ∷ []))
          × ((x : GoError) × (e ≡ within "connect mysql" (within "ping mysql" x))))

  released : (o : Result (Unit {0}) × Trace) → held o.1 ≡ some [] → IsReleased o
  released (ok a, w) h = h
  released (err e, w) h = inl h

  opened-IsReleased :
      (cfg : Config) (o : Result (Unit {0}) × Trace)
      → AfterNew [] o
      → IsReleased (
          after
            (λ _. deferring sql_close (with_mysql m cfg))
            (map_error (within "connect mysql") o))
  unfolding held
  opened-IsReleased cfg (ok a, w) h =
      released (deferring sql_close (with_mysql m cfg) w)
        (ap (pop pool) (with_mysql-IsSettled cfg w (pool ∷ []) h))
  opened-IsReleased cfg (err e, w) (inl h) = inl h
  opened-IsReleased cfg (err e, w) (inr (h, (x, same))) =
      inr (h, (x, ap (within "connect mysql") same))

  -- Whatever the libraries answer, a run that ends has closed the Redis client and the connections to MySQL,
  -- cancelled its contexts and its signal handler, each taken last given back first; only if MySQL
  -- does not answer the first ping, the pool stays open, and the error says so.
  pub run-IsReleased :
      (files : Files) (p : Parsers) (env : Env) (config_path : Text)
      → IsReleased (run m files p env config_path [])
  unfolding run held
  run-IsReleased files p env config_path = elim (Result-cases (load files p env config_path)) [
    | inr (e, failed) ↦ rw failed (inl refl)
    | inl (cfg, loaded) ↦
        rw loaded (opened-IsReleased cfg (new m cfg.mysql []) (new-AfterNew cfg.mysql [] [] refl))
  ]
