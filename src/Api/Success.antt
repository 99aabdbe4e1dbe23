-- ===== src/Api/Success.antt =====
-- When the program exits with 0.
use secunda_test.Base.{
  ◌≡◌, refl, Bool, true, false, ◌&&◌, Option, none, some, [], ◌∷◌, any, inl, inr, arith,
}
use secunda_test.Text.{Text, codes}
use secunda_test.Errors.{GoError, within}
use secunda_test.Errors.Action.{
  Result-cases, Action, Result, ok, err, after, map_error, on_error, ◌>>=◌,
}
use secunda_test.Config.{Parsers, Env}
use secunda_test.Config.Settings.{Files, Config, load}
use secunda_test.Api.{
  Machine, Trace, Call, Entry, call, effect, deferring, sql_close, redis_new, redis_ping,
  redis_close, context_with_timeout, context_cancel, notify_context, notify_stop, wait_for_signal,
  shutdown, log_info, answered, record_call,
}
use secunda_test.Api.Connect.{new, migrate}
use secunda_test.Api.Start.{stop_server, serve, with_redis, with_mysql, run, main, exit}

abbrev pub is_none : Option GoError → Bool
is_none none = true
is_none (some e) = false

-- The server was told to stop, and has let the requests end that it was serving.
abbrev pub is_stop : Call → Bool
is_stop shutdown = true
is_stop _ = false

unfoldable pub is_stopped : Trace → Bool
is_stopped w = any (λ (e : Entry). is_stop e.call && is_none e.answer) w

abbrev WhenOk : (Trace → Type 0) → Result (Unit {0}) × Trace → Type 0
WhenOk P (ok a, w) = P w
WhenOk P (err e, w) = Unit

abbrev Stops : Result (Unit {0}) × Trace → Type 0
Stops = WhenOk (λ w. is_stopped w ≡ true)

after-Stops :
    {A : Type 0} (f : A → Action Trace (Unit {0}))
    → ((a : A) (w : Trace) → Stops (f a w))
    → (o : Result A × Trace) → Stops (after f o)
after-Stops f next (ok a, w) = next a w
after-Stops f next (err e, w) = tt

-- A deferred call comes behind.
deferred-Stops :
    (c : Call) (o : Result (Unit {0}) × Trace)
    → Stops o
    → Stops (let (r, w) = o in (r, record { call = c; answer = none } ∷ w))
unfolding is_stopped
deferred-Stops c (ok a, w) h = ground (arith, h)
deferred-Stops c (err e, w) h = tt

module _ (m : Machine) where
  shutdown_done :
      (w : Trace) (a : Option GoError) → Stops (answered m a (record_call m shutdown w a))
  unfolding is_stopped
  shutdown_done w none = refl
  shutdown_done w (some e) = tt

  logged :
      (w : Trace) (a : Option GoError)
      → Stops (
          after
            (λ _. effect (log_info (codes "server stopped gracefully")))
            (map_error
              (within "graceful shutdown failed")
              (answered m a (record_call m shutdown w a))))
  unfolding is_stopped
  logged w none = refl
  logged w (some e) = tt

  stop_server-Stops : (w : Trace) → Stops (stop_server m w)
  unfolding stop_server call
  stop_server-Stops w = logged w (m.answer shutdown w)

  serve-Stops : (cfg : Config) (w : Trace) → Stops (serve m cfg w)
  unfolding serve
  serve-Stops cfg w =
      after-Stops
        (λ _. effect (log_info (codes "shutdown signal received")) >>= λ _.
          effect (context_with_timeout cfg.http.shutdown_timeout) >>= λ _.
          deferring context_cancel (stop_server m))
        (λ _ w1. deferred-Stops context_cancel (stop_server m _) (stop_server-Stops _))
        (on_error (within "server error") (call m wait_for_signal) _)

  with_redis-Stops : (cfg : Config) (w : Trace) → Stops (with_redis m cfg w)
  unfolding with_redis
  with_redis-Stops cfg w =
      after-Stops
        (λ _. effect (log_info (codes "redis connected")) >>= λ _.
          effect notify_context >>= λ _. deferring notify_stop (serve m cfg))
        (λ _ w1. deferred-Stops notify_stop (serve m cfg _) (serve-Stops cfg _))
        (on_error (within "connect redis") (deferring context_cancel (call m redis_ping)) _)

  with_mysql-Stops : (cfg : Config) (w : Trace) → Stops (with_mysql m cfg w)
  unfolding with_mysql
  with_mysql-Stops cfg w =
      after-Stops
        (λ _. effect (log_info (codes "mysql connected and migrated")) >>= λ _.
          effect (redis_new cfg.redis.addr cfg.redis.password cfg.redis.db) >>= λ _.
          deferring redis_close (with_redis m cfg))
        (λ _ w1. deferred-Stops redis_close (with_redis m cfg _) (with_redis-Stops cfg _))
        (on_error (within "run migrations") (migrate m) w)

  run-Stops :
      (files : Files) (p : Parsers) (env : Env) (path : Text) → Stops (run m files p env path [])
  unfolding run
  run-Stops files p env path = elim (Result-cases (load files p env path)) [
    | inr (e, failed) ↦ rw failed tt
    | inl (cfg, loaded) ↦ rw loaded (
        after-Stops (λ _. deferring sql_close (with_mysql m cfg))
          (λ _ w1. deferred-Stops sql_close (with_mysql m cfg w1) (with_mysql-Stops cfg w1))
          (on_error (within "connect mysql") (new m cfg.mysql) []))
  ]

  exit-stopped :
      (o : Result (Unit {0}) × Trace) → Stops o → (exit m o).0 ≡ 0 → is_stopped (exit m o).1 ≡ true
  exit-stopped (ok a, w) h z = h
  exit-stopped (err e, w) h z = absurd (ground (arith, z))

  -- The program exits with 0 only when `Shutdown` was called and gave no error: the server had let the
  -- requests end that it was serving.
  pub main-stopped :
      (files : Files) (p : Parsers) (env : Env) (path : Text)
      → (main m files p env path).0 ≡ 0
      → is_stopped (main m files p env path).1 ≡ true
  unfolding main
  main-stopped files p env path z =
      exit-stopped (run m files p env path []) (run-Stops files p env path) z
