-- ===== src/Api.antt =====
-- cmd/api/main.go. A library call is recorded in a trace with what it answered, the newest first; what it
-- answers is a parameter, which may look at the trace. A run that is neither signalled nor fails does
-- not end, and is not followed here.
pub mod Connect
pub mod Start
pub mod Held
pub mod Release
pub mod Success
pub mod Services
use secunda_test.Base.{◌≡◌, Bool, true, false, Option, none, some, List, [], ◌∷◌, ℤ}
use secunda_test.Text.{Text}
use secunda_test.Errors.{GoError}
use secunda_test.Errors.Action.{Action, Result, ok, err}
use secunda_test.Config.Settings.{EmailConfig}

-- What the services, the cache, the tokens and the router get of the configuration.
pub record Wiring : Type 0 where
  pub task_list_ttl : ℤ
  pub email : EmailConfig
  pub jwt_secret : Text
  pub token_ttl : ℤ
  pub rate_limit_per_min : ℤ

pub data Call : Type 0 where
  sql_open : Text → Call
  set_max_open_conns set_max_idle_conns set_conn_max_lifetime set_conn_max_idle_time : ℤ → Call
  sql_ping sql_close : Call
  source_new driver_new migrate_new migrate_up : Call
  redis_new : Text → Text → ℤ → Call
  redis_ping redis_close : Call
  context_with_timeout : ℤ → Call
  context_cancel : Call
  notify_context notify_stop : Call
  listen : Text → ℤ → ℤ → Wiring → Call
  wait_for_signal : Call
  shutdown : Call
  log_info : Text → Call
  log_fatal : GoError → Call

pub record Entry : Type 0 where
  pub call : Call
  pub answer : Option GoError

abbrev pub Trace : Type 0
Trace = List Entry

-- The libraries and the outside world. The answer to `wait_for_signal` is the error that ListenAndServe
-- gave before a signal came, if it gave one; when both are ready the runtime chooses.
pub record Machine : Type 0 where
  pub answer : Call → Trace → Option GoError
  pub is_no_change : GoError → Bool

module _ (m : Machine) where
  abbrev pub answered : Option GoError → Trace → Result (Unit {0}) × Trace
  answered none w = (ok tt, w)
  answered (some e) w = (err e, w)

  abbrev pub record_call : Call → Trace → Option GoError → Trace
  record_call c w a = record { call = c; answer = a } ∷ w

  -- A call that may fail.
  unfoldable pub call : Call → Action Trace (Unit {0})
  call c w = answered (m.answer c w) (record_call c w (m.answer c w))

-- A call without an error.
abbrev pub effect : Call → Action Trace (Unit {0})
effect c w = (ok tt, record { call = c; answer = none } ∷ w)

-- `defer`: the call behind the rest of the function, whatever that answers.
abbrev pub deferring : {A : Type 0} → Call → Action Trace A → Action Trace A
deferring c rest w = let (r, w') = rest w in (r, record { call = c; answer = none } ∷ w')
