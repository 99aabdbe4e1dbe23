-- ===== src/Email.antt =====
-- internal/email/email.go. The circuit breaker of sony/gobreaker, the random numbers and the log are
-- parameters.
pub mod Delivery
use secunda_test.Base.{
  ℤ, pos, negsuc, ◌-◌, ℕ, Bool, true, false, ◌||◌, ◌∷◌, [], if◌then◌else◌, List, ◌==◌, leb, ◌%◌,
  ◌^◌,
}
use secunda_test.Text.{Text}
use secunda_test.Errors.{
  GoError, sentinel, service_unavailable, open_state, too_many_requests, is_error,
}
use secunda_test.Errors.Action.{Action, Result, ok, err, map_error}
use secunda_test.Service.Interfaces.{Sender}

-- `CircuitBreaker.Execute`, for requests whose value is not used.
pub record Breaker (W : Type 0) : Type 0 where
  pub execute : Action W (Unit {0}) → Action W (Unit {0})

-- `rand.Float64() < m.failRate`, and `m.log.Info("invite email sent", …)`.
pub record MockClient (W : Type 0) : Type 0 where
  pub fails : W → Bool × W
  pub log_sent : Text → Text → W → W

pub record EmailService (W : Type 0) : Type 0 where
  pub client : MockClient W
  pub breaker : Breaker W

-- The conversion `uint32` of an `int`, which wraps around.
abbrev pub uint32 : ℤ → ℕ
uint32 (pos n) = n % 2 ^ 32
uint32 (negsuc n) = 2 ^ 32 - 1 - n % 2 ^ 32

-- `threshold` of `NewService`: `uint32(cfg.FailureThreshold)`, with 3 for 0.
unfoldable pub threshold_of : ℤ → ℕ
threshold_of configured = if uint32 configured == 0 then 3 else uint32 configured

-- `ReadyToTrip`, on `ConsecutiveFailures`.
unfoldable pub ready_to_trip : ℤ → ℕ → Bool
unfolding threshold_of
ready_to_trip configured failures = leb (threshold_of configured) failures

-- What `SendInvite` returns for an error of `Execute`.
unfoldable pub breaker_error : GoError → GoError
unfolding is_error
breaker_error e =
    if is_error e open_state || is_error e too_many_requests
    then sentinel service_unavailable
    else e

module _ {W : Type 0} where
  abbrev pub sent_or_failed : MockClient W → Text → Text → Bool × W → Result (Unit {0}) × W
  sent_or_failed m to team_name (true, w) = (err (sentinel service_unavailable), w)
  sent_or_failed m to team_name (false, w) = (ok tt, m.log_sent to team_name w)

  -- `MockClient.send`
  unfoldable pub send : MockClient W → Text → Text → Action W (Unit {0})
  send m to team_name w = sent_or_failed m to team_name (m.fails w)

  -- `Service.SendInvite`
  unfoldable pub send_invite : EmailService W → Text → Text → Action W (Unit {0})
  unfolding send breaker_error
  send_invite s to team_name w =
      map_error breaker_error (s.breaker.execute (send s.client to team_name) w)

  abbrev pub email_sender : EmailService W → Sender W
  email_sender s = record { send_invite = send_invite s }
