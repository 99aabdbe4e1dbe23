-- ===== src/Http/Response.antt =====
-- internal/transport/http/response.go. A payload is the value that is handed to the JSON encoder.
pub mod Laws
pub mod Table
use secunda_test.Base.{ℕ, ◌≡◌, Bool, ◌||◌, Option, none, some, List, leb, if◌then◌else◌}
use secunda_test.Text.{Text, codes}
use secunda_test.Errors.{
  GoError, not_found, conflict, invalid_credential, forbidden, validation, unauthorized,
  email_failed, is_error, message,
}
use secunda_test.Errors.Action.{Result, ok, err}
use secunda_test.Domain.{User, Team, Task, TaskHistory, TeamStats, TopCreator, IntegrityIssue}

-- `no_payload` is a nil value, for which nothing is encoded; `error_body` is `errorBody`.
pub data Payload : Type 0 where
  no_payload : Payload
  error_body : Text → Payload
  user_body : User → Payload
  session_body : Text → User → Payload
  team_body : Team → Payload
  teams_body : List Team → Payload
  task_body : Task → Payload
  tasks_body : List Task → Payload
  history_body : List TaskHistory → Payload
  stats_body : List TeamStats → Payload
  creators_body : List TopCreator → Payload
  issues_body : List IntegrityIssue → Payload
  health_body : Payload

pub record Response : Type 0 where
  pub status : ℕ
  pub payload : Payload
  pub retry_after : Option ℕ

-- What a handler ends with: a response, or a panic.
pub data Reply : Type 0 where
  respond : Response → Reply
  panicked : Reply

-- `writeJSON`
unfoldable pub write_json : ℕ → Payload → Reply
write_json status payload =
    respond (record { status = status; payload = payload; retry_after = none })

-- The `switch` of `writeError`.
unfoldable pub error_status : GoError → ℕ
error_status e =
    if is_error e validation
    then 400
    else if is_error e invalid_credential || is_error e unauthorized
    then 401
    else if is_error e forbidden
    then 403
    else if is_error e not_found
    then 404
    else if is_error e conflict
    then 409
    else if is_error e email_failed
    then 202
    else 500

-- A logger that may be nil: a call of its method panics then.
abbrev pub Logger : Type 0 → Type 0
Logger W = Option (GoError → W → W)

module _ {W : Type 0} where
  abbrev pub log_internal : Logger W → GoError → W → Reply × W
  log_internal none e w = (panicked, w)
  log_internal (some log) e w =
      (write_json 500 (error_body (codes "internal server error")), log e w)

  -- `writeError`
  unfoldable pub write_error : Logger W → GoError → W → Reply × W
  unfolding error_status write_json
  write_error log e w =
      if leb 500 (error_status e)
      then log_internal log e w
      else (write_json (error_status e) (error_body (message e)), w)

  -- `if err != nil { writeError(…); return }`, and `writeJSON` behind it.
  unfoldable pub answer : {A : Type 0} → Logger W → ℕ → (A → Payload) → Result A × W → Reply × W
  unfolding write_error
  answer log status payload (ok a, w) = (write_json status (payload a), w)
  answer log status payload (err e, w) = write_error log e w
