-- ===== src/Service/Interfaces.antt =====
-- internal/service/interfaces.go, the `Cache` of internal/cache/cache.go and the `Sender` of
-- internal/email/email.go, over the world `W` that their implementations keep. A `context.Context` only
-- makes a call fail earlier, which an `Action` may do anyway.
use secunda_test.Base.{ℤ, List, Option}
use secunda_test.Text.{Text}
use secunda_test.Domain.{Role, User, Team, TeamMember, Task, TaskHistory, TaskFilter}
use secunda_test.Errors.Action.{Action}

pub record UserRepository (W : Type 0) : Type 0 where
  pub create : User → Action W ℤ
  pub get_by_email : Text → Action W User
  pub get_by_id : ℤ → Action W User

pub record TeamRepository (W : Type 0) : Type 0 where
  pub create_with_owner : Text → ℤ → Action W ℤ
  pub list_by_user : ℤ → Action W (List Team)
  pub get_member : ℤ → ℤ → Action W TeamMember
  pub add_member : ℤ → ℤ → Role → Action W (Unit {0})

pub record TaskRepository (W : Type 0) : Type 0 where
  pub create : Task → Action W ℤ
  pub get_by_id : ℤ → Action W Task
  pub list : TaskFilter → Action W (List Task)
  pub update_with_history : Task → List TaskHistory → Action W (Unit {0})
  pub history : ℤ → Action W (List TaskHistory)

-- `GetTasks` answers `none` where the source's second result is false.
pub record Cache (W : Type 0) : Type 0 where
  pub get_tasks : Text → Action W (Option (List Task))
  pub set_tasks : Text → List Task → Action W (Unit {0})
  pub invalidate_team : ℤ → Action W (Unit {0})

pub record Sender (W : Type 0) : Type 0 where
  pub send_invite : Text → Text → Action W (Unit {0})
