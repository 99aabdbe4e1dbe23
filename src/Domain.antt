-- ===== src/Domain.antt =====
-- internal/domain/models.go: the records that the layers exchange, with the tests on roles and
-- statuses. An `int64` is an integer; its range is stated where it matters. A `time.Time` is a number
-- of Unix seconds, the resolution of the TIMESTAMP columns. `*T` is `Option T`.
use secunda_test.Base.{◌≡◌, Bool, true, ◌||◌, ◌↔◌, ◌⊎◌, Option, ℤ, negsuc, arith}
use secunda_test.Text.{Text, codes, text_eq, text_eq_iff}

-- `type Role string`
abbrev pub Role : Type 0
Role = Text

abbrev pub role_owner : Role
role_owner = codes "owner"

abbrev pub role_admin : Role
role_admin = codes "admin"

abbrev pub role_member : Role
role_member = codes "member"

unfoldable pub role_valid : Role → Bool
role_valid r = text_eq r role_owner || text_eq r role_admin || text_eq r role_member

unfoldable pub can_manage_members : Role → Bool
can_manage_members r = text_eq r role_owner || text_eq r role_admin

-- `type TaskStatus string`
abbrev pub TaskStatus : Type 0
TaskStatus = Text

abbrev pub status_todo : TaskStatus
status_todo = codes "todo"

abbrev pub status_in_progress : TaskStatus
status_in_progress = codes "in_progress"

abbrev pub status_done : TaskStatus
status_done = codes "done"

unfoldable pub status_valid : TaskStatus → Bool
status_valid s = text_eq s status_todo || text_eq s status_in_progress || text_eq s status_done

pub record User : Type 0 where
  pub id : ℤ
  pub email : Text
  pub name : Text
  pub password_hash : Text
  pub created_at : ℤ

pub record Team : Type 0 where
  pub id : ℤ
  pub name : Text
  pub created_by : ℤ
  pub created_at : ℤ

pub record TeamMember : Type 0 where
  pub team_id : ℤ
  pub user_id : ℤ
  pub role : Role
  pub joined_at : ℤ

pub record Task : Type 0 where
  pub id : ℤ
  pub team_id : ℤ
  pub title : Text
  pub description : Text
  pub status : TaskStatus
  pub assignee_id : Option ℤ
  pub created_by : ℤ
  pub created_at : ℤ
  pub updated_at : ℤ

pub record TaskHistory : Type 0 where
  pub id : ℤ
  pub task_id : ℤ
  pub changed_by : ℤ
  pub field : Text
  pub old_value : Option Text
  pub new_value : Option Text
  pub changed_at : ℤ

-- A row of task_comments, which no code reads or writes yet.
pub record TaskComment : Type 0 where
  pub id : ℤ
  pub task_id : ℤ
  pub user_id : ℤ
  pub body : Text
  pub created_at : ℤ

pub record TaskFilter : Type 0 where
  pub team_id : ℤ
  pub status : Option TaskStatus
  pub assignee_id : Option ℤ
  pub limit : ℤ
  pub offset : ℤ

-- The zero `time.Time`, the first second of year 1.
abbrev pub zero_time : ℤ
zero_time = negsuc 62135596799

-- The constants are the only valid statuses.
pub status_valid_iff :
    (s : TaskStatus)
    → (status_valid s ≡ true) ↔ (((s ≡ status_todo) ⊎ (s ≡ status_in_progress)) ⊎ (s ≡ status_done))
unfolding status_valid
status_valid_iff s =
    ground (
      arith,
      text_eq_iff s status_todo,
      text_eq_iff s status_in_progress,
      text_eq_iff s status_done,
    )

-- The rows of the analytics reports.
pub record TeamStats : Type 0 where
  pub team_id : ℤ
  pub team_name : Text
  pub member_count : ℤ
  pub done_last_7_days : ℤ

pub record TopCreator : Type 0 where
  pub team_id : ℤ
  pub team_name : Text
  pub user_id : ℤ
  pub user_name : Text
  pub task_count : ℤ
  pub rank : ℤ

pub record IntegrityIssue : Type 0 where
  pub task_id : ℤ
  pub task_title : Text
  pub team_id : ℤ
  pub assignee_id : ℤ
