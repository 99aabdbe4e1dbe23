-- ===== src/Database.antt =====
-- The database that the repositories talk to: the tables of migrations/000001_init.up.sql, and what one
-- statement does to them. A statement may fail for outside reasons, in two ways: the server has not
-- done it, or it has and the connection was lost before the answer. A list of faults, one place for each
-- statement to come, says which do.
pub mod Statement
pub mod Laws
pub mod Preservation
use secunda_test.Base.{
  ℕ, ◌≡◌, refl, Bool, true, false, ◌&&◌, ◌||◌, Option, none, some, List, [], ℤ, ◌==ℤ◌, ◌==◌, any,
}
use secunda_test.Text.{Text}
use secunda_test.Errors.{GoError, sentinel, wrapped, mysql, field_error, other}
use secunda_test.Domain.{User, Team, TeamMember, Task, TaskHistory}

-- What a column with the server's collation calls the same text: `utf8mb4` compares without regard to case
-- and accents.
pub record Collation : Type 0 where
  pub same : Text → Text → Bool
  pub same_refl : (a : Text) → same a a ≡ true
  pub same_sym : (a b : Text) → same a b ≡ true → same b a ≡ true
  pub same_trans : (a b c : Text) → same a b ≡ true → same b c ≡ true → same a c ≡ true

pub record Rows : Type 0 where
  pub users : List User
  pub teams : List Team
  pub members : List TeamMember
  pub tasks : List Task
  pub history : List TaskHistory

-- The AUTO_INCREMENT counters, which a rollback does not take back.
pub record Counters : Type 0 where
  pub users : ℕ
  pub teams : ℕ
  pub tasks : ℕ
  pub history : ℕ

pub data Fault : Type 0 where
  refused unacknowledged : Text → Fault

pub record Db : Type 0 where
  pub rows : Rows
  pub counters : Counters
  pub now : ℤ
  pub faults : List (Option Fault)

abbrev pub has_user : Rows → ℤ → Bool
has_user r id = any (λ (u : User). u.id ==ℤ id) r.users

abbrev pub has_team : Rows → ℤ → Bool
has_team r id = any (λ (t : Team). t.id ==ℤ id) r.teams

abbrev pub has_task : Rows → ℤ → Bool
has_task r id = any (λ (t : Task). t.id ==ℤ id) r.tasks

-- ER_DUP_ENTRY, ER_NO_REFERENCED_ROW_2, ER_DATA_TOO_LONG, WARN_DATA_TRUNCATED and ER_PARSE_ERROR.
abbrev pub duplicate : GoError
duplicate = mysql 1062 []

abbrev pub no_reference : GoError
no_reference = mysql 1452 []

abbrev pub too_long : GoError
too_long = mysql 1406 []

abbrev pub not_in_enum : GoError
not_in_enum = mysql 1265 []

abbrev pub bad_syntax : GoError
bad_syntax = mysql 1064 []

-- `database.IsDuplicate`: `errors.As` looks behind every wrapping.
unfoldable pub is_duplicate : GoError → Bool
is_duplicate (sentinel s) = false
is_duplicate (wrapped before e after) = is_duplicate e
is_duplicate (mysql number m) = number == 1062
is_duplicate (field_error m) = false
is_duplicate (other m) = false
