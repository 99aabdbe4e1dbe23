-- ===== src/Repository/Reachable.antt =====
-- The calls of the repositories that write, as steps of the database; between them time goes by, and any
-- statements to come may fail.
pub mod Invariant
pub mod Growth
use secunda_test.Base.{ℤ, List, [], Option}
use secunda_test.Text.{Text}
use secunda_test.Domain.{Role, User, Task, TaskHistory}
use secunda_test.Database.{Collation, Rows, Counters, Fault, Db}
use secunda_test.Repository.Users
use secunda_test.Repository.Teams.{create_with_owner, add_member}
use secunda_test.Repository.Tasks.{update_with_history}
use secunda_test.Repository.Tasks

-- The tables behind the migrations.
abbrev pub no_rows : Rows
no_rows = record { users = []; teams = []; members = []; tasks = []; history = [] }

abbrev pub no_counters : Counters
no_counters = record { users = 0; teams = 0; tasks = 0; history = 0 }

pub data Step (c : Collation) : Db → Db → Type 0 where
  create_user : (db : Db) (u : User) → Step c db (Users.create c u db).1
  create_team :
      (db : Db) (name : Text) (owner_id : ℤ) → Step c db (create_with_owner name owner_id db).1
  join_team :
      (db : Db) (team_id user_id : ℤ) (role : Role)
      → Step c db (add_member team_id user_id role db).1
  create_task : (db : Db) (t : Task) → Step c db (Tasks.create t db).1
  update_task :
      (db : Db) (t : Task) (history : List TaskHistory)
      → Step c db (update_with_history t history db).1
  elapse :
      (db : Db) (now : ℤ) (faults : List (Option Fault))
      → Step c db (record db { now = now; faults = faults })

pub data Reach (c : Collation) (start : Db) : Db → Type 0 where
  here : Reach c start start
  next : {db db' : Db} → Reach c start db → Step c db db' → Reach c start db'
