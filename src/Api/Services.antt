-- ===== src/Api/Services.antt =====
-- The services as `run` of cmd/api/main.go puts them together, over the database and the rest of the world.
pub mod Invariant
use secunda_test.Base.{ℕ, ℤ, Option, List, none, some}
use secunda_test.Text.{Text}
use secunda_test.Text.Case.{Unicode}
use secunda_test.Errors.{GoError}
use secunda_test.Errors.Action.{Action, Result}
use secunda_test.Domain.{Role, User, Team, TeamMember, Task, TaskHistory, TaskFilter}
use secunda_test.Database.{Collation, Fault, Db}
use secunda_test.Repository.Users
use secunda_test.Repository.Teams
use secunda_test.Repository.Teams.{TeamOrder}
use secunda_test.Repository.Tasks
use secunda_test.Repository.Analytics.{integrity_issues}
use secunda_test.Repository.Analytics.Stats.{Calendar, team_stats}
use secunda_test.Repository.Analytics.Creators.{top_creators}
use secunda_test.Service.Interfaces.{UserRepository, TeamRepository, TaskRepository, Cache, Sender}
use secunda_test.Service.Tokens.{Jwt, TokenManager}
use secunda_test.Service.Auth.{AuthService, Bcrypt, RegisterInput}
use secunda_test.Service.Team.{TeamService, InviteInput}
use secunda_test.Service.Task.{TaskService, Warning, CreateTaskInput}
use secunda_test.Service.Task.Amend.{UpdateTaskInput}
use secunda_test.Service.Auth
use secunda_test.Service.Team
use secunda_test.Service.Task

-- What the services use beside the database, over the world `X` that it keeps.
pub record Surroundings (X : Type 0) : Type 0 where
  pub collation : Collation
  pub team_order : TeamOrder
  pub calendar : Calendar
  pub unicode : Unicode
  pub parse_address : Text → Option GoError
  pub tokens : TokenManager
  pub jwt : Jwt
  pub bcrypt : Bcrypt X
  pub cache : Cache X
  pub mailer : Sender X
  pub warn : Warning → X → X
  pub clock : X → ℕ

abbrev pub World : Type 0 → Type 0
World X = Db × X

module _ {X : Type 0} where
  abbrev with_rest : {A : Type 0} → X → Result A × Db → Result A × World X
  with_rest x (r, db) = (r, (db, x))

  abbrev with_db : {A : Type 0} → Db → Result A × X → Result A × World X
  with_db db (r, x) = (r, (db, x))

  -- A call of a repository, and one of the rest.
  unfoldable pub in_db : {A : Type 0} → Action Db A → Action (World X) A
  in_db m (db, x) = with_rest x (m db)

  unfoldable pub beside : {A : Type 0} → Action X A → Action (World X) A
  beside m (db, x) = with_db db (m x)

  module _ (s : Surroundings X) where
    abbrev pub user_repo : UserRepository (World X)
    user_repo = record {
      create = λ u. in_db (Users.create s.collation u);
      get_by_email = λ email. in_db (Users.get_by_email s.collation email);
      get_by_id = λ id. in_db (Users.get_by_id id);
    }

    abbrev pub team_repo : TeamRepository (World X)
    team_repo = record {
      create_with_owner = λ name owner_id. in_db (Teams.create_with_owner name owner_id);
      list_by_user = λ user_id. in_db (Teams.list_by_user s.team_order user_id);
      get_member = λ team_id user_id. in_db (Teams.get_member team_id user_id);
      add_member = λ team_id user_id role. in_db (Teams.add_member team_id user_id role);
    }

    abbrev pub task_repo : TaskRepository (World X)
    task_repo = record {
      create = λ t. in_db (Tasks.create t);
      get_by_id = λ id. in_db (Tasks.get_by_id id);
      list = λ f. in_db (Tasks.list f);
      update_with_history = λ t hs. in_db (Tasks.update_with_history t hs);
      history = λ task_id. in_db (Tasks.history task_id);
    }

    abbrev pub task_cache : Cache (World X)
    task_cache = record {
      get_tasks = λ key. beside (s.cache.get_tasks key);
      set_tasks = λ key ts. beside (s.cache.set_tasks key ts);
      invalidate_team = λ team_id. beside (s.cache.invalidate_team team_id);
    }

    abbrev pub auth_svc : AuthService (World X)
    auth_svc = record {
      users = user_repo;
      tokens = s.tokens;
      jwt = s.jwt;
      bcrypt = record {
        generate = λ password. beside (s.bcrypt.generate password);
        compare = s.bcrypt.compare;
      };
      parse_address = s.parse_address;
      unicode = s.unicode;
      now = λ w. s.clock w.1;
    }

    abbrev pub team_svc : TeamService (World X)
    team_svc = record {
      teams = team_repo;
      users = user_repo;
      mailer = record { send_invite = λ to label. beside (s.mailer.send_invite to label) };
      unicode = s.unicode;
    }

    abbrev pub task_svc : TaskService (World X)
    task_svc = record {
      tasks = task_repo;
      teams = team_repo;
      cache = task_cache;
      warn = λ warning w. (w.0, s.warn warning w.1);
    }

-- What a handler asks of a service or of the reports.
pub data Request : Type 0 where
  register : RegisterInput → Request
  login : Text → Text → Request
  create_team : Text → ℤ → Request
  list_teams : ℤ → Request
  invite : InviteInput → Request
  create_task : CreateTaskInput → Request
  list_tasks : TaskFilter → ℤ → Request
  update_task : UpdateTaskInput → Request
  task_history : ℤ → ℤ → Request
  get_team_stats get_top_creators get_integrity_issues : Request

module _ {X : Type 0} (s : Surroundings X) where
  -- The world behind a request, whatever the answer.
  unfoldable pub behind : Request → World X → World X
  unfolding in_db
  behind (register input) w = (Auth.register (auth_svc s) input w).1
  behind (login email password) w = (Auth.login (auth_svc s) email password w).1
  behind (create_team name owner_id) w = (Team.create (team_svc s) name owner_id w).1
  behind (list_teams user_id) w = (Team.list_for_user (team_svc s) user_id w).1
  behind (invite input) w = (Team.invite (team_svc s) input w).1
  behind (create_task input) w = (Task.create (task_svc s) input w).1
  behind (list_tasks f actor_id) w = (Task.list (task_svc s) f actor_id w).1
  behind (update_task input) w = (Task.update (task_svc s) input w).1
  behind (task_history task_id actor_id) w = (Task.history (task_svc s) task_id actor_id w).1
  behind get_team_stats w = (in_db (team_stats s.collation s.calendar) w).1
  behind get_top_creators w = (in_db (top_creators s.collation s.calendar) w).1
  behind get_integrity_issues w = (in_db integrity_issues w).1

  -- Requests one after another; in between the rest of the world does what it likes, time goes by, and
  -- the statements to come may fail.
  pub data Served (start : World X) : World X → Type 0 where
    begun : Served start start
    answered : (r : Request) {w : World X} → Served start w → Served start (behind r w)
    elapsed :
        (now : ℤ) (faults : List (Option Fault)) (x : X) {w : World X}
        → Served start w
        → Served start (record (w.0) { now = now; faults = faults }, x)
