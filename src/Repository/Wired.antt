-- ===== src/Repository/Wired.antt =====
-- The repositories as what the services ask for: cmd/api/main.go hands these to their constructors.
use secunda_test.Database.{Collation, Db}
use secunda_test.Service.Interfaces.{UserRepository, TeamRepository, TaskRepository}
use secunda_test.Repository.Users
use secunda_test.Repository.Teams
use secunda_test.Repository.Teams.{TeamOrder}
use secunda_test.Repository.Tasks

-- `repository.NewUserRepo`
abbrev pub user_repository : Collation → UserRepository Db
user_repository c = record {
  create = Users.create c;
  get_by_email = Users.get_by_email c;
  get_by_id = Users.get_by_id;
}

-- `repository.NewTeamRepo`
abbrev pub team_repository : TeamOrder → TeamRepository Db
team_repository order = record {
  create_with_owner = Teams.create_with_owner;
  list_by_user = Teams.list_by_user order;
  get_member = Teams.get_member;
  add_member = Teams.add_member;
}

-- `repository.NewTaskRepo`
abbrev pub task_repository : TaskRepository Db
task_repository = record {
  create = Tasks.create;
  get_by_id = Tasks.get_by_id;
  list = Tasks.list;
  update_with_history = Tasks.update_with_history;
  history = Tasks.history;
}
