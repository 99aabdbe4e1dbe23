-- ===== src/Tests/Requests.antt =====
-- The handlers over the services, the repositories and a small database.
use secunda_test.Http.Parsing.Reading.{IsRead}
use secunda_test.Base.{Option, none, some, [], ◌≡◌, ◌⊎◌, pos, true, arith, if◌then◌else◌}
use secunda_test.Text.{codes, Text, is_empty}
use secunda_test.Errors.{GoError, wrapped, other}
use secunda_test.Errors.Action.{fail}
use secunda_test.Database.{Db}
use secunda_test.Domain.{role_admin, TaskFilter}
use secunda_test.Cache.Keys.Laws.{IsProper}
use secunda_test.Service.Task
use secunda_test.Http.Response.{answer, tasks_body}
use secunda_test.Http.Response.Laws.{IsKnownError}
use secunda_test.Http.Requests.{Request, InviteRequest, UpdateTaskRequest}
use secunda_test.Http.Handlers.{Handler, list_tasks}
use secunda_test.Http.Handlers.Statuses.{IsRefused, list_tasks-IsProper}
use secunda_test.Tests.Accounts.{auth}
use secunda_test.Tests.Fixtures.{db, task_service, team_service_with, broken_mailer, running}

abbrev pub read_as : {A : Type 0} → A → Text → Option A
read_as req body = if is_empty body then none else some req

abbrev invitation : InviteRequest
invitation = record { email = codes " EVE@x.org"; role = role_admin }

abbrev change : UpdateTaskRequest
change = record {
  title = some (codes "steal");
  description = none;
  status = none;
  assignee_id = none;
  unset_assign = true;
}

abbrev pub handler : Handler Db
handler = record {
  auth = auth;
  teams = team_service_with broken_mailer;
  tasks = task_service;
  analytics = record {
    team_stats = fail (other (codes "later"));
    top_creators = fail (other (codes "later"));
    integrity_issues = fail (other (codes "later"));
  };
  log = some (λ e w. w);
  decoders = record {
    register = λ body. none;
    login = λ body. none;
    create_team = λ body. none;
    invite = read_as invitation;
    create_task = λ body. none;
    update_task = read_as change;
  };
}

abbrev pub empty_request : Request
empty_request = record {
  method = codes "GET";
  pattern = none;
  url_path = codes "/";
  authorization = [];
  id_param = codes "1";
  query = record {
    team_id = codes "1";
    status = codes "done";
    assignee_id = [];
    limit = [];
    offset = codes "-4";
  };
  body = [];
  user = some (pos 1);
}

-- A database error that mentions a table.
abbrev leak : GoError
leak = wrapped (codes "insert task: ") (other (codes "table tasks is full")) []

unknown_leak : ¬ (IsKnownError leak)
unfolding running
unknown_leak = λ k. ground (arith, k)

list_tasks-IsProper_example :
    (IsRefused (list_tasks handler empty_request db) db
      × ¬ ((f : TaskFilter) × IsRead empty_request.query f))
    ⊎ ((f : TaskFilter) × IsRead empty_request.query f
        × IsProper f
        × (list_tasks handler empty_request db
            ≡ answer handler.log 200 tasks_body (Task.list task_service f (pos 1) db)))
list_tasks-IsProper_example = list_tasks-IsProper handler empty_request db

abbrev eves_request : Request
eves_request = record empty_request { body = codes "{}"; user = some (pos 3) }

abbrev anns_request : Request
anns_request = record empty_request { body = codes "{}" }
