-- ===== src/Http/Handlers.antt =====
-- internal/transport/http/handlers.go: `Handler`.
pub mod Statuses
pub mod Denials
use secunda_test.Base.{Bool, Option, none, some, List, ℤ, pos}
use secunda_test.Text.{Text, codes}
use secunda_test.Errors.{GoError}
use secunda_test.Errors.Action.{Action, Result, ok, err}
use secunda_test.Domain.{TaskFilter, TeamStats, TopCreator, IntegrityIssue}
use secunda_test.Service.Auth.{AuthService}
use secunda_test.Service.Team.{TeamService}
use secunda_test.Service.Task.{TaskService}
use secunda_test.Service.Task.Amend.{UpdateTaskInput}
use secunda_test.Service.Auth
use secunda_test.Service.Team
use secunda_test.Service.Task
use secunda_test.Http.Response.{
  Payload, no_payload, error_body, user_body, session_body, team_body, teams_body, task_body,
  tasks_body, history_body, stats_body, creators_body, issues_body, Reply, Logger, write_json,
  write_error, answer,
}
use secunda_test.Http.Parsing.{path_int, list_filter}
use secunda_test.Http.Requests.{
  RegisterRequest, LoginRequest, CreateTeamRequest, InviteRequest, CreateTaskRequest,
  UpdateTaskRequest, Decoders, Request,
}

pub record AnalyticsService (W : Type 0) : Type 0 where
  pub team_stats : Action W (List TeamStats)
  pub top_creators : Action W (List TopCreator)
  pub integrity_issues : Action W (List IntegrityIssue)

pub record Handler (W : Type 0) : Type 0 where
  pub auth : AuthService W
  pub teams : TeamService W
  pub tasks : TaskService W
  pub analytics : AnalyticsService W
  pub log : Logger W
  pub decoders : Decoders

-- `userID, _ := userIDFromCtx(ctx)`: 0 where there is none.
abbrev pub user_or_zero : Option ℤ → ℤ
user_or_zero none = pos 0
user_or_zero (some id) = id

abbrev pub bad_json : Reply
bad_json = write_json 400 (error_body (codes "invalid JSON body"))

-- `if !decodeJSON(w, r, &req) { return }`
abbrev pub decoded : {W A : Type 0} → Option A → (A → W → Reply × W) → W → Reply × W
decoded none k w = (bad_json, w)
decoded (some req) k w = k req w

module _ {W : Type 0} (h : Handler W) (r : Request) where
  -- `if err != nil { writeError(…); return }`
  abbrev pub parsed : {A : Type 0} → Result A → (A → W → Reply × W) → W → Reply × W
  parsed (ok a) k w = k a w
  parsed (err e) k w = write_error h.log e w

  unfoldable pub register : W → Reply × W
  unfolding answer
  register = decoded (h.decoders.register r.body) λ req w. answer h.log 201 user_body (
      Auth.register h.auth (record { email = req.email; name = req.name; password = req.password })
        w)

  unfoldable pub login : W → Reply × W
  unfolding answer
  login = decoded (h.decoders.login r.body) λ req w.
      answer h.log 200 (λ session. session_body session.0 session.1)
        (Auth.login h.auth req.email req.password w)

  unfoldable pub create_team : W → Reply × W
  unfolding answer
  create_team =
      decoded (h.decoders.create_team r.body)
        λ req w. answer h.log 201 team_body (Team.create h.teams req.name (user_or_zero r.user) w)

  unfoldable pub list_teams : W → Reply × W
  unfolding answer
  list_teams w = answer h.log 200 teams_body (Team.list_for_user h.teams (user_or_zero r.user) w)

  unfoldable pub invite_to_team : W → Reply × W
  unfolding answer write_error
  invite_to_team = parsed (path_int (codes "id") r.id_param) λ team_id.
      decoded (h.decoders.invite r.body) λ req w.
        answer h.log 204 (λ _. no_payload)
          (Team.invite h.teams
            (record {
              team_id = team_id;
              inviter_id = user_or_zero r.user;
              email = req.email;
              role = req.role;
            })
            w)

  unfoldable pub create_task : W → Reply × W
  unfolding answer
  create_task = decoded (h.decoders.create_task r.body) λ req w. answer h.log 201 task_body (
      Task.create h.tasks
        (record {
          team_id = req.team_id;
          title = req.title;
          description = req.description;
          status = req.status;
          assignee_id = req.assignee_id;
          actor_id = user_or_zero r.user;
        })
        w)

  unfoldable pub list_tasks : W → Reply × W
  unfolding answer write_error
  list_tasks =
      parsed (list_filter r.query)
        λ f w. answer h.log 200 tasks_body (Task.list h.tasks f (user_or_zero r.user) w)

  unfoldable pub update_task : W → Reply × W
  unfolding answer write_error
  update_task = parsed (path_int (codes "id") r.id_param) λ task_id.
      decoded (h.decoders.update_task r.body) λ req w. answer h.log 200 task_body (
        Task.update h.tasks
          (record {
            task_id = task_id;
            title = req.title;
            description = req.description;
            status = req.status;
            assignee_id = req.assignee_id;
            unset_assign = req.unset_assign;
            actor_id = user_or_zero r.user;
          })
          w)

  unfoldable pub task_history : W → Reply × W
  unfolding answer write_error
  task_history = parsed (path_int (codes "id") r.id_param) λ task_id w.
      answer h.log 200 history_body (Task.history h.tasks task_id (user_or_zero r.user) w)

  unfoldable pub team_stats : W → Reply × W
  unfolding answer
  team_stats w = answer h.log 200 stats_body (h.analytics.team_stats w)

  unfoldable pub top_creators : W → Reply × W
  unfolding answer
  top_creators w = answer h.log 200 creators_body (h.analytics.top_creators w)

  unfoldable pub integrity_issues : W → Reply × W
  unfolding answer
  integrity_issues w = answer h.log 200 issues_body (h.analytics.integrity_issues w)
