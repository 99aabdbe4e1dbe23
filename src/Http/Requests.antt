-- ===== src/Http/Requests.antt =====
-- The request bodies of internal/transport/http/handlers.go. `encoding/json` is a parameter: for each body
-- the decoder that refuses unknown fields, `none` where it fails.
use secunda_test.Base.{Bool, Option, ℤ}
use secunda_test.Text.{Text}
use secunda_test.Http.Parsing.{ListQuery}

pub record RegisterRequest : Type 0 where
  pub email : Text
  pub name : Text
  pub password : Text

pub record LoginRequest : Type 0 where
  pub email : Text
  pub password : Text

pub record CreateTeamRequest : Type 0 where
  pub name : Text

pub record InviteRequest : Type 0 where
  pub email : Text
  pub role : Text

pub record CreateTaskRequest : Type 0 where
  pub team_id : ℤ
  pub title : Text
  pub description : Text
  pub status : Text
  pub assignee_id : Option ℤ

pub record UpdateTaskRequest : Type 0 where
  pub title : Option Text
  pub description : Option Text
  pub status : Option Text
  pub assignee_id : Option ℤ
  pub unset_assign : Bool

pub record Decoders : Type 0 where
  pub register : Text → Option RegisterRequest
  pub login : Text → Option LoginRequest
  pub create_team : Text → Option CreateTeamRequest
  pub invite : Text → Option InviteRequest
  pub create_task : Text → Option CreateTaskRequest
  pub update_task : Text → Option UpdateTaskRequest

-- What is read of an `*http.Request`: the method, the pattern that chi has matched (`none` without a route
-- context), the path, the header Authorization, the path's parameter `id`, the query, the body, and the
-- user that `Auth` puts into the context.
pub record Request : Type 0 where
  pub method : Text
  pub pattern : Option Text
  pub url_path : Text
  pub authorization : Text
  pub id_param : Text
  pub query : ListQuery
  pub body : Text
  pub user : Option ℤ
