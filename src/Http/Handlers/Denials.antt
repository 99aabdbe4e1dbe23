-- ===== src/Http/Handlers/Denials.antt =====
-- How the refusals of the services reach the client.
use secunda_test.Base.{ℕ, ◌<◌, ◌≡◌, true, false, some, ℤ, arith}
use secunda_test.Text.{Text, codes}
use secunda_test.Errors.{GoError, Sentinel, forbidden, email_failed, is_error, message}
use secunda_test.Errors.Action.{Result, ok, err}
use secunda_test.Domain.{Task, TeamMember, User, can_manage_members}
use secunda_test.Service.Task.Access.{Denies, update-history-IsForbidden}
use secunda_test.Service.Team.{invite_email, or_member, refused_role, team_label}
use secunda_test.Service.Team.Invitation.{invite-delivery_failed}
use secunda_test.Http.Response.{Payload, error_body, Reply, write_json, answer, Logger}
use secunda_test.Http.Response.Table.{sentinel_status, write_error-sentinel_status}
use secunda_test.Http.Parsing.{path_int}
use secunda_test.Http.Requests.{InviteRequest, UpdateTaskRequest, Request}
use secunda_test.Http.Handlers.{Handler, user_or_zero, invite_to_team, update_task, task_history}

-- An error answer with this status and this world behind it.
abbrev pub IsAnswered : {W : Type 0} → ℕ → Reply × W → W → Type 0
IsAnswered status o w = (text : Text) × (o ≡ (write_json status (error_body text), w))

answered :
    {W A : Type 0} (log : Logger W) (status : ℕ) (payload : A → Payload) (o : Result A × W)
    (s : Sentinel) (w : W)
    → sentinel_status s < 500
    → ((e : GoError) × (is_error e s ≡ true) × (o ≡ (err e, w)))
    → IsAnswered (sentinel_status s) (answer log status payload o) w
unfolding answer
answered log status payload o s w below (e, known, failed) =
    (message e, rw failed (write_error-sentinel_status log e s w known below))

module _ {W : Type 0} (h : Handler W) (r : Request) where
  -- A request for the task of a team that the user does not belong to is answered with 403, whether it
  -- would change the task or read its history, and nothing was done since the membership query.
  pub update_task-task_history-forbidden :
      (id : ℤ) (req : UpdateTaskRequest) (t : Task) (w w1 w2 : W) (e : GoError)
      → path_int (codes "id") r.id_param ≡ ok id
      → h.decoders.update_task r.body ≡ some req
      → h.tasks.tasks.get_by_id id w ≡ (ok t, w1)
      → Denies h.tasks t.team_id (user_or_zero r.user) w1 e w2
      → IsAnswered 403 (update_task h r w) w2 × IsAnswered 403 (task_history h r w) w2
  unfolding update_task task_history
  update_task-task_history-forbidden id req t w w1 w2 e path body found denied =
      let (updating, reading) =
        update-history-IsForbidden h.tasks
          (record {
            task_id = id;
            title = req.title;
            description = req.description;
            status = req.status;
            assignee_id = req.assignee_id;
            unset_assign = req.unset_assign;
            actor_id = user_or_zero r.user;
          })
          t w w1 w2 e found denied in
      (
        rw (path, body) (answered h.log 200 _ _ forbidden w2 (omega arith) updating),
        rw path (answered h.log 200 _ _ forbidden w2 (omega arith) reading),
      )

  -- An invitation whose letter could not be sent is answered with 202, not with an error status, and the
  -- world is the one behind the added membership and the attempt to send.
  pub invite_to_team-delivery_failed :
      (id : ℤ) (req : InviteRequest) (w w4 : W) (x : GoError) (m : TeamMember) (u : User)
      (w1 w2 w3 : W)
      → path_int (codes "id") r.id_param ≡ ok id
      → h.decoders.invite r.body ≡ some req
      → refused_role (or_member req.role) ≡ false
      → h.teams.teams.get_member id (user_or_zero r.user) w ≡ (ok m, w1)
      → can_manage_members m.role ≡ true
      → h.teams.users.get_by_email (invite_email h.teams.unicode req.email) w1 ≡ (ok u, w2)
      → h.teams.teams.add_member id u.id (or_member req.role) w2 ≡ (ok tt, w3)
      → h.teams.mailer.send_invite u.email (team_label id) w3 ≡ (err x, w4)
      → IsAnswered 202 (invite_to_team h r w) w4
  unfolding invite_to_team
  invite_to_team-delivery_failed id req w w4 x m u w1 w2 w3 path body role asked manages found added
        failed =
      rw (path, body)
        (answered h.log 204 _ _ email_failed w4 (omega arith) (
          invite-delivery_failed h.teams
            (record {
              team_id = id;
              inviter_id = user_or_zero r.user;
              email = req.email;
              role = req.role;
            })
            w w4 x m u w1 w2 w3 role asked manages found added failed))
