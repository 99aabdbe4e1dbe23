-- ===== src/Service/Team.antt =====
-- internal/service/team.go: `TeamService`.
pub mod Invitation
pub mod Respect
use secunda_test.Base.{Bool, true, false, not, ◌||◌, List, [], ◌++◌, ℤ, if◌then◌else◌}
use secunda_test.Text.{Text, codes, text_eq, is_empty, trim_space}
use secunda_test.Text.Case.{Unicode, to_lower}
use secunda_test.Text.Decimal.{format_int}
use secunda_test.Errors.{
  GoError, sentinel, wrapped, not_found, conflict, forbidden, validation, email_failed, is_error,
  message, detailed,
}
use secunda_test.Errors.Action.{
  Action, Result, ok, err, pure, fail, refuse_if, on_error, ◌>>=◌, ◌>>◌,
}
use secunda_test.Domain.{
  Role, role_owner, role_member, role_valid, can_manage_members, Team, TeamMember, zero_time,
}
use secunda_test.Service.Interfaces.{TeamRepository, UserRepository, Sender}

pub record TeamService (W : Type 0) : Type 0 where
  pub teams : TeamRepository W
  pub users : UserRepository W
  pub mailer : Sender W
  pub unicode : Unicode

pub record InviteInput : Type 0 where
  pub team_id : ℤ
  pub inviter_id : ℤ
  pub email : Text
  pub role : Role

-- `in.Role == ""` stands for member.
abbrev pub or_member : Role → Role
or_member role = if is_empty role then role_member else role

-- `!in.Role.Valid() || in.Role == domain.RoleOwner`
unfoldable pub refused_role : Role → Bool
refused_role role = not (role_valid role) || text_eq role role_owner

unfoldable pub not_a_team_member : GoError → GoError
not_a_team_member e = if is_error e not_found then detailed forbidden "not a team member" else e

unfoldable pub no_such_user : GoError → GoError
no_such_user e =
    if is_error e not_found then detailed validation "user with this email not found" else e

unfoldable pub already_member : GoError → GoError
already_member e =
    if is_error e conflict then detailed conflict "user is already a team member" else e

-- `fmt.Errorf("%w: %v", ErrEmailFailed, err)`: the cause is text only.
unfoldable pub delivery_failed : GoError → GoError
delivery_failed e = wrapped [] (sentinel email_failed) (codes ": " ++ message e)

-- `fmt.Sprintf("team #%d", in.TeamID)`
unfoldable pub team_label : ℤ → Text
team_label team_id = codes "team #" ++ format_int team_id

-- `strings.ToLower(strings.TrimSpace(in.Email))`
unfoldable pub invite_email : Unicode → Text → Text
invite_email unicode email = to_lower unicode (trim_space email)

module _ {W : Type 0} (s : TeamService W) where
  unfoldable pub create : Text → ℤ → Action W Team
  create name owner_id =
      let trimmed = trim_space name in
      if is_empty trimmed then fail (detailed validation "team name is required") else do
        id ← s.teams.create_with_owner trimmed owner_id
        pure (record { id = id; name = trimmed; created_by = owner_id; created_at = zero_time })

  unfoldable pub list_for_user : ℤ → Action W (List Team)
  list_for_user user_id = s.teams.list_by_user user_id

  -- The inviter's membership, once the role has passed.
  unfoldable pub authorise : ℤ → ℤ → Action W (Unit {0})
  authorise team_id inviter_id = do
    inviter ← on_error not_a_team_member (s.teams.get_member team_id inviter_id)
    refuse_if (not (can_manage_members inviter.role))
        (detailed forbidden "only owner or admin can invite")

  unfoldable pub admit : InviteInput → Role → Action W (Unit {0})
  admit input role = do
    invitee ← on_error no_such_user (s.users.get_by_email (invite_email s.unicode input.email))
    on_error already_member (s.teams.add_member input.team_id invitee.id role)
    on_error delivery_failed (s.mailer.send_invite invitee.email (team_label input.team_id))

  unfoldable pub invite : InviteInput → Action W (Unit {0})
  unfolding authorise admit
  invite input =
      let role = or_member input.role in
      if refused_role role
      then fail (detailed validation "invalid role")
      else do authorise input.team_id input.inviter_id; admit input role
