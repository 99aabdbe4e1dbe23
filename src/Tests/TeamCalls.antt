-- ===== src/Tests/TeamCalls.antt =====
-- `TeamService.Invite` over the repositories and a small database.
use secunda_test.Base.{[], ◌∷◌, ◌≡◌, refl, pos}
use secunda_test.Text.{codes}
use secunda_test.Errors.Action.{ok}
use secunda_test.Domain.{role_admin}
use secunda_test.Database.{Db}
use secunda_test.Repository.Teams
use secunda_test.Repository.Users
use secunda_test.Service.Team.{InviteInput, refused_role, invite_email, invite}
use secunda_test.Service.Team.Invitation.{IsInvited, invite-IsInvited}
use secunda_test.Tests.Fixtures.{
  owner_ann, member_bob, rows, db, mailer, team_service_with, running,
}

abbrev invite_eve : InviteInput
invite_eve = record {
  team_id = pos 1;
  inviter_id = pos 1;
  email = codes " EVE@x.org";
  role = role_admin;
}

abbrev pub with_eve : Db
with_eve = record db {
  rows = record rows {
    members =
        record { team_id = pos 1; user_id = pos 3; role = role_admin; joined_at = pos 100 }
        ∷ member_bob
        ∷ owner_ann
        ∷ [];
  };
}

invite-eve : invite (team_service_with mailer) invite_eve db ≡ (ok tt, with_eve)
unfolding invite refused_role running invite_email Teams.get_member Teams.add_member
    Users.get_by_email
invite-eve = refl

invite-IsInvited_example : IsInvited (team_service_with mailer) invite_eve db with_eve
invite-IsInvited_example =
    invite-IsInvited (team_service_with mailer) invite_eve db with_eve invite-eve
