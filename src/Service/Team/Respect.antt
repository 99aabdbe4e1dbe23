-- ===== src/Service/Team/Respect.antt =====
-- `TeamService` respects what its repositories and its mailer respect.
use secunda_test.Base.{ℤ, not, Bool-cases, inl, inr}
use secunda_test.Text.{Text, is_empty, trim_space}
use secunda_test.Errors.{detailed, forbidden}
use secunda_test.Errors.Action.{Action, pure, refuse_if, on_error, ◌>>=◌}
use secunda_test.Errors.Respect.{
  Order, Respects, pure-Respects, on_error-Respects, bind-Respects, refuse_if-Respects,
}
use secunda_test.Domain.{Role, Team, TeamMember, User, can_manage_members, zero_time}
use secunda_test.Service.Team.{
  TeamService, InviteInput, or_member, refused_role, not_a_team_member, no_such_user,
  already_member, delivery_failed, team_label, invite_email, create, list_for_user, authorise,
  admit, invite,
}

module _ {W : Type 0} (o : Order W) where
  pub record IsRespectful (s : TeamService W) : Type 0 where
    pub create_with_owner :
        (name : Text) (owner_id : ℤ) → Respects o (s.teams.create_with_owner name owner_id)
    pub list_by_user : (user_id : ℤ) → Respects o (s.teams.list_by_user user_id)
    pub get_member : (team_id user_id : ℤ) → Respects o (s.teams.get_member team_id user_id)
    pub add_member :
        (team_id user_id : ℤ) (role : Role) → Respects o (s.teams.add_member team_id user_id role)
    pub get_by_email : (email : Text) → Respects o (s.users.get_by_email email)
    pub send_invite : (to label : Text) → Respects o (s.mailer.send_invite to label)

  module _ (s : TeamService W) (r : IsRespectful s) where
    pub create-Respects : (name : Text) (owner_id : ℤ) → Respects o (create s name owner_id)
    unfolding create
    create-Respects name owner_id = elim (Bool-cases (is_empty (trim_space name))) [
      | inl empty ↦ rw empty (λ w. o.same w)
      | inr full ↦
          let made : ℤ → Team = λ id. record {
            id = id;
            name = trim_space name;
            created_by = owner_id;
            created_at = zero_time;
          } in
          rw full (
            bind-Respects o (λ id. pure (made id)) (λ id. pure-Respects o (made id))
              (s.teams.create_with_owner (trim_space name) owner_id)
              (r.create_with_owner (trim_space name) owner_id))
    ]

    pub list_for_user-Respects : (user_id : ℤ) → Respects o (list_for_user s user_id)
    unfolding list_for_user
    list_for_user-Respects user_id = r.list_by_user user_id

    authorise-Respects : (team_id inviter_id : ℤ) → Respects o (authorise s team_id inviter_id)
    unfolding authorise
    authorise-Respects team_id inviter_id =
        let refusal = detailed forbidden "only owner or admin can invite" in
        bind-Respects o (λ (m : TeamMember). refuse_if (not (can_manage_members m.role)) refusal)
          (λ m. refuse_if-Respects o (not (can_manage_members m.role)) refusal)
          (on_error not_a_team_member (s.teams.get_member team_id inviter_id))
          (on_error-Respects o not_a_team_member (s.teams.get_member team_id inviter_id)
            (r.get_member team_id inviter_id))

    admit-Respects : (input : InviteInput) (role : Role) → Respects o (admit s input role)
    unfolding admit
    admit-Respects input role =
        let email = invite_email s.unicode input.email in
        let join : User → Action W (Unit {0}) =
          λ u. on_error already_member (s.teams.add_member input.team_id u.id role) in
        let send : User → Action W (Unit {0}) =
          λ u. on_error delivery_failed (s.mailer.send_invite u.email (team_label input.team_id)) in
        bind-Respects o (λ u. join u >>= λ _. send u)
          (λ u.
            bind-Respects o (λ _. send u)
              (λ _.
                on_error-Respects o delivery_failed
                  (s.mailer.send_invite u.email (team_label input.team_id))
                  (r.send_invite u.email (team_label input.team_id)))
              (join u)
              (on_error-Respects o already_member (s.teams.add_member input.team_id u.id role)
                (r.add_member input.team_id u.id role)))
          (on_error no_such_user (s.users.get_by_email email))
          (on_error-Respects o no_such_user (s.users.get_by_email email) (r.get_by_email email))

    pub invite-Respects : (input : InviteInput) → Respects o (invite s input)
    unfolding invite
    invite-Respects input =
        let role = or_member input.role in
        elim (Bool-cases (refused_role role)) [
          | inl refused ↦ rw refused (λ w. o.same w)
          | inr allowed ↦ rw allowed (
              bind-Respects o (λ _. admit s input role) (λ _. admit-Respects input role)
                (authorise s input.team_id input.inviter_id)
                (authorise-Respects input.team_id input.inviter_id))
        ]
