-- ===== src/Service/Team/Invitation.antt =====
-- `TeamService.Invite`: who may invite, whom, with which role, and what a failed delivery leaves.
use secunda_test.Base.{true, false, not, Bool-cases, ◌≡◌, ◌⊎◌, refl, ap, ◌∙◌, inl, inr, arith}
use secunda_test.Text.{text_eq_iff}
use secunda_test.Errors.{
  GoError, not_found, forbidden, validation, email_failed, is_error, is_error-detailed, detailed,
}
use secunda_test.Errors.Action.{
  Result, ok, err, map_error, after-eq-ok, map_error-eq-ok, refuse_if-eq-ok,
}
use secunda_test.Domain.{
  Role, role_owner, role_admin, role_member, role_valid, can_manage_members, User, TeamMember,
}
use secunda_test.Service.Team.{
  TeamService, InviteInput, invite_email, or_member, refused_role, not_a_team_member, no_such_user,
  already_member, delivery_failed, team_label, authorise, admit, invite,
}

-- An invitation can give two roles only.
refused_role-false : (r : Role) → refused_role r ≡ false → (r ≡ role_admin) ⊎ (r ≡ role_member)
unfolding refused_role role_valid
refused_role-false r h =
    ground (arith, text_eq_iff r role_owner, text_eq_iff r role_admin, text_eq_iff r role_member)

-- No membership, or one whose role may not manage members.
abbrev pub MayNotManage : Result TeamMember → Type 0
MayNotManage (ok m) = can_manage_members m.role ≡ false
MayNotManage (err e) = is_error e not_found ≡ true

module _ {W : Type 0} (s : TeamService W) (input : InviteInput) where
  -- All that has happened when an invitation has gone through, call by call.
  pub record IsInvited (w w' : W) : Type 0 where
    pub inviter : TeamMember
    pub invitee : User
    pub w1 : W
    pub w2 : W
    pub w3 : W
    pub role : (or_member input.role ≡ role_admin) ⊎ (or_member input.role ≡ role_member)
    pub asked : s.teams.get_member input.team_id input.inviter_id w ≡ (ok inviter, w1)
    pub manages : can_manage_members inviter.role ≡ true
    pub found : s.users.get_by_email (invite_email s.unicode input.email) w1 ≡ (ok invitee, w2)
    pub added : s.teams.add_member input.team_id invitee.id (or_member input.role) w2 ≡ (ok tt, w3)
    pub sent : s.mailer.send_invite invitee.email (team_label input.team_id) w3 ≡ (ok tt, w')

  abbrev MayInvite : W → W → Type 0
  MayInvite w w' =
      (m : TeamMember) × (s.teams.get_member input.team_id input.inviter_id w ≡ (ok m, w'))
      × (can_manage_members m.role ≡ true)

  authorise-ok :
      (w w' : W) → authorise s input.team_id input.inviter_id w ≡ (ok tt, w') → MayInvite w w'
  unfolding authorise
  authorise-ok w w' h =
      let (m, w1, asked, rest) =
        after-eq-ok _
          (map_error not_a_team_member (s.teams.get_member input.team_id input.inviter_id w)) h in
      let (allowed, same) = refuse_if-eq-ok (not (can_manage_members m.role)) _ w1 rest in
      (m, map_error-eq-ok not_a_team_member _ asked ∙ ap (λ v. (ok m, v)) same, ground arith)

  admit-ok :
      (role : Role) (w w' : W)
      → admit s input role w ≡ (ok tt, w')
      → (u : User) × (w1 : W) × (w2 : W) × (s.users.get_by_email
            (invite_email s.unicode input.email)
            w
          ≡ (ok u, w1))
        × (s.teams.add_member input.team_id u.id role w1 ≡ (ok tt, w2))
        × (s.mailer.send_invite u.email (team_label input.team_id) w2 ≡ (ok tt, w'))
  unfolding admit
  admit-ok role w w' h =
      let (u, w1, found, rest) =
        after-eq-ok _
          (map_error no_such_user (s.users.get_by_email (invite_email s.unicode input.email) w))
          h in
      let (_, w2, added, sent) =
        after-eq-ok _ (map_error already_member (s.teams.add_member input.team_id u.id role w1))
          rest in
      (
        u,
        w1,
        w2,
        map_error-eq-ok no_such_user _ found,
        map_error-eq-ok already_member _ added,
        map_error-eq-ok delivery_failed _ sent,
      )

  -- A successful invitation has gone through every check: the role is admin or member, the inviter's own
  -- role may manage members, the trimmed and lowered address belongs to a user, who was added with that
  -- role and was sent the letter, in this order.
  pub invite-IsInvited : (w w' : W) → invite s input w ≡ (ok tt, w') → IsInvited w w'
  unfolding invite
  invite-IsInvited w w' h = elim (Bool-cases (refused_role (or_member input.role))) [
    | inl refused ↦ absurd (ground arith)
    | inr role_ok ↦
        let (_, w1, allowed, rest) =
          after-eq-ok _ (authorise s input.team_id input.inviter_id w) (rw role_ok at h) in
        let (m, asked, manages) = authorise-ok w w1 allowed in
        let (u, w2, w3, found, added, sent) = admit-ok (or_member input.role) w1 w' rest in
        record {
          inviter = m;
          invitee = u;
          w1 = w1;
          w2 = w2;
          w3 = w3;
          role = refused_role-false (or_member input.role) role_ok;
          asked = asked;
          manages = manages;
          found = found;
          added = added;
          sent = sent;
        }
  ]

  -- An unknown role, and the role owner, are refused before anything is read or written.
  pub invite-refused_role :
      (w : W)
      → refused_role (or_member input.role) ≡ true
      → (e : GoError) × (is_error e validation ≡ true) × (invite s input w ≡ (err e, w))
  unfolding invite
  invite-refused_role w refused = (
    detailed validation "invalid role",
    is_error-detailed validation "invalid role" validation,
    rw refused,
  )

  -- A user whose membership is missing, or whose role may not manage members, gets `ErrForbidden`, and
  -- nothing has been done since the membership query.
  pub invite-forbidden :
      (w w1 : W) (r : Result TeamMember)
      → refused_role (or_member input.role) ≡ false
      → s.teams.get_member input.team_id input.inviter_id w ≡ (r, w1)
      → MayNotManage r
      → (e : GoError) × (is_error e forbidden ≡ true) × (invite s input w ≡ (err e, w1))
  unfolding invite authorise not_a_team_member
  invite-forbidden w w1 (ok m) role_ok asked h = (
    detailed forbidden "only owner or admin can invite",
    is_error-detailed forbidden _ forbidden,
    rw (role_ok, asked, h),
  )
  invite-forbidden w w1 (err e) role_ok asked h = (
    detailed forbidden "not a team member",
    is_error-detailed forbidden _ forbidden,
    rw (role_ok, asked, h),
  )

  -- Once the user has been added, a failing delivery is reported as `ErrEmailFailed` and nothing is taken
  -- back: the world is the one that the attempt to send left behind the added membership.
  pub invite-delivery_failed :
      (w w4 : W) (x : GoError) (m : TeamMember) (u : User) (w1 w2 w3 : W)
      → refused_role (or_member input.role) ≡ false
      → s.teams.get_member input.team_id input.inviter_id w ≡ (ok m, w1)
      → can_manage_members m.role ≡ true
      → s.users.get_by_email (invite_email s.unicode input.email) w1 ≡ (ok u, w2)
      → s.teams.add_member input.team_id u.id (or_member input.role) w2 ≡ (ok tt, w3)
      → s.mailer.send_invite u.email (team_label input.team_id) w3 ≡ (err x, w4)
      → (e : GoError) × (is_error e email_failed ≡ true) × (invite s input w ≡ (err e, w4))
  unfolding invite authorise admit delivery_failed is_error
  invite-delivery_failed w w4 x m u w1 w2 w3 role_ok asked manages found added failed =
      (delivery_failed x, refl, rw (role_ok, asked, manages, found, added, failed))
