-- ===== src/Repository/Teams.antt =====
-- internal/repository/team_repo.go.
pub mod Lists
pub mod Creation
use secunda_test.Base.{
  true, ◌≡◌, All, length, suc, ◌++◌, Bool, ◌&&◌, not, List, [], ◌∷◌, map, ℤ, pos, leb_ℤ,
  if◌then◌else◌, any, keep, sort_by, ◌==ℤ◌,
}
use secunda_test.Text.{Text}
use secunda_test.Errors.{GoError, sentinel, conflict, within}
use secunda_test.Errors.Action.{Action, ok, err, pure, on_error, ◌>>=◌, ◌>>◌}
use secunda_test.Domain.{Role, Team, TeamMember, role_owner, role_valid}
use secunda_test.Database.{
  Db, has_user, has_team, duplicate, no_reference, too_long, not_in_enum, is_duplicate,
}
use secunda_test.Database.Statement.{Statement, run, query, one_row}
use secunda_test.Repository.Transaction.{with_tx}
use secunda_test.Repository.Users.{over_255, found_or}

-- INSERT INTO teams (name, created_by), with fk_teams_created_by.
unfoldable pub insert_team : Text → ℤ → Statement ℤ
insert_team name created_by now rows counters =
    let id = suc counters.teams in
    let counted = record counters { teams = id } in
    if over_255 name
    then (err too_long, rows, counted)
    else if not (has_user rows created_by)
    then (err no_reference, rows, counted)
    else (
      ok (pos id),
      record rows {
        teams =
            record { id = pos id; name = name; created_by = created_by; created_at = now }
            ∷ rows.teams;
      },
      counted,
    )

abbrev pub is_membership : ℤ → ℤ → TeamMember → Bool
is_membership team_id user_id m = m.team_id ==ℤ team_id && m.user_id ==ℤ user_id

-- INSERT INTO team_members (team_id, user_id, role), with the primary key and both foreign keys.
unfoldable pub insert_member : ℤ → ℤ → Role → Statement (Unit {0})
unfolding role_valid
insert_member team_id user_id role now rows counters =
    if not (role_valid role)
    then (err not_in_enum, rows, counters)
    else if any (is_membership team_id user_id) rows.members
    then (err duplicate, rows, counters)
    else if not (has_team rows team_id && has_user rows user_id)
    then (err no_reference, rows, counters)
    else (
      ok tt,
      record rows {
        members =
            record { team_id = team_id; user_id = user_id; role = role; joined_at = now }
            ∷ rows.members;
      },
      counters,
    )

-- The body of the transaction.
unfoldable pub insert_with_owner : Text → ℤ → Action Db ℤ
unfolding run insert_team insert_member
insert_with_owner name owner_id = do
  team_id ← on_error (within "insert team") (run (insert_team name owner_id))
  on_error (within "insert owner membership") (run (insert_member team_id owner_id role_owner))
  pure team_id

unfoldable pub create_with_owner : Text → ℤ → Action Db ℤ
unfolding with_tx insert_with_owner
create_with_owner name owner_id = with_tx (insert_with_owner name owner_id)

-- teams t JOIN team_members tm ON tm.team_id = t.id WHERE tm.user_id = ?: a row for each pair.
unfoldable pub teams_of : ℤ → List TeamMember → List Team → List Team
teams_of user_id members [] = []
teams_of user_id members (t ∷ ts) =
    map (λ _. t) (keep (is_membership t.id user_id) members) ++ teams_of user_id members ts

-- The newest first: `created_at` of no team is before that of a later one.
abbrev pub IsNewestFirst : List Team → Type 0
IsNewestFirst [] = Unit
IsNewestFirst (t ∷ ts) =
    All (λ (u : Team). leb_ℤ u.created_at t.created_at ≡ true) ts × IsNewestFirst ts

-- Whatever finds rows among some finds as many among others.
abbrev pub HasSameRows : List Team → List Team → Type 0
HasSameRows ts us = (p : Team → Bool) → length (keep p ts) ≡ length (keep p us)

-- ORDER BY t.created_at DESC, which leaves rows with one time stamp in the order that the server likes.
pub record TeamOrder : Type 0 where
  pub arrange : List Team → List Team
  pub same_rows : (ts : List Team) → HasSameRows (arrange ts) ts
  pub newest_first : (ts : List Team) → IsNewestFirst (arrange ts)

unfoldable pub list_by_user : TeamOrder → ℤ → Action Db (List Team)
unfolding run teams_of
list_by_user order user_id =
    on_error (within "list teams by user")
      (run (query (λ rows. ok (order.arrange (teams_of user_id rows.members rows.teams)))))

unfoldable pub get_member : ℤ → ℤ → Action Db TeamMember
unfolding run found_or
get_member team_id user_id =
    on_error (λ e. found_or (within "get team member" e) e)
      (run (query (λ rows. one_row (keep (is_membership team_id user_id) rows.members))))

unfoldable pub member_error : GoError → GoError
unfolding is_duplicate
member_error e = if is_duplicate e then sentinel conflict else within "add team member" e

unfoldable pub add_member : ℤ → ℤ → Role → Action Db (Unit {0})
unfolding insert_member run member_error
add_member team_id user_id role = on_error member_error (run (insert_member team_id user_id role))
