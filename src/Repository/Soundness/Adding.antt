-- ===== src/Repository/Soundness/Adding.antt =====
-- A new row keeps the tables sound.
use secunda_test.Base.{suc, ◌≡◌, true, false, ◌∷◌, pos, any, arith}
use secunda_test.Domain.{User, Team, TeamMember, Task, TaskHistory}
use secunda_test.Database.{Collation, Rows, Counters}
use secunda_test.Repository.Teams.{is_membership}
use secunda_test.Repository.Changes.{team_ok, member_ok, task_ok, entry_ok, AtMost, AtMost-refl}
use secunda_test.Repository.Soundness.{IsSound}
use secunda_test.Repository.Soundness.Growing.{
  HasReferences-more, numbered-cons, Extends, team_ok-more, task_ok-more, IsSound-grow,
}

-- Sound tables behind a statement, and no smaller counters.
abbrev pub IsSafe : Collation → Rows → Counters → Rows → Counters → Type 0
IsSafe c r n r' k = IsSound c r n → IsSound c r' k × AtMost n k

module _ (c : Collation) (r : Rows) (n : Counters) where
  -- A failed INSERT may use up a number.
  pub unchanged : (k : Counters) → AtMost n k → IsSafe c r n r k
  unchanged k h s = (IsSound-grow c r n k h s, h)

  pub user_added :
      (u : User)
      → u.id ≡ pos (suc n.users)
      → any (λ (v : User). c.same v.email u.email) r.users ≡ false
      → IsSafe c r n (record r { users = u ∷ r.users }) (record n { users = suc n.users })
  user_added u new fresh s =
      let r' = record r { users = u ∷ r.users } in
      let more : Extends r r' = ((λ id h. ground (arith, h)), (λ id h. h), (λ id h. h)) in
      (
        record {
          users = numbered-cons (λ (v : User). v.id) n.users u r.users new s.users;
          emails = (fresh, s.emails);
          teams = s.teams;
          memberships = s.memberships;
          tasks = s.tasks;
          entries = s.entries;
          foreign = HasReferences-more r r' more r s.foreign;
        },
        ground arith,
      )

  pub team_added :
      (t : Team)
      → t.id ≡ pos (suc n.teams)
      → team_ok r t ≡ true
      → IsSafe c r n (record r { teams = t ∷ r.teams }) (record n { teams = suc n.teams })
  team_added t new valid s =
      let r' = record r { teams = t ∷ r.teams } in
      let more : Extends r r' = ((λ id h. h), (λ id h. ground (arith, h)), (λ id h. h)) in
      let (teams, members, tasks, entries) = HasReferences-more r r' more r s.foreign in
      (
        record {
          users = s.users;
          emails = s.emails;
          teams = numbered-cons (λ (v : Team). v.id) n.teams t r.teams new s.teams;
          memberships = s.memberships;
          tasks = s.tasks;
          entries = s.entries;
          foreign = ((team_ok-more r r' more t valid, teams), members, tasks, entries);
        },
        ground arith,
      )

  pub member_added :
      (m : TeamMember)
      → any (is_membership m.team_id m.user_id) r.members ≡ false
      → member_ok r m ≡ true
      → IsSafe c r n (record r { members = m ∷ r.members }) n
  member_added m new valid s = (
    record {
      users = s.users;
      emails = s.emails;
      teams = s.teams;
      memberships = (new, s.memberships);
      tasks = s.tasks;
      entries = s.entries;
      foreign = (s.foreign.0, (valid, s.foreign.1), s.foreign.2, s.foreign.3);
    },
    AtMost-refl n,
  )

  pub task_added :
      (t : Task)
      → t.id ≡ pos (suc n.tasks)
      → task_ok r t ≡ true
      → IsSafe c r n (record r { tasks = t ∷ r.tasks }) (record n { tasks = suc n.tasks })
  task_added t new valid s =
      let r' = record r { tasks = t ∷ r.tasks } in
      let more : Extends r r' = ((λ id h. h), (λ id h. h), (λ id h. ground (arith, h))) in
      let (teams, members, tasks, entries) = HasReferences-more r r' more r s.foreign in
      (
        record {
          users = s.users;
          emails = s.emails;
          teams = s.teams;
          memberships = s.memberships;
          tasks = numbered-cons (λ (v : Task). v.id) n.tasks t r.tasks new s.tasks;
          entries = s.entries;
          foreign = (teams, members, (task_ok-more r r' more t valid, tasks), entries);
        },
        ground arith,
      )

  pub entry_added :
      (h : TaskHistory)
      → h.id ≡ pos (suc n.history)
      → entry_ok r h ≡ true
      → IsSafe c r n (record r { history = h ∷ r.history }) (record n { history = suc n.history })
  entry_added h new valid s = (
    record {
      users = s.users;
      emails = s.emails;
      teams = s.teams;
      memberships = s.memberships;
      tasks = s.tasks;
      entries = numbered-cons (λ (v : TaskHistory). v.id) n.history h r.history new s.entries;
      foreign = (s.foreign.0, s.foreign.1, s.foreign.2, (valid, s.foreign.3));
    },
    ground arith,
  )
