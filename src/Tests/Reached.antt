-- ===== src/Tests/Reached.antt =====
-- From empty tables to a team with an owner and a task.
use secunda_test.Base.{◌≡◌, refl, [], ◌∷◌, pos, some, none}
use secunda_test.Text.{codes}
use secunda_test.Domain.{TaskHistory, status_done}
use secunda_test.Database.{Db, refused}
use secunda_test.Repository.Users
use secunda_test.Repository.Tasks
use secunda_test.Repository.Teams.{create_with_owner}
use secunda_test.Repository.Tasks.{update_with_history}
use secunda_test.Repository.Reachable.{
  no_rows, no_counters, Reach, here, next, create_user, create_team, elapse,
}
use secunda_test.Tests.Fixtures.{ann, chore, binary, running}

abbrev migrated : Db
migrated = record { rows = no_rows; counters = no_counters; now = pos 50; faults = [] }

abbrev with_ann : Db
with_ann = (Users.create binary ann migrated).1

-- The first statement of the transaction works, the second fails.
abbrev unlucky : Db
unlucky = record with_ann {
  now = pos 60;
  faults = none ∷ none ∷ some (refused (codes "deadlock")) ∷ [];
}

abbrev undone : Db
undone = (create_with_owner (codes "home") (pos 1) unlucky).1

abbrev with_team : Db
with_team = (create_with_owner (codes "home") (pos 1) undone).1

abbrev with_task : Db
with_task = (Tasks.create (record chore { assignee_id = none; team_id = pos 2 }) with_team).1

abbrev entry : TaskHistory
entry = record {
  id = pos 0;
  task_id = pos 1;
  changed_by = pos 1;
  field = codes "status";
  old_value = some (codes "todo");
  new_value = some (codes "done");
  changed_at = pos 0;
}

abbrev finished : Db
finished =
    (update_with_history
      (record chore { assignee_id = none; team_id = pos 2; status = status_done }) (entry ∷ [])
      with_task).1

-- The number of the team that was undone is used up.
with_team-counters : with_team.counters ≡ record { users = 1; teams = 2; tasks = 0; history = 0 }
unfolding Users.create create_with_owner running
with_team-counters = refl

finished-history : finished.rows.history ≡ record entry { id = pos 1; changed_at = pos 60 } ∷ []
unfolding Users.create create_with_owner Tasks.create update_with_history running
finished-history = refl

abbrev path_to_team : Reach binary migrated with_team
path_to_team =
    next
      (next
        (next (next here (create_user migrated ann))
          (elapse with_ann (pos 60) (none ∷ none ∷ some (refused (codes "deadlock")) ∷ [])))
        (create_team unlucky (codes "home") (pos 1)))
      (create_team undone (codes "home") (pos 1))
