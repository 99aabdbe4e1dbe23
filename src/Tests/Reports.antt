-- ===== src/Tests/Reports.antt =====
-- The report on assignees over a small database.
use secunda_test.Base.{◌==ℤ◌, any, some, none, [], ◌∷◌, ◌≡◌, refl, pos, IsSorted}
use secunda_test.Errors.Action.{ok}
use secunda_test.Domain.{Task}
use secunda_test.Database.{Rows}
use secunda_test.Repository.Analytics.{issue_row, select_issues, integrity_issues, earlier_issue}
use secunda_test.Repository.Analytics.Integrity.{is_misplaced, select_issues-IsSorted}
use secunda_test.Tests.Fixtures.{chore, rows, db, running}

-- Eve is in no team, and has two tasks of the first.
abbrev crowded : Rows
crowded = record rows {
  tasks =
      record chore { id = pos 9; assignee_id = some (pos 3) }
      ∷ record chore { id = pos 8; assignee_id = none }
      ∷ record chore { id = pos 2; assignee_id = some (pos 3) }
      ∷ chore
      ∷ [];
}

integrity_issues-crowded : integrity_issues (record db { rows = crowded }) ≡ (
  ok (
      issue_row (record chore { id = pos 2; assignee_id = some (pos 3) }) (pos 3)
      ∷ issue_row (record chore { id = pos 9; assignee_id = some (pos 3) }) (pos 3)
      ∷ []),
  record db { rows = crowded },
)
unfolding integrity_issues running
integrity_issues-crowded = refl

select_issues-IsSorted_example :
    (any (λ i. i.task_id ==ℤ pos 9) (select_issues crowded)
      ≡ any
          (λ (t : Task). is_misplaced (λ i. i.task_id ==ℤ pos 9) crowded.members t t.assignee_id)
          crowded.tasks)
    × IsSorted earlier_issue (select_issues crowded)
select_issues-IsSorted_example = select_issues-IsSorted crowded (λ i. i.task_id ==ℤ pos 9)
