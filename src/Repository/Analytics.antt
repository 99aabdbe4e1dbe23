-- ===== src/Repository/Analytics.antt =====
-- internal/repository/analytics_repo.go: the report on tasks whose assignee is not in the task's team.
pub mod Integrity
pub mod Stats
pub mod Found
pub mod Counts
pub mod Partners
pub mod Creators
pub mod Ranks
pub mod Creations
use secunda_test.Base.{
  Bool, not, ◌&&◌, Option, none, some, List, [], ◌∷◌, ℤ, leb_ℤ, any, if◌then◌else◌, sort_by,
}
use secunda_test.Errors.{within}
use secunda_test.Errors.Action.{Action, ok, on_error}
use secunda_test.Domain.{Task, TeamMember, IntegrityIssue}
use secunda_test.Database.{Db, Rows}
use secunda_test.Database.Statement.{run, query}
use secunda_test.Repository.Teams.{is_membership}

-- The columns of the report for a task with an assignee.
unfoldable pub issue_row : Task → ℤ → IntegrityIssue
issue_row t assignee = record {
  task_id = t.id;
  task_title = t.title;
  team_id = t.team_id;
  assignee_id = assignee;
}

-- WHERE tk.assignee_id IS NOT NULL AND NOT EXISTS (…), for one task in front of the rows of the others.
unfoldable pub with_issue :
    List TeamMember → Task → Option ℤ → List IntegrityIssue → List IntegrityIssue
unfolding issue_row
with_issue members t none issues = issues
with_issue members t (some a) issues =
    if not (any (is_membership t.team_id a) members) then issue_row t a ∷ issues else issues

unfoldable pub issues_of : List TeamMember → List Task → List IntegrityIssue
unfolding with_issue
issues_of members [] = []
issues_of members (t ∷ ts) = with_issue members t t.assignee_id (issues_of members ts)

-- ORDER BY tk.id
abbrev pub earlier_issue : IntegrityIssue → IntegrityIssue → Bool
earlier_issue a b = leb_ℤ a.task_id b.task_id

unfoldable pub select_issues : Rows → List IntegrityIssue
unfolding issues_of sort_by
select_issues rows = sort_by earlier_issue (issues_of rows.members rows.tasks)

-- `IntegrityIssues`
unfoldable pub integrity_issues : Action Db (List IntegrityIssue)
unfolding run select_issues
integrity_issues =
    on_error (within "integrity issues") (run (query (λ rows. ok (select_issues rows))))
