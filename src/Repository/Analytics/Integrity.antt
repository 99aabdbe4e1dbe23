-- ===== src/Repository/Analytics/Integrity.antt =====
-- The report has exactly the misplaced assignments.
use secunda_test.Base.{
  Bool, false, not, ◌&&◌, ◌||◌, ◌≡◌, refl, ◌∙◌, ap, Option, none, some, List, [], ◌∷◌, ℤ, any,
  arith, any-sort_by, IsSorted, sort_by-IsSorted,
}
use secunda_test.Domain.{Task, TeamMember, IntegrityIssue}
use secunda_test.Database.{Rows}
use secunda_test.Repository.Teams.{is_membership}
use secunda_test.Repository.Analytics.{
  issue_row, with_issue, issues_of, earlier_issue, select_issues,
}

-- A task that has an assignee who is not in its team, and whose row in the report passes a test.
abbrev pub is_misplaced : (IntegrityIssue → Bool) → List TeamMember → Task → Option ℤ → Bool
is_misplaced p members t none = false
is_misplaced p members t (some a) =
    not (any (is_membership t.team_id a) members) && p (issue_row t a)

any-with_issue :
    (p : IntegrityIssue → Bool) (members : List TeamMember) (t : Task) (o : Option ℤ)
    (is : List IntegrityIssue)
    → any p (with_issue members t o is) ≡ (is_misplaced p members t o || any p is)
unfolding with_issue
any-with_issue p members t none is = refl
any-with_issue p members t (some a) is = ground arith

any-issues_of :
    (p : IntegrityIssue → Bool) (members : List TeamMember) (ts : List Task)
    → any p (issues_of members ts) ≡ any (λ (t : Task). is_misplaced p members t t.assignee_id) ts
unfolding issues_of
any-issues_of p members [] = refl
any-issues_of p members (t ∷ ts) =
    any-with_issue p members t t.assignee_id (issues_of members ts)
    ∙ ap (λ b. is_misplaced p members t t.assignee_id || b) (any-issues_of p members ts)

-- The report has a row with some property exactly when some task has an assignee outside its team and
-- that row; and its rows stand in the order of the tasks' ids.
pub select_issues-IsSorted :
    (rows : Rows) (p : IntegrityIssue → Bool)
    → (any p (select_issues rows)
        ≡ any (λ (t : Task). is_misplaced p rows.members t t.assignee_id) rows.tasks)
      × IsSorted earlier_issue (select_issues rows)
unfolding select_issues
select_issues-IsSorted rows p = (
  any-sort_by earlier_issue p (issues_of rows.members rows.tasks)
      ∙ any-issues_of p rows.members rows.tasks,
  sort_by-IsSorted earlier_issue (λ a b h. ground arith) (λ a b c h k. ground arith)
      (issues_of rows.members rows.tasks),
)
