-- ===== src/Repository/Soundness.antt =====
-- What the keys and the foreign keys of migrations/000001_init.up.sql promise of the tables.
pub mod Growing
pub mod Adding
pub mod Setting
use secunda_test.Base.{
  IsDistinct, ℕ, suc, ◌≤◌, ◌≡◌, Bool, true, false, ◌&&◌, List, [], ◌∷◌, ℤ, pos, negsuc, All, any,
  leb_ℤ, ◌==ℤ◌,
}
use secunda_test.Text.{Text}
use secunda_test.Domain.{User, Team, TeamMember, Task, TaskHistory, role_valid, status_valid}
use secunda_test.Database.{Collation, Rows, Counters, Db, has_user, has_team, has_task}
use secunda_test.Repository.Teams.{is_membership}
use secunda_test.Repository.Changes.{team_ok, member_ok, task_ok, entry_ok}

-- A key that AUTO_INCREMENT has given out.
abbrev pub given : ℕ → ℤ → Bool
given n id = leb_ℤ (pos 1) id && leb_ℤ id (pos n)

-- The rows of a table with an AUTO_INCREMENT key.
abbrev pub IsNumbered : {A : Type 0} → (A → ℤ) → ℕ → List A → Type 0
IsNumbered id n xs = All (λ x. given n (id x) ≡ true) xs × IsDistinct (λ x y. id y ==ℤ id x) xs

-- The references of some rows, seen from all.
abbrev pub HasReferences : Rows → Rows → Type 0
HasReferences r xs =
    All (λ t. team_ok r t ≡ true) xs.teams
    × All (λ m. member_ok r m ≡ true) xs.members
    × All (λ t. task_ok r t ≡ true) xs.tasks
    × All (λ h. entry_ok r h ≡ true) xs.history

pub record IsSound (c : Collation) (r : Rows) (n : Counters) : Type 0 where
  pub users : IsNumbered (λ (u : User). u.id) n.users r.users
  pub emails : IsDistinct (λ (u v : User). c.same v.email u.email) r.users
  pub teams : IsNumbered (λ (t : Team). t.id) n.teams r.teams
  pub memberships : IsDistinct (λ (m k : TeamMember). is_membership m.team_id m.user_id k) r.members
  pub tasks : IsNumbered (λ (t : Task). t.id) n.tasks r.tasks
  pub entries : IsNumbered (λ (h : TaskHistory). h.id) n.history r.history
  pub foreign : HasReferences r r
