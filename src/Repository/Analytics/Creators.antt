-- ===== src/Repository/Analytics/Creators.antt =====
-- internal/repository/analytics_repo.go: `TopCreators`, with the query as it is written.
use secunda_test.Base.{
  ◌==◌, ltb, ℕ, suc, Bool, ◌&&◌, ◌||◌, List, [], ◌∷◌, ◌++◌, map, ℤ, pos, ◌==ℤ◌, leb_ℤ, ltb_ℤ, keep,
  length, sort_by, inner_join, firsts, same_number,
}
use secunda_test.Text.{Text}
use secunda_test.Errors.{within}
use secunda_test.Errors.Action.{Action, ok, on_error}
use secunda_test.Domain.{User, Team, Task, TopCreator}
use secunda_test.Database.{Collation, Rows, Db}
use secunda_test.Database.Statement.{run}
use secunda_test.Repository.Analytics.Stats.{Calendar}

-- A row of the three joined tables.
abbrev pub Made : Type 0
Made = (Task × Team) × User

-- FROM tasks tk JOIN teams t ON t.id = tk.team_id JOIN users u ON u.id = tk.created_by
-- WHERE tk.created_at >= …
unfoldable pub from_tasks : ℤ → Rows → List Made
unfolding inner_join
from_tasks since rows =
    keep (λ r. leb_ℤ since r.0.0.created_at)
      (inner_join (λ r u. u.id ==ℤ r.0.created_by)
        (inner_join (λ k t. t.id ==ℤ k.team_id) rows.tasks rows.teams) rows.users)

-- A group, before it has its row number.
pub record Group : Type 0 where
  pub team_id : ℤ
  pub team_name : Text
  pub user_id : ℤ
  pub user_name : Text
  pub task_count : ℕ

-- ORDER BY COUNT(*) DESC, tk.created_by ASC
abbrev pub better : Group → Group → Bool
better a b =
    ltb b.task_count a.task_count || (a.task_count == b.task_count && leb_ℤ a.user_id b.user_id)

abbrev pub numbered : ℕ → Group → TopCreator
numbered n g = record {
  team_id = g.team_id;
  team_name = g.team_name;
  user_id = g.user_id;
  user_name = g.user_name;
  task_count = pos g.task_count;
  rank = pos n;
}

-- ROW_NUMBER(), from a number on.
unfoldable pub number_from : ℕ → List Group → List TopCreator
number_from n [] = []
number_from n (g ∷ gs) = numbered n g ∷ number_from (suc n) gs

-- The rows of one partition, numbered in their order.
abbrev pub window : List Group → ℤ → List TopCreator
window gs team_id = number_from 1 (sort_by better (keep (λ g. g.team_id ==ℤ team_id) gs))

abbrev pub windows : List Group → List ℤ → List TopCreator
windows gs [] = []
windows gs (team_id ∷ ids) = window gs team_id ++ windows gs ids

-- ORDER BY team_id, rnk
abbrev pub earlier_rank : TopCreator → TopCreator → Bool
earlier_rank a b = ltb_ℤ a.team_id b.team_id || (a.team_id ==ℤ b.team_id && leb_ℤ a.rank b.rank)

-- WHERE rnk <= 3
abbrev pub on_podium : TopCreator → Bool
on_podium r = leb_ℤ r.rank (pos 3)

unfoldable pub rank_groups : List Group → List TopCreator
unfolding number_from sort_by firsts
rank_groups gs =
    sort_by earlier_rank
      (keep on_podium (windows gs (firsts same_number (map (λ (g : Group). g.team_id) gs))))

module _ (c : Collation) where
  -- GROUP BY tk.team_id, t.name, tk.created_by, u.name
  abbrev pub same_maker : Made → Made → Bool
  same_maker a b =
      a.0.0.team_id ==ℤ b.0.0.team_id
      && c.same a.0.1.name b.0.1.name
      && a.0.0.created_by ==ℤ b.0.0.created_by
      && c.same a.1.name b.1.name

  abbrev pub group_of : List Made → Made → Group
  group_of rows r = record {
    team_id = r.0.0.team_id;
    team_name = r.0.1.name;
    user_id = r.0.0.created_by;
    user_name = r.1.name;
    task_count = length (keep (same_maker r) rows);
  }

  unfoldable pub creator_groups : List Made → List Group
  unfolding firsts
  creator_groups rows = map (group_of rows) (firsts same_maker rows)

  unfoldable pub select_top_creators : ℤ → Rows → List TopCreator
  unfolding from_tasks creator_groups rank_groups
  select_top_creators since rows = rank_groups (creator_groups (from_tasks since rows))

  -- `TopCreators`
  unfoldable pub top_creators : Calendar → Action Db (List TopCreator)
  unfolding run select_top_creators
  top_creators cal = on_error (within "top creators") (
      run (λ now rows counters.
        (ok (select_top_creators (cal.month_before now) rows), rows, counters)))
