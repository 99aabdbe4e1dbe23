-- ===== src/Repository/Analytics/Stats.antt =====
-- internal/repository/analytics_repo.go: `TeamStats`, with the query as it is written.
use secunda_test.Base.{
  Bool, false, ◌&&◌, Option, none, some, List, [], ◌∷◌, map, ℤ, pos, ◌==ℤ◌, leb_ℤ, keep, sort_by,
  left_join, firsts, count_distinct,
}
use secunda_test.Text.{Text, codes}
use secunda_test.Errors.{within}
use secunda_test.Errors.Action.{Action, ok, on_error}
use secunda_test.Domain.{Team, TeamMember, Task, TaskHistory, TeamStats}
use secunda_test.Database.{Collation, Rows, Db}
use secunda_test.Database.Statement.{run}

-- The server's `- INTERVAL 7 DAY` and `- INTERVAL 1 MONTH`.
pub record Calendar : Type 0 where
  pub week_before : ℤ → ℤ
  pub month_before : ℤ → ℤ

-- A row of the four joined tables.
abbrev pub Joined : Type 0
Joined = ((Team × Option TeamMember) × Option Task) × Option TaskHistory

abbrev pub team_of : Joined → Team
team_of row = row.0.0.0

abbrev pub of_team : Team → TeamMember → Bool
of_team t m = m.team_id ==ℤ t.id

abbrev pub in_team : Team → Task → Bool
in_team t k = k.team_id ==ℤ t.id

-- The values that are not NULL.
abbrev pub values : List (Option ℤ) → List ℤ
values [] = []
values (none ∷ vs) = values vs
values (some v ∷ vs) = v ∷ values vs

abbrev pub member_user : Option TeamMember → Option ℤ
member_user none = none
member_user (some m) = some m.user_id

abbrev pub member_value : Joined → Option ℤ
member_value row = member_user row.0.0.1

-- CASE WHEN th.id IS NOT NULL THEN th.task_id END
abbrev pub entry_task : Option TaskHistory → Option ℤ
entry_task none = none
entry_task (some h) = some h.task_id

abbrev pub done_value : Joined → Option ℤ
done_value row = entry_task row.1

-- ORDER BY t.id
abbrev pub earlier_stats : TeamStats → TeamStats → Bool
earlier_stats a b = leb_ℤ a.team_id b.team_id

abbrev pub group_row : List Joined → Team → TeamStats
group_row group t = record {
  team_id = t.id;
  team_name = t.name;
  member_count = pos (count_distinct (values (map member_value group)));
  done_last_7_days = pos (count_distinct (values (map done_value group)));
}

module _ (c : Collation) where
  -- A comparison with NULL is not true.
  abbrev pub same_value : Option Text → Text → Bool
  same_value none s = false
  same_value (some v) s = c.same v s

  -- ON th.task_id = tk.id AND th.field = 'status' AND th.new_value = 'done' AND th.changed_at >= …
  abbrev pub is_done : ℤ → ℤ → TaskHistory → Bool
  is_done since task_id h =
      h.task_id ==ℤ task_id
      && c.same h.field (codes "status")
      && same_value h.new_value (codes "done")
      && leb_ℤ since h.changed_at

  abbrev pub done_entry : ℤ → Option Task → TaskHistory → Bool
  done_entry since none h = false
  done_entry since (some t) h = is_done since t.id h

  -- FROM teams t LEFT JOIN team_members tm … LEFT JOIN tasks tk … LEFT JOIN task_history th …
  unfoldable pub from_teams : ℤ → Rows → List Joined
  unfolding left_join
  from_teams since rows =
      left_join (λ r. done_entry since r.1)
        (left_join (λ r. in_team r.0) (left_join of_team rows.teams rows.members) rows.tasks)
        rows.history

  -- GROUP BY t.id, t.name
  abbrev pub same_group : Team → Team → Bool
  same_group a b = a.id ==ℤ b.id && c.same a.name b.name

  abbrev pub groups : List Joined → List TeamStats
  groups rows =
      map (λ t. group_row (keep (λ r. same_group t (team_of r)) rows) t)
        (firsts same_group (map team_of rows))

  unfoldable pub select_team_stats : ℤ → Rows → List TeamStats
  unfolding from_teams sort_by firsts count_distinct
  select_team_stats since rows = sort_by earlier_stats (groups (from_teams since rows))

  -- `TeamStats`
  unfoldable pub team_stats : Calendar → Action Db (List TeamStats)
  unfolding run select_team_stats
  team_stats cal = on_error (within "team stats") (
      run
        (λ now rows counters. (ok (select_team_stats (cal.week_before now) rows), rows, counters)))
