-- ===== src/Tests/Standings.antt =====
-- The reports on teams and creators over a small database.
use secunda_test.Base.{
  any, IsDistinct, All, length, ℕ, ◌≡◌, refl, [], ◌∷◌, some, pos, ℤ, map, sort_by, keep, take,
  ◌==ℤ◌, List,
}
use secunda_test.Text.{codes}
use secunda_test.Errors.Action.{ok}
use secunda_test.Domain.{TaskHistory}
use secunda_test.Database.{Rows, Counters}
use secunda_test.Repository.Soundness.{IsSound}
use secunda_test.Repository.Analytics.Stats.{Calendar, earlier_stats, select_team_stats, team_stats}
use secunda_test.Repository.Analytics.Counts.{select_team_stats-counts}
use secunda_test.Repository.Analytics.Found.{stats_of}
use secunda_test.Repository.Analytics.Creators.{
  from_tasks, creator_groups, Group, better, number_from, rank_groups, top_creators,
}
use secunda_test.Repository.Analytics.Ranks.{rank_groups-podium}
use secunda_test.Repository.Analytics.Creations.{made, is_group, creator_groups-counts}
use secunda_test.Tests.Fixtures.{chore, rows, db, binary, running}

abbrev to_done : TaskHistory
to_done = record {
  id = pos 2;
  task_id = pos 1;
  changed_by = pos 1;
  field = codes "status";
  old_value = some (codes "todo");
  new_value = some (codes "done");
  changed_at = pos 95;
}

-- Two members, three tasks of which one was done twice in the week, and one before it.
abbrev pub busy : Rows
busy = record rows {
  tasks =
      record chore { id = pos 3; created_by = pos 2 } ∷ record chore { id = pos 2 } ∷ chore ∷ [];
  history =
      record to_done { id = pos 3 }
      ∷ to_done
      ∷ record to_done { id = pos 1; task_id = pos 2; changed_at = pos 7 }
      ∷ [];
}

abbrev pub counters : Counters
counters = record { users = 3; teams = 1; tasks = 3; history = 3 }

abbrev pub calendar : Calendar
calendar = record { week_before = λ now. pos 90; month_before = λ now. pos 0 }

team_stats-busy :
    (team_stats binary calendar (record db { rows = busy })).0
    ≡ ok (
        record {
          team_id = pos 1;
          team_name = codes "home";
          member_count = pos 2;
          done_last_7_days = pos 1;
        }
        ∷ [])
unfolding team_stats running
team_stats-busy = refl

top_creators-busy :
    (top_creators binary calendar (record db { rows = busy })).0
    ≡ ok (
        record {
          team_id = pos 1;
          team_name = codes "home";
          user_id = pos 1;
          user_name = codes "Ann";
          task_count = pos 2;
          rank = pos 1;
        }
        ∷ record {
          team_id = pos 1;
          team_name = codes "home";
          user_id = pos 2;
          user_name = codes "Bob";
          task_count = pos 1;
          rank = pos 2;
        }
        ∷ [])
unfolding top_creators running
top_creators-busy = refl

pub busy-IsSound : IsSound binary busy counters
unfolding running
busy-IsSound = record {
  users = ((refl, (refl, (refl, tt))), (refl, (refl, (refl, tt))));
  emails = (refl, (refl, (refl, tt)));
  teams = ((refl, tt), (refl, tt));
  memberships = (refl, (refl, tt));
  tasks = ((refl, (refl, (refl, tt))), (refl, (refl, (refl, tt))));
  entries = ((refl, (refl, (refl, tt))), (refl, (refl, (refl, tt))));
  foreign =
      ((refl, tt), (refl, (refl, tt)), (refl, (refl, (refl, tt))), (refl, (refl, (refl, tt))));
}

select_team_stats-counts_example :
    select_team_stats binary (pos 90) busy
    ≡ sort_by earlier_stats (map (stats_of binary (pos 90) busy) (busy.teams))
select_team_stats-counts_example =
    select_team_stats-counts binary (pos 90) busy counters busy-IsSound

abbrev group : ℤ → ℤ → ℕ → Group
group team user count = record {
  team_id = team;
  team_name = [];
  user_id = user;
  user_name = [];
  task_count = count;
}

abbrev groups : List Group
groups =
    group (pos 1) (pos 4) 2
    ∷ group (pos 2) (pos 1) 1
    ∷ group (pos 1) (pos 3) 2
    ∷ group (pos 1) (pos 2) 5
    ∷ group (pos 1) (pos 1) 1
    ∷ []

rank_groups-podium_example :
    keep (λ r. r.team_id ==ℤ pos 1) (rank_groups groups)
    ≡ number_from 1 (take 3 (sort_by better (keep (λ g. g.team_id ==ℤ pos 1) groups)))
rank_groups-podium_example = rank_groups-podium groups (pos 1)

creator_groups-counts_example :
    (any
        (is_group binary (pos 0) busy counters busy-IsSound (pos 1) (pos 2))
        (creator_groups binary (from_tasks (pos 0) busy))
      ≡ any (made binary (pos 0) busy counters busy-IsSound (pos 1) (pos 2)) (busy.tasks))
    × IsDistinct
        (λ g h. is_group binary (pos 0) busy counters busy-IsSound g.team_id g.user_id h)
        (creator_groups binary (from_tasks (pos 0) busy))
    × All
        (λ g.
          g.task_count
          ≡ length (
              keep
                (made binary (pos 0) busy counters busy-IsSound g.team_id g.user_id)
                (busy.tasks)))
        (creator_groups binary (from_tasks (pos 0) busy))
creator_groups-counts_example =
    creator_groups-counts binary (pos 0) busy counters busy-IsSound (pos 1) (pos 2)
