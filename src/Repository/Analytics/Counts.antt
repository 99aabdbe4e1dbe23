-- ===== src/Repository/Analytics/Counts.antt =====
-- The joins of `TeamStats` do not inflate its counts.
use secunda_test.Repository.Teams.{is_membership}
use secunda_test.Repository.Soundness.{IsSound}
use secunda_test.Base.{
  length-map, numbers-IsDistinct, IsIn, is_in-map-keep, map_same, left_join-Stutters,
  left_join-Stutters_by, ◌≡◌, refl, sym, ap, ◌∙◌, ◌&&◌, map, ℤ, ◌==ℤ◌, length, keep, sort_by,
  count_distinct, count_distinct-length, IsDistinct, Stutters, firsts-Stutters, keep-IsDistinct,
  arith,
}
use secunda_test.Domain.{Team, TeamMember, Task}
use secunda_test.Database.{Counters, Collation, Rows}
use secunda_test.Repository.Analytics.Stats.{
  team_of, of_team, in_team, done_entry, from_teams, same_group, values, member_value, done_value,
  group_row, earlier_stats, select_team_stats,
}
use secunda_test.Repository.Analytics.Found.{
  was_done, stats_of, group, is_in-group, members_found, done_found, members_same, done_same,
  users-IsDistinct, teams-IsDistinct,
}

module _ (c : Collation) (since : ℤ) (rows : Rows) where
  module _ (t : Team) (in_teams : IsIn t rows.teams) where
    member_count_same :
        IsDistinct (λ (m k : TeamMember). is_membership m.team_id m.user_id k) rows.members
        → count_distinct (values (map member_value (group c since rows t)))
          ≡ length (keep (of_team t) rows.members)
    member_count_same d =
        let users = map (λ (m : TeamMember). m.user_id) (keep (of_team t) rows.members) in
        count_distinct-length (values (map member_value (group c since rows t))) users
          (users-IsDistinct t rows.members d)
          (λ z.
            is_in-group c since rows t member_value z
            ∙ members_found c since rows t z
            ∙ members_same c since rows t in_teams z
            ∙ sym (is_in-map-keep (λ (m : TeamMember). m.user_id) (of_team t) z rows.members))
        ∙ length-map (λ (m : TeamMember). m.user_id) (keep (of_team t) rows.members)

    done_count_same :
        IsDistinct (λ (a b : Task). b.id ==ℤ a.id) rows.tasks
        → count_distinct (values (map done_value (group c since rows t)))
          ≡ length (keep (λ k. in_team t k && was_done c since rows k) rows.tasks)
    done_count_same d =
        let ks = keep (λ k. in_team t k && was_done c since rows k) rows.tasks in
        count_distinct-length (values (map done_value (group c since rows t)))
          (map (λ (k : Task). k.id) ks)
          (numbers-IsDistinct (λ (k : Task). k.id) ks
            (keep-IsDistinct (λ (a b : Task). b.id ==ℤ a.id)
              (λ k. in_team t k && was_done c since rows k) rows.tasks d))
          (λ z.
            is_in-group c since rows t done_value z
            ∙ done_found c since rows t z
            ∙ done_same c since rows t in_teams z
            ∙ sym (
                is_in-map-keep (λ (k : Task). k.id) (λ k. in_team t k && was_done c since rows k) z
                  rows.tasks))
        ∙ length-map (λ (k : Task). k.id) ks

  joined-Stutters : Stutters rows.teams (map team_of (from_teams c since rows))
  unfolding from_teams
  joined-Stutters =
      left_join-Stutters_by (λ r. r.0.0) (λ r. done_entry c since r.1) _ rows.history
        (left_join-Stutters_by (λ r. r.0) (λ r. in_team r.0) _ rows.tasks
          (left_join-Stutters of_team rows.teams rows.members))

  -- On sound tables the report of the four joined tables has one row for each team, in the order of their
  -- ids, with the number of its members and the number of its tasks that an entry of the history moved to
  -- done since the given time: no join makes a member or a task count twice, or drops a team.
  pub select_team_stats-counts :
      (n : Counters)
      → IsSound c rows n
      → select_team_stats c since rows
        ≡ sort_by earlier_stats (map (stats_of c since rows) rows.teams)
  unfolding select_team_stats
  select_team_stats-counts n s = ap (sort_by earlier_stats) (
      ap (map (λ t. group_row (group c since rows t) t)) (
        firsts-Stutters (same_group c) (λ t. ground (arith, c.same_refl t.name)) joined-Stutters
          (teams-IsDistinct c rows.teams s.teams.1))
      ∙ map_same (λ t. group_row (group c since rows t) t) (stats_of c since rows) rows.teams
          (λ t i. rw (member_count_same t i s.memberships, done_count_same t i s.tasks.1) refl))
