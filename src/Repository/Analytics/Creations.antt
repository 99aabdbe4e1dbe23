-- ===== src/Repository/Analytics/Creations.antt =====
-- What the groups of `TopCreators` count.
use secunda_test.Base.{
  All-keep, ◌≡◌, ap, ◌∙◌, Bool, true, ◌&&◌, List, [], ◌∷◌, ℤ, ◌==ℤ◌, leb_ℤ, All, All-impl, keep,
  length, inner_join, firsts, IsIn, any, any-keep, any-map, IsDistinct, refl, arith,
}
use secunda_test.Domain.{User, Team, Task}
use secunda_test.Database.{Collation, Rows, Counters, has_team, has_user}
use secunda_test.Repository.Changes.{task_ok}
use secunda_test.Repository.Soundness.{IsSound}
use secunda_test.Repository.Analytics.Creators.{
  Made, Group, from_tasks, same_maker, group_of, creator_groups,
}
use secunda_test.Repository.Analytics.Partners.{
  one_by_number, length-keep-inner_join, All-inner_join, All-map, All-unit, All-firsts, any-firsts,
  any-inner_join, firsts-IsDistinct_by, IsDistinct-map, keep-keep_and, same_text,
}

module _ (c : Collation) (since : ℤ) (rows : Rows) (n : Counters) (s : IsSound c rows n) where
  abbrev Fact : Made → Type 0
  Fact r =
      ((r.0.1.id ==ℤ r.0.0.team_id) ≡ true)
      × IsIn r.0.1 rows.teams
      × ((r.1.id ==ℤ r.0.0.created_by) ≡ true)
      × IsIn r.1 rows.users

  abbrev by_team : Task → Team → Bool
  by_team k t = t.id ==ℤ k.team_id

  abbrev by_user : Task × Team → User → Bool
  by_user r u = u.id ==ℤ r.0.created_by

  abbrev joined_teams : List (Task × Team)
  joined_teams = inner_join by_team rows.tasks rows.teams

  abbrev joined_users : List Made
  joined_users = inner_join by_user joined_teams rows.users

  -- The tasks of the month that a user made in a team.
  abbrev pub made : ℤ → ℤ → Task → Bool
  made team_id user_id k =
      leb_ℤ since k.created_at && k.team_id ==ℤ team_id && k.created_by ==ℤ user_id

  module _ (r : Made) (fact : Fact r) where
    abbrev in_month_group : Made → Bool
    in_month_group x = leb_ℤ since x.0.0.created_at && same_maker c r x

    abbrev without_user : Task × Team → Bool
    without_user x =
        leb_ℤ since x.0.created_at
        && (r.0.0.team_id ==ℤ x.0.team_id
            && (c.same r.0.1.name x.1.name && (r.0.0.created_by ==ℤ x.0.created_by)))

    one_user :
        (k : Task) (t : Team)
        → has_user rows k.created_by ≡ true
        → (u : User) × (keep (λ u. u.id ==ℤ k.created_by) rows.users ≡ u ∷ [])
          × (in_month_group ((k, t), u) ≡ without_user (k, t))
    one_user k t known =
        let (u, one) = one_by_number (λ (u : User). u.id) k.created_by rows.users s.users.1 known in
        let text : (r.0.0.created_by ==ℤ k.created_by) ≡ true → c.same r.1.name u.name ≡ true = λ e.
          same_text c (λ (u : User). u.name) (λ u. u.id ==ℤ k.created_by) u r.1 rows.users one
            (ground (arith, e, fact.2)) fact.3 in
        (u, one, ground (arith, text))

    one_team :
        (k : Task)
        → has_team rows k.team_id ≡ true
        → (t : Team) × (keep (λ t. t.id ==ℤ k.team_id) rows.teams ≡ t ∷ [])
          × (without_user (k, t) ≡ made r.0.0.team_id r.0.0.created_by k)
    one_team k known =
        let (t, one) = one_by_number (λ (t : Team). t.id) k.team_id rows.teams s.teams.1 known in
        let text : (r.0.0.team_id ==ℤ k.team_id) ≡ true → c.same r.0.1.name t.name ≡ true = λ e.
          same_text c (λ (t : Team). t.name) (λ t. t.id ==ℤ k.team_id) t r.0.1 rows.teams one
            (ground (arith, e, fact.0)) fact.1 in
        (t, one, ground (arith, text))

    group_count :
        length (keep (same_maker c r) (from_tasks since rows))
        ≡ length (keep (made r.0.0.team_id r.0.0.created_by) rows.tasks)
    unfolding from_tasks
    group_count =
        ap length (keep-keep_and (same_maker c r) (λ x. leb_ℤ since x.0.0.created_at) joined_users)
        ∙ length-keep-inner_join by_user rows.users in_month_group without_user joined_teams (
            All-inner_join by_team rows.teams (λ k. task_ok rows k ≡ true) _
              (λ k t h e i. one_user k t (ground (arith, h))) rows.tasks s.foreign.2)
        ∙ length-keep-inner_join by_team rows.teams without_user
            (made r.0.0.team_id r.0.0.created_by) rows.tasks
            (All-impl (λ k h. one_team k (ground (arith, h))) rows.tasks s.foreign.2)

  from_tasks-Fact : All Fact (from_tasks since rows)
  unfolding from_tasks
  from_tasks-Fact =
      All-keep Fact (λ x. leb_ℤ since x.0.0.created_at) joined_users
        (All-inner_join by_user rows.users
          (λ (r : Task × Team). ((r.1.id ==ℤ r.0.team_id) ≡ true) × IsIn r.1 rows.teams) Fact
          (λ r u h e i. (h.0, h.1, e, i)) joined_teams
          (All-inner_join by_team rows.teams (λ k. Unit {0}) _ (λ k t h e i. (e, i)) rows.tasks
            (All-unit rows.tasks)))

  -- The groups of one user in one team.
  abbrev pub is_group : ℤ → ℤ → Group → Bool
  is_group team_id user_id g = g.team_id ==ℤ team_id && g.user_id ==ℤ user_id

  abbrev is_by : ℤ → ℤ → Made → Bool
  is_by team_id user_id r = r.0.0.team_id ==ℤ team_id && r.0.0.created_by ==ℤ user_id

  module _ (r x : Made) (fact : Fact r) (other : Fact x) where
    -- Rows of one team have one name of it, and rows of one user one name of his.
    one_team_name : (x.0.0.team_id ==ℤ r.0.0.team_id) ≡ true → c.same r.0.1.name x.0.1.name ≡ true
    one_team_name same =
        let (t, one) =
          one_by_number (λ (t : Team). t.id) r.0.0.team_id rows.teams s.teams.1
            (fact.1 (λ t. t.id ==ℤ r.0.0.team_id) fact.0) in
        let mine =
          same_text c (λ (t : Team). t.name) (λ t. t.id ==ℤ r.0.0.team_id) t r.0.1 rows.teams one
            fact.0 fact.1 in
        let theirs =
          same_text c (λ (t : Team). t.name) (λ t. t.id ==ℤ r.0.0.team_id) t x.0.1 rows.teams one
            (ground (arith, same, other.0)) other.1 in
        c.same_trans r.0.1.name t.name x.0.1.name mine (c.same_sym x.0.1.name t.name theirs)

    one_user_name : (x.0.0.created_by ==ℤ r.0.0.created_by) ≡ true → c.same r.1.name x.1.name ≡ true
    one_user_name same =
        let (u, one) =
          one_by_number (λ (u : User). u.id) r.0.0.created_by rows.users s.users.1
            (fact.3 (λ u. u.id ==ℤ r.0.0.created_by) fact.2) in
        let mine =
          same_text c (λ (u : User). u.name) (λ u. u.id ==ℤ r.0.0.created_by) u r.1 rows.users one
            fact.2 fact.3 in
        let theirs =
          same_text c (λ (u : User). u.name) (λ u. u.id ==ℤ r.0.0.created_by) u x.1 rows.users one
            (ground (arith, same, other.2)) other.3 in
        c.same_trans r.1.name u.name x.1.name mine (c.same_sym x.1.name u.name theirs)

    same_maker_of_numbers : is_by r.0.0.team_id r.0.0.created_by x ≡ true → same_maker c r x ≡ true
    same_maker_of_numbers h = ground (arith, h, one_team_name, one_user_name)

  same_maker-is_by :
      (team_id user_id : ℤ) (r x : Made)
      → same_maker c r x ≡ true
      → is_by team_id user_id r ≡ is_by team_id user_id x
  same_maker-is_by team_id user_id r x h = ground (arith, h)

  -- The joins have a row for each task.
  any-from_tasks :
      (team_id user_id : ℤ)
      → any (is_by team_id user_id) (from_tasks since rows) ≡ any (made team_id user_id) rows.tasks
  unfolding from_tasks
  any-from_tasks team_id user_id =
      let in_month : Task → Bool =
        λ k. leb_ℤ since k.created_at && (k.team_id ==ℤ team_id && k.created_by ==ℤ user_id) in
      any-keep (is_by team_id user_id) (λ r. leb_ℤ since r.0.0.created_at) joined_users
      ∙ any-inner_join by_user rows.users (λ r. in_month r.0.0) (λ x. in_month x.0) joined_teams
          (All-inner_join by_team rows.teams (λ k. task_ok rows k ≡ true) _
            (λ k t h e i.
              let (u, one) =
                one_by_number (λ (u : User). u.id) k.created_by rows.users s.users.1
                  (ground (arith, h)) in
              (u, one, refl))
            rows.tasks s.foreign.2)
      ∙ any-inner_join by_team rows.teams (λ x. in_month x.0) (made team_id user_id) rows.tasks
          (All-impl
            (λ k h.
              let (t, one) =
                one_by_number (λ (t : Team). t.id) k.team_id rows.teams s.teams.1
                  (ground (arith, h)) in
              (t, one, ground arith))
            rows.tasks s.foreign.2)

  -- On sound tables the creators' report has a group for a user in a team exactly when the user made a task
  -- there since the given time, and no second one; and each group counts the tasks that its user made in its
  -- team since then: the joins with teams and users neither repeat a task nor drop one.
  pub creator_groups-counts :
      (team_id user_id : ℤ)
      → (any (is_group team_id user_id) (creator_groups c (from_tasks since rows))
          ≡ any (made team_id user_id) rows.tasks)
        × IsDistinct
            (λ g h. is_group g.team_id g.user_id h)
            (creator_groups c (from_tasks since rows))
        × All
            (λ g. g.task_count ≡ length (keep (made g.team_id g.user_id) rows.tasks))
            (creator_groups c (from_tasks since rows))
  unfolding creator_groups
  creator_groups-counts team_id user_id = (
    any-map (is_group team_id user_id) (group_of c (from_tasks since rows))
          (firsts (same_maker c) (from_tasks since rows))
        ∙ any-firsts (same_maker c) (is_by team_id user_id) (same_maker-is_by team_id user_id)
            (from_tasks since rows)
        ∙ any-from_tasks team_id user_id,
    IsDistinct-map (group_of c (from_tasks since rows)) (same_maker c) _ Fact
        (λ r x f g h. same_maker_of_numbers r x f g h)
        (firsts (same_maker c) (from_tasks since rows))
        (All-firsts Fact (same_maker c) (from_tasks since rows) from_tasks-Fact)
        (firsts-IsDistinct_by (same_maker c) (from_tasks since rows)),
    All-map (λ g. g.task_count ≡ length (keep (made g.team_id g.user_id) rows.tasks))
        (group_of c (from_tasks since rows)) (firsts (same_maker c) (from_tasks since rows))
        (All-firsts _ (same_maker c) (from_tasks since rows)
          (All-impl (λ r f. group_count r f) (from_tasks since rows) from_tasks-Fact)),
  )
