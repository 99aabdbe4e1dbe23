-- ===== src/Api/Services/Invariant.antt =====
-- What the database promises, it promises behind every request.
use secunda_test.Base.{ℤ, ◌≡◌}
use secunda_test.Text.{Text}
use secunda_test.Errors.Action.{Action}
use secunda_test.Errors.Respect.{Order, Respects}
use secunda_test.Domain.{TaskFilter}
use secunda_test.Database.{Rows, Counters, Db}
use secunda_test.Database.Preservation.{Promise, Kept, Keeps}
use secunda_test.Repository.Users
use secunda_test.Repository.Teams
use secunda_test.Repository.Tasks
use secunda_test.Repository.Analytics.{integrity_issues}
use secunda_test.Repository.Analytics.Stats.{team_stats}
use secunda_test.Repository.Analytics.Creators.{top_creators}
use secunda_test.Repository.Changes.{Change}
use secunda_test.Repository.Soundness.{IsSound}
use secunda_test.Repository.Reachable.{no_rows, no_counters}
use secunda_test.Repository.Reachable.Invariant.{
  query-Keeps, create_user-Keeps, create_team-Keeps, join_team-Keeps, create_task-Keeps,
  update_task-Keeps, safety, change-IsSafe, no_rows-IsSound,
}
use secunda_test.Repository.Reachable.Growth.{IsGrown, growth, change-IsGrown}
use secunda_test.Service.Auth.Respect as AuthRespect
use secunda_test.Service.Team.Respect as TeamRespect
use secunda_test.Service.Task.Respect as TaskRespect
use secunda_test.Api.Services.{
  Surroundings, World, in_db, beside, auth_svc, team_svc, task_svc, Request, register, login,
  create_team, list_teams, invite, create_task, list_tasks, update_task, task_history,
  get_team_stats, get_top_creators, get_integrity_issues, behind, Served, begun, answered, elapsed,
}

module _ {X : Type 0} (s : Surroundings X) (p : Promise)
    (keeps : (r r' : Rows) (n k : Counters)
      → Change s.collation r n r' k
      → p.relates r n r' k) where
  abbrev order : Order (World X)
  order = record {
    relates = λ u w. Kept p u.0 w.0;
    same = λ w. p.same w.0.rows w.0.counters;
    then = λ u v w h k. p.then h k;
  }

  in_db-Respects : {A : Type 0} (m : Action Db A) → Keeps p m → Respects order (in_db {X = X} m)
  unfolding in_db
  in_db-Respects m h w = h w.0

  beside-Respects : {A : Type 0} (m : Action X A) → Respects order (beside m)
  unfolding beside
  beside-Respects m w = p.same w.0.rows w.0.counters

  get_by_email-Keeps : (email : Text) → Keeps p (Users.get_by_email s.collation email)
  unfolding Users.get_by_email
  get_by_email-Keeps email = query-Keeps s.collation p keeps _ _

  get_member-Keeps : (team_id user_id : ℤ) → Keeps p (Teams.get_member team_id user_id)
  unfolding Teams.get_member
  get_member-Keeps team_id user_id = query-Keeps s.collation p keeps _ _

  list_by_user-Keeps : (user_id : ℤ) → Keeps p (Teams.list_by_user s.team_order user_id)
  unfolding Teams.list_by_user
  list_by_user-Keeps user_id = query-Keeps s.collation p keeps _ _

  get_by_id-Keeps : (id : ℤ) → Keeps p (Tasks.get_by_id id)
  unfolding Tasks.get_by_id
  get_by_id-Keeps id = query-Keeps s.collation p keeps _ _

  list-Keeps : (f : TaskFilter) → Keeps p (Tasks.list f)
  unfolding Tasks.list
  list-Keeps f = query-Keeps s.collation p keeps _ _

  history-Keeps : (task_id : ℤ) → Keeps p (Tasks.history task_id)
  unfolding Tasks.history
  history-Keeps task_id = query-Keeps s.collation p keeps _ _

  team_stats-Keeps : Keeps p (team_stats s.collation s.calendar)
  unfolding team_stats
  team_stats-Keeps = query-Keeps s.collation p keeps _ _

  top_creators-Keeps : Keeps p (top_creators s.collation s.calendar)
  unfolding top_creators
  top_creators-Keeps = query-Keeps s.collation p keeps _ _

  integrity_issues-Keeps : Keeps p integrity_issues
  unfolding integrity_issues
  integrity_issues-Keeps = query-Keeps s.collation p keeps _ _

  auth_svc-IsRespectful : AuthRespect.IsRespectful order (auth_svc s)
  auth_svc-IsRespectful = record {
    create =
        λ u. in_db-Respects (Users.create s.collation u) (create_user-Keeps s.collation p keeps u);
    get_by_email =
        λ email. in_db-Respects (Users.get_by_email s.collation email) (get_by_email-Keeps email);
    generate = λ password. beside-Respects (s.bcrypt.generate password);
  }

  team_svc-IsRespectful : TeamRespect.IsRespectful order (team_svc s)
  team_svc-IsRespectful = record {
    create_with_owner = λ name owner_id.
        in_db-Respects (Teams.create_with_owner name owner_id)
          (create_team-Keeps s.collation p keeps name owner_id);
    list_by_user = λ user_id.
        in_db-Respects (Teams.list_by_user s.team_order user_id) (list_by_user-Keeps user_id);
    get_member = λ team_id user_id.
        in_db-Respects (Teams.get_member team_id user_id) (get_member-Keeps team_id user_id);
    add_member = λ team_id user_id role.
        in_db-Respects (Teams.add_member team_id user_id role)
          (join_team-Keeps s.collation p keeps team_id user_id role);
    get_by_email =
        λ email. in_db-Respects (Users.get_by_email s.collation email) (get_by_email-Keeps email);
    send_invite = λ to label. beside-Respects (s.mailer.send_invite to label);
  }

  task_svc-IsRespectful : TaskRespect.IsRespectful order (task_svc s)
  task_svc-IsRespectful = record {
    get_member = λ team_id user_id.
        in_db-Respects (Teams.get_member team_id user_id) (get_member-Keeps team_id user_id);
    create = λ t. in_db-Respects (Tasks.create t) (create_task-Keeps s.collation p keeps t);
    get_by_id = λ id. in_db-Respects (Tasks.get_by_id id) (get_by_id-Keeps id);
    list = λ f. in_db-Respects (Tasks.list f) (list-Keeps f);
    update_with_history = λ t hs.
        in_db-Respects (Tasks.update_with_history t hs)
          (update_task-Keeps s.collation p keeps t hs);
    history = λ task_id. in_db-Respects (Tasks.history task_id) (history-Keeps task_id);
    get_tasks = λ key. beside-Respects (s.cache.get_tasks key);
    set_tasks = λ key ts. beside-Respects (s.cache.set_tasks key ts);
    invalidate_team = λ team_id. beside-Respects (s.cache.invalidate_team team_id);
    warn = λ x w. p.same w.0.rows w.0.counters;
  }

  behind-Kept : (r : Request) (w : World X) → Kept p w.0 (behind s r w).0
  unfolding behind
  behind-Kept (register input) w =
      AuthRespect.register-Respects order (auth_svc s) auth_svc-IsRespectful input w
  behind-Kept (login email password) w =
      AuthRespect.login-Respects order (auth_svc s) auth_svc-IsRespectful email password w
  behind-Kept (create_team name owner_id) w =
      TeamRespect.create-Respects order (team_svc s) team_svc-IsRespectful name owner_id w
  behind-Kept (list_teams user_id) w =
      TeamRespect.list_for_user-Respects order (team_svc s) team_svc-IsRespectful user_id w
  behind-Kept (invite input) w =
      TeamRespect.invite-Respects order (team_svc s) team_svc-IsRespectful input w
  behind-Kept (create_task input) w =
      TaskRespect.create-Respects order (task_svc s) task_svc-IsRespectful input w
  behind-Kept (list_tasks f actor_id) w =
      TaskRespect.list-Respects order (task_svc s) task_svc-IsRespectful f actor_id w
  behind-Kept (update_task input) w =
      TaskRespect.update-Respects order (task_svc s) task_svc-IsRespectful input w
  behind-Kept (task_history task_id actor_id) w =
      TaskRespect.history-Respects order (task_svc s) task_svc-IsRespectful task_id actor_id w
  behind-Kept get_team_stats w =
      in_db-Respects (team_stats s.collation s.calendar) team_stats-Keeps w
  behind-Kept get_top_creators w =
      in_db-Respects (top_creators s.collation s.calendar) top_creators-Keeps w
  behind-Kept get_integrity_issues w = in_db-Respects integrity_issues integrity_issues-Keeps w

  served-Kept : {start w : World X} → Served s start w → Kept p start.0 w.0
  served-Kept {start = start} begun = p.same start.0.rows start.0.counters
  served-Kept (answered r {w = w} served) = p.then (served-Kept served) (behind-Kept r w)
  served-Kept (elapsed now faults x served) = served-Kept served

-- From empty tables, whatever is asked of the services and whichever of their calls fail, the database stays
-- sound: no key, email or membership occurs twice, every reference has its row, roles and statuses are
-- valid. And no request removes or changes a user, a team, a membership or an entry of the history of any
-- database that it starts from.
pub served-IsSound :
    {X : Type 0} (s : Surroundings X) (first start w : World X)
    → first.0.rows ≡ no_rows
    → first.0.counters ≡ no_counters
    → Served s first start
    → Served s start w
    → IsSound s.collation w.0.rows w.0.counters × IsGrown start.0.rows w.0.rows
served-IsSound s first start w empty unused before served =
    let sound : IsSound s.collation first.0.rows first.0.counters =
      rw (empty, unused) (no_rows-IsSound s.collation) in
    let (early, _) = served-Kept s (safety s.collation) (change-IsSafe s.collation) before sound in
    (
      (served-Kept s (safety s.collation) (change-IsSafe s.collation) served early).0,
      served-Kept s growth (change-IsGrown s.collation) served,
    )
