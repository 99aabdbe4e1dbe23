-- ===== src/Repository/Reachable/Invariant.antt =====
-- What every statement that writes keeps, every reachable database has.
use secunda_test.Base.{ℤ, List, [], ◌∷◌, ◌≡◌}
use secunda_test.Errors.{GoError, within}
use secunda_test.Errors.Action.{Result, ◌>>=◌, Action, pure, on_error}
use secunda_test.Text.{Text}
use secunda_test.Domain.{Role, User, Task, TaskHistory, role_owner}
use secunda_test.Database.{Collation, Rows, Counters, Db}
use secunda_test.Database.Statement.{Statement, run}
use secunda_test.Database.Preservation.{
  Promise, Kept, Keeps, run-Keeps, pure-Keeps, on_error-Keeps, bind-Keeps, with_tx-Keeps,
}
use secunda_test.Repository.Users.{insert_user, insert_error}
use secunda_test.Repository.Teams.{
  insert_team, insert_member, insert_with_owner, create_with_owner, add_member, member_error,
}
use secunda_test.Repository.Tasks.{
  insert_task, insert_history, insert_all, update_and_insert, update_with_history,
}
use secunda_test.Repository.Users
use secunda_test.Repository.Tasks
use secunda_test.Repository.Changes.{
  Change, AtMost-refl, insert_user-Change, insert_team-Change, insert_member-Change,
  insert_task-Change, insert_history-Change, update_task-Change, nothing, new_user, new_team,
  new_member, new_task, new_entry, set_task,
}
use secunda_test.Repository.Soundness.{IsSound}
use secunda_test.Repository.Soundness.Growing.{AtMost-trans, IsSound-grow}
use secunda_test.Repository.Soundness.Adding.{
  IsSafe, unchanged, user_added, team_added, member_added, task_added, entry_added,
}
use secunda_test.Repository.Soundness.Setting.{task_set}
use secunda_test.Repository.Reachable.{
  no_rows, no_counters, Step, create_user, create_team, join_team, create_task, update_task, elapse,
  Reach, here, next,
}

-- A promise that every change keeps, every call keeps.
module _ (c : Collation) (p : Promise)
    (keeps : (r r' : Rows) (n k : Counters) → Change c r n r' k → p.relates r n r' k) where
  call-Keeps :
      {A : Type 0} (change : GoError → GoError) (st : Statement A)
      → ((now : ℤ) (r : Rows) (n : Counters) → Change c r n (st now r n).1 (st now r n).2)
      → Keeps p (on_error change (run st))
  call-Keeps change st h =
      on_error-Keeps p change (run st) (run-Keeps p st (λ now r n. keeps r _ n _ (h now r n)))

  -- A query changes nothing.
  pub query-Keeps :
      {A : Type 0} (change : GoError → GoError) (q : ℤ → Rows → Result A)
      → Keeps p (on_error change (run (λ now r n. (q now r, r, n))))
  query-Keeps change q =
      call-Keeps change (λ now r n. (q now r, r, n)) (λ now r n. nothing n (AtMost-refl n))

  pub create_user-Keeps : (u : User) → Keeps p (Users.create c u)
  unfolding Users.create
  create_user-Keeps u =
      call-Keeps insert_error (insert_user c u) (λ now r n. insert_user-Change c r n u now)

  insert_with_owner-Keeps : (name : Text) (owner_id : ℤ) → Keeps p (insert_with_owner name owner_id)
  unfolding insert_with_owner
  insert_with_owner-Keeps name owner_id =
      let insert = on_error (within "insert team") (run (insert_team name owner_id)) in
      let join : ℤ → Action Db (Unit {0}) = λ team_id.
        on_error (within "insert owner membership")
          (run (insert_member team_id owner_id role_owner)) in
      bind-Keeps p (λ team_id. join team_id >>= λ _. pure team_id)
        (λ team_id.
          bind-Keeps p (λ _. pure team_id) (λ _. pure-Keeps p team_id) (join team_id)
            (call-Keeps (within "insert owner membership")
              (insert_member team_id owner_id role_owner)
              (λ now r n. insert_member-Change c r n team_id owner_id role_owner now)))
        insert
        (call-Keeps (within "insert team") (insert_team name owner_id)
          (λ now r n. insert_team-Change c r n name owner_id now))

  pub create_team-Keeps : (name : Text) (owner_id : ℤ) → Keeps p (create_with_owner name owner_id)
  unfolding create_with_owner
  create_team-Keeps name owner_id =
      with_tx-Keeps p (insert_with_owner name owner_id) (insert_with_owner-Keeps name owner_id)

  pub join_team-Keeps :
      (team_id user_id : ℤ) (role : Role) → Keeps p (add_member team_id user_id role)
  unfolding add_member
  join_team-Keeps team_id user_id role =
      call-Keeps member_error (insert_member team_id user_id role)
        (λ now r n. insert_member-Change c r n team_id user_id role now)

  pub create_task-Keeps : (t : Task) → Keeps p (Tasks.create t)
  unfolding Tasks.create
  create_task-Keeps t =
      call-Keeps (within "insert task") (insert_task t) (λ now r n. insert_task-Change c r n t now)

  insert_all-Keeps : (hs : List TaskHistory) → Keeps p (insert_all hs)
  unfolding insert_all
  insert_all-Keeps [] = pure-Keeps p tt
  insert_all-Keeps (h ∷ hs) =
      bind-Keeps p (λ _. insert_all hs) (λ _. insert_all-Keeps hs)
        (on_error (within "insert history") (run (insert_history h)))
        (call-Keeps (within "insert history") (insert_history h)
          (λ now r n. insert_history-Change c r n h now))

  pub update_task-Keeps : (t : Task) (hs : List TaskHistory) → Keeps p (update_with_history t hs)
  unfolding update_with_history update_and_insert
  update_task-Keeps t hs = with_tx-Keeps p (update_and_insert t hs) (
      bind-Keeps p (λ _. insert_all hs) (λ _. insert_all-Keeps hs)
        (on_error (within "update task") (run (Tasks.update_task t)))
        (call-Keeps (within "update task") (Tasks.update_task t)
          (λ now r n. update_task-Change c r n t now)))

  step-Kept : {db db' : Db} → Step c db db' → Kept p db db'
  step-Kept (create_user db u) = create_user-Keeps u db
  step-Kept (create_team db name owner_id) = create_team-Keeps name owner_id db
  step-Kept (join_team db team_id user_id role) = join_team-Keeps team_id user_id role db
  step-Kept (create_task db t) = create_task-Keeps t db
  step-Kept (update_task db t history) = update_task-Keeps t history db
  step-Kept (elapse db now faults) = p.same db.rows db.counters

  pub reach-Kept : {start db : Db} → Reach c start db → Kept p start db
  reach-Kept {start = start} here = p.same start.rows start.counters
  reach-Kept (next reached step) = p.then (reach-Kept reached) (step-Kept step)

pub change-IsSafe :
    (c : Collation) (r r' : Rows) (n k : Counters) → Change c r n r' k → IsSafe c r n r' k
change-IsSafe c r _ n _ (nothing k h) = unchanged c r n k h
change-IsSafe c r _ n _ (new_user u new fresh) = user_added c r n u new fresh
change-IsSafe c r _ n _ (new_team t new valid) = team_added c r n t new valid
change-IsSafe c r _ n _ (new_member m new valid) = member_added c r n m new valid
change-IsSafe c r _ n _ (new_task t new valid) = task_added c r n t new valid
change-IsSafe c r _ n _ (new_entry h new valid) = entry_added c r n h new valid
change-IsSafe c r _ n _ (set_task t now typed known) = task_set t now r typed known c n

abbrev pub safety : Collation → Promise
safety c = record {
  relates = IsSafe c;
  same = λ r n s. (s, AtMost-refl n);
  then = λ {r} {r1} {r2} {n} {n1} {n2} h g s.
      let (sound, more) = h s in
      let (kept, most) = g sound in (kept, AtMost-trans n n1 n2 more most);
  undone = λ {r} {r1} {n} {n1} h s. (IsSound-grow c r n n1 (h s).1 s, (h s).1);
}

pub no_rows-IsSound : (c : Collation) → IsSound c no_rows no_counters
no_rows-IsSound c = record {
  users = (tt, tt);
  emails = tt;
  teams = (tt, tt);
  memberships = tt;
  tasks = (tt, tt);
  entries = (tt, tt);
  foreign = (tt, tt, tt, tt);
}

-- Every database that the repositories reach from empty tables is sound, whichever statements fail and
-- wherever a transaction is undone: no key, email or membership occurs twice, the numbers are the
-- counters', roles and statuses are valid, and every reference has its row.
pub reach-IsSound :
    (c : Collation) (start db : Db)
    → start.rows ≡ no_rows
    → start.counters ≡ no_counters
    → Reach c start db
    → IsSound c db.rows db.counters
reach-IsSound c start db empty unused reached =
    (reach-Kept c (safety c) (change-IsSafe c) reached (rw (empty, unused) (no_rows-IsSound c))).0
