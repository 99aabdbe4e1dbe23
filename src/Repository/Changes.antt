-- ===== src/Repository/Changes.antt =====
-- What the statements that write may do to the tables.
use secunda_test.Base.{
  suc, ◌≤◌, ◌≡◌, refl, Bool, true, false, ◌&&◌, ◌||◌, ◌∷◌, map, ℤ, pos, any, ltb, length, arith,
  Bool-cases, inl, inr,
}
use secunda_test.Text.{Text}
use secunda_test.Domain.{Role, User, Team, TeamMember, Task, TaskHistory, role_valid, status_valid}
use secunda_test.Database.{Collation, Rows, Counters, has_user, has_team, has_task}
use secunda_test.Repository.Users.{over_255, insert_user, user_row}
use secunda_test.Repository.Teams.{insert_team, insert_member, is_membership}
use secunda_test.Repository.Tasks.{
  references, insert_task, insert_history, history_row, over_text, over_text?, update_task, set_row,
}

-- The counters only grow.
abbrev pub AtMost : Counters → Counters → Type 0
AtMost n k =
    (n.users ≤ k.users) × (n.teams ≤ k.teams) × (n.tasks ≤ k.tasks) × (n.history ≤ k.history)

pub AtMost-refl : (n : Counters) → AtMost n n
AtMost-refl n = (omega arith, omega arith, omega arith, omega arith)

-- What a row has to meet in the other tables.
abbrev pub team_ok : Rows → Team → Bool
team_ok r t = has_user r t.created_by

abbrev pub member_ok : Rows → TeamMember → Bool
member_ok r m = role_valid m.role && has_team r m.team_id && has_user r m.user_id

abbrev pub task_ok : Rows → Task → Bool
task_ok r t =
    status_valid t.status
    && has_team r t.team_id
    && references r t.assignee_id
    && has_user r t.created_by

abbrev pub entry_ok : Rows → TaskHistory → Bool
entry_ok r h = has_task r h.task_id && has_user r h.changed_by

-- The changes that a statement may make: none, one new row, or the columns of a task.
pub data Change (c : Collation) (r : Rows) (n : Counters) : Rows → Counters → Type 0 where
  nothing : (k : Counters) → AtMost n k → Change c r n r k
  new_user :
      (u : User)
      → u.id ≡ pos (suc n.users)
      → any (λ (v : User). c.same v.email u.email) r.users ≡ false
      → Change c r n (record r { users = u ∷ r.users }) (record n { users = suc n.users })
  new_team :
      (t : Team)
      → t.id ≡ pos (suc n.teams)
      → team_ok r t ≡ true
      → Change c r n (record r { teams = t ∷ r.teams }) (record n { teams = suc n.teams })
  new_member :
      (m : TeamMember)
      → any (is_membership m.team_id m.user_id) r.members ≡ false
      → member_ok r m ≡ true
      → Change c r n (record r { members = m ∷ r.members }) n
  new_task :
      (t : Task)
      → t.id ≡ pos (suc n.tasks)
      → task_ok r t ≡ true
      → Change c r n (record r { tasks = t ∷ r.tasks }) (record n { tasks = suc n.tasks })
  new_entry :
      (h : TaskHistory)
      → h.id ≡ pos (suc n.history)
      → entry_ok r h ≡ true
      → Change c r n (record r { history = h ∷ r.history }) (record n { history = suc n.history })
  set_task :
      (t : Task) (now : ℤ)
      → status_valid t.status ≡ true
      → references r t.assignee_id ≡ true
      → Change c r n (record r { tasks = map (set_row t now) r.tasks }) n

module _ (c : Collation) (r : Rows) (n : Counters) where
  pub insert_user-Change :
      (u : User) (now : ℤ) → Change c r n (insert_user c u now r n).1 (insert_user c u now r n).2
  unfolding insert_user
  insert_user-Change u now =
      let k = record n { users = suc n.users } in
      elim (Bool-cases (over_255 u.email || over_255 u.name || over_255 u.password_hash)) [
        | inl long ↦ rw long (nothing k (ground arith))
        | inr short ↦ elim (Bool-cases (any (λ (v : User). c.same v.email u.email) r.users)) [
          | inl taken ↦ rw (short, taken) (nothing k (ground arith))
          | inr free ↦ rw (short, free) (new_user (user_row c u now (suc n.users)) refl free)
        ]
      ]

  pub insert_team-Change :
      (name : Text) (owner : ℤ) (now : ℤ)
      → Change c r n (insert_team name owner now r n).1 (insert_team name owner now r n).2
  unfolding insert_team
  insert_team-Change name owner now =
      let k = record n { teams = suc n.teams } in
      elim (Bool-cases (over_255 name)) [
        | inl long ↦ rw long (nothing k (ground arith))
        | inr short ↦ elim (Bool-cases (has_user r owner)) [
          | inr absent ↦ rw (short, absent) (nothing k (ground arith))
          | inl present ↦ rw (short, present) (new_team _ refl present)
        ]
      ]

  pub insert_member-Change :
      (team user : ℤ) (role : Role) (now : ℤ)
      → Change c r n
          (insert_member team user role now r n).1
          (insert_member team user role now r n).2
  unfolding insert_member
  insert_member-Change team user role now = elim (Bool-cases (role_valid role)) [
    | inr unknown ↦ rw unknown (nothing n (AtMost-refl n))
    | inl known ↦ elim (Bool-cases (any (is_membership team user) r.members)) [
      | inl taken ↦ rw (known, taken) (nothing n (AtMost-refl n))
      | inr free ↦ elim (Bool-cases (has_team r team && has_user r user)) [
        | inr absent ↦ rw (known, free, absent) (nothing n (AtMost-refl n))
        | inl present ↦
            rw (known, free, present) (new_member _ free (ground (arith, known, present)))
      ]
    ]
  ]

  pub insert_task-Change :
      (t : Task) (now : ℤ) → Change c r n (insert_task t now r n).1 (insert_task t now r n).2
  unfolding insert_task
  insert_task-Change t now =
      let k = record n { tasks = suc n.tasks } in
      elim (Bool-cases (ltb 500 (length t.title) || over_text t.description)) [
        | inl long ↦ rw (insert_task, long) (nothing k (ground arith))
        | inr short ↦ elim (Bool-cases (status_valid t.status)) [
          | inr unknown ↦ rw (insert_task, short, unknown) (nothing k (ground arith))
          | inl known ↦
              elim (Bool-cases
                (has_team r t.team_id && references r t.assignee_id && has_user r t.created_by)) [
                  | inr absent ↦ rw (insert_task, short, known, absent) (nothing k (ground arith))
                  | inl present ↦
                      rw (insert_task, short, known, present)
                        (new_task _ refl (ground (arith, known, present)))
                ]
        ]
      ]

  pub insert_history-Change :
      (h : TaskHistory) (now : ℤ)
      → Change c r n (insert_history h now r n).1 (insert_history h now r n).2
  unfolding insert_history
  insert_history-Change h now =
      let k = record n { history = suc n.history } in
      elim (Bool-cases
        (ltb 64 (length h.field) || over_text? h.old_value || over_text? h.new_value)) [
          | inl long ↦ rw long (nothing k (ground arith))
          | inr short ↦ elim (Bool-cases (has_task r h.task_id && has_user r h.changed_by)) [
            | inr absent ↦ rw (short, absent) (nothing k (ground arith))
            | inl present ↦
                rw (short, present) (new_entry (history_row h now (suc n.history)) refl present)
          ]
        ]

pub update_task-Change :
    (c : Collation) (r : Rows) (n : Counters) (t : Task) (now : ℤ)
    → Change c r n (update_task t now r n).1 (update_task t now r n).2
unfolding update_task
update_task-Change c r n t now = elim (Bool-cases (has_task r t.id)) [
  | inr absent ↦ rw absent (nothing n (AtMost-refl n))
  | inl present ↦ elim (Bool-cases (ltb 500 (length t.title) || over_text t.description)) [
    | inl long ↦ rw (present, long) (nothing n (AtMost-refl n))
    | inr short ↦ elim (Bool-cases (status_valid t.status)) [
      | inr odd ↦ rw (present, short, odd) (nothing n (AtMost-refl n))
      | inl typed ↦ elim (Bool-cases (references r t.assignee_id)) [
        | inr unknown ↦ rw (present, short, typed, unknown) (nothing n (AtMost-refl n))
        | inl known ↦ rw (present, short, typed, known) (set_task t now typed known)
      ]
    ]
  ]
]
